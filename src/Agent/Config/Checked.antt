-- ===== src/Agent/Config/Checked.antt =====
-- The checks that a configuration has passed when an agent starts with it (`New` of
-- internal/agent/agent.go).
use codex_claude_monitor.Prelude.{
  String, Bool, true, false, not, ◌&&◌, Option, none, some, [], ◌∷◌, All, ◌≡◌, ◌⊎◌, inl, inr, refl,
  subst, ◌==◌, eq_iff, if◌then◌else◌, Bool-cases,
}
use codex_claude_monitor.Prelude.Text.{trim_space}
use codex_claude_monitor.Prelude.GoMap.{GoMap, insert, delete}
use codex_claude_monitor.Prelude.Result.{
  ok, pass, reject-then_iff, reject_iff, bind-ok, ok_inj, reject-ok,
}
use codex_claude_monitor.Model.{valid_provider}
use codex_claude_monitor.Agent.Config.{
  Config, Net, Url, Settings, check_server, check_url, check_scheme, is_loopback_host, new_agent,
  normalize_overrides, add_override, agent_id_pattern, plan_override_pattern, with_defaults,
}

-- A URL that passes the checks.
abbrev pub GuardedUrl : Net → Config → Url → Type 0
GuardedUrl net cfg u =
    ((u.host == "") ≡ false)
    × (u.has_user ≡ false)
    × ((u.scheme ≡ "https")
        ⊎ ((cfg.allow_insecure_http ≡ true)
            × (u.scheme ≡ "http")
            × (is_loopback_host net u.hostname ≡ true)))

-- A configuration without a sink that passes the checks.
abbrev pub GuardedServer : Net → Config → Type 0
GuardedServer net cfg =
    ((cfg.token == "") ≡ false)
    × ((u : Url) × (net.parse_url cfg.server_url ≡ some u) × GuardedUrl net cfg u)

abbrev pub GuardedOverride : String × String → Type 0
GuardedOverride (provider, plan) =
    (valid_provider provider ≡ true) × (plan_override_pattern plan ≡ true)

all_three : (x y z : Bool) → not (x && (y && z)) ≡ false → (x ≡ true) × (y ≡ true) × (z ≡ true)
all_three true true true h = (refl, refl, refl)
all_three true true false h = cc
all_three true false z h = cc
all_three false y z h = cc

scheme_cases :
    (net : Net) (cfg : Config) (u : Url)
    → (not (u.scheme == "https")
        && not (cfg.allow_insecure_http && (u.scheme == "http" && is_loopback_host net u.hostname)))
      ≡ false
    → (u.scheme ≡ "https")
      ⊎ ((cfg.allow_insecure_http ≡ true)
          × (u.scheme ≡ "http")
          × (is_loopback_host net u.hostname ≡ true))
scheme_cases net cfg u h = elim (Bool-cases (u.scheme == "https")) [
  | inl https ↦ inl ((eq_iff u.scheme "https").0 https)
  | inr other ↦
      let (allowed, http, loopback) =
        all_three cfg.allow_insecure_http (u.scheme == "http") (is_loopback_host net u.hostname)
          (rw other at h) in
      inr (allowed, (eq_iff u.scheme "http").0 http, loopback)
]

check_url-GuardedUrl :
    (net : Net) (cfg : Config) (o : Option Url)
    → check_url net cfg o ≡ ok tt
    → (u : Url) × (o ≡ some u) × GuardedUrl net cfg u
unfolding check_scheme
check_url-GuardedUrl net cfg none h = cc
check_url-GuardedUrl net cfg (some u) h =
    let (host, rest) = (reject-then_iff (u.host == "") _ _).0 h in
    let (user, last) = (reject-then_iff u.has_user _ _).0 rest in
    (u, refl, (host, user, scheme_cases net cfg u ((reject_iff _ _).0 last)))

check_server-GuardedServer :
    (net : Net) (cfg : Config) → check_server net cfg ≡ ok tt → GuardedServer net cfg
unfolding check_server
check_server-GuardedServer net cfg h =
    let (token, rest) = (reject-then_iff (cfg.token == "") _ _).0 h in
    (token, check_url-GuardedUrl net cfg (net.parse_url cfg.server_url) rest)

delete-All :
    (k : String) (m : GoMap String) → All GuardedOverride m → All GuardedOverride (delete k m)
unfolding delete
delete-All k [] h = tt
delete-All k ((j, r) ∷ m) (h, hs) = elim (Bool-cases (j == k)) [
  | inl hit ↦ rw hit (delete-All k m hs)
  | inr miss ↦ rw miss (h, delete-All k m hs)
]

not-false : (b : Bool) → not b ≡ false → b ≡ true
not-false true h = refl
not-false false h = cc

add_override-All :
    (provider plan : String) (m kept : GoMap String)
    → valid_provider provider ≡ true
    → All GuardedOverride m
    → add_override provider plan m ≡ ok kept
    → All GuardedOverride kept
unfolding add_override insert
add_override-All provider plan m kept known h e = elim (Bool-cases (plan == "")) [
  | inl empty ↦ subst (All GuardedOverride) (ok_inj _ _ _ refl (rw empty at e)) h
  | inr written ↦ elim (Bool-cases (plan_override_pattern plan)) [
    | inl fits ↦
        subst (All GuardedOverride) (ok_inj _ _ _ refl (rw (written, fits) at e))
          ((known, fits), delete-All provider m h)
    | inr refused ↦ cc (rw (written, refused) at e)
  ]
]

normalize_overrides-All :
    (overrides m kept : GoMap String)
    → All GuardedOverride m
    → normalize_overrides overrides m ≡ ok kept
    → All GuardedOverride kept
unfolding normalize_overrides
normalize_overrides-All [] m kept h e = subst (All GuardedOverride) (ok_inj _ _ _ refl e) h
normalize_overrides-All ((provider, raw_plan) ∷ rest) m kept h e =
    let (known, e') = reject-ok (not (valid_provider provider)) _ _ _ e in
    let (m', stored, e'') = bind-ok (add_override provider (trim_space raw_plan) m) _ _ e' in
    normalize_overrides-All rest m' kept
      (add_override-All provider (trim_space raw_plan) m m'
        (not-false (valid_provider provider) known) h stored)
      e''

abbrev pub Guarded : Net → Config → Type 0
Guarded net cfg =
    (agent_id_pattern cfg.agent_id ≡ true)
    × All GuardedOverride cfg.plan_overrides
    × ((cfg.has_sink ≡ true) ⊎ GuardedServer net cfg)

server_case :
    (net : Net) (cfg : Config) (sink : Bool)
    → (if sink then pass else check_server net cfg) ≡ ok tt
    → (sink ≡ true) ⊎ GuardedServer net cfg
server_case net cfg true h = inl refl
server_case net cfg false h = inr (check_server-GuardedServer net cfg h)

pub new_agent-Guarded :
    (net : Net) (cfg : Config) (settings : Settings)
    → new_agent net cfg ≡ ok settings
    → Guarded net settings.config
unfolding new_agent with_defaults
new_agent-Guarded net cfg settings h =
    let (id, h1) = reject-ok (not (agent_id_pattern cfg.agent_id)) _ _ _ h in
    let (checked, server, h2) =
      bind-ok (if cfg.has_sink then pass else check_server net cfg) _ _ h1 in
    let (overrides, kept, h3) = bind-ok (normalize_overrides cfg.plan_overrides []) _ _ h2 in
    subst (λ s. Guarded net s.config) (ok_inj _ _ _ refl h3)
      (
        not-false (agent_id_pattern cfg.agent_id) id,
        normalize_overrides-All cfg.plan_overrides [] overrides tt kept,
        server_case net cfg cfg.has_sink server,
      )
