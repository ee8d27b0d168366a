-- ===== src/Agent/Config/Safe.antt =====
-- Which configurations an agent starts with (`New` of internal/agent/agent.go), in terms of their
-- texts.
use Prim.Native.String.{len}
use Prim.Native.Char.{code}
use codex_claude_monitor.Prelude.{
  ℕ, ◌≤◌, String, Bool, true, false, ◌&&◌, ◌||◌, Option, none, some, All, ◌≡◌, ◌≢◌, ◌⊎◌, inl, inr,
  refl, ◌==◌, arith, ap, eq_iff, leb, nat_eq, Bool-cases, [], ◌∷◌,
}
use codex_claude_monitor.Prelude.Text.{every, is_upper, is_lower, is_digit}
use codex_claude_monitor.Prelude.GoMap.{GoMap}
use codex_claude_monitor.Prelude.Result.{ok}
use codex_claude_monitor.Model.{valid_provider}
use codex_claude_monitor.Agent.Config.{
  Config, Net, Url, Settings, is_loopback_host, new_agent, agent_id_pattern, plan_override_pattern,
  id_char, override_start,
}
use codex_claude_monitor.Agent.Config.Checked.{
  GuardedUrl, GuardedServer, GuardedOverride, new_agent-Guarded,
}

-- An ASCII letter or digit.
abbrev pub Alphanumeric : ℕ → Type 0
Alphanumeric c = ((65 ≤ c) × (c ≤ 90)) ⊎ ((97 ≤ c) × (c ≤ 122)) ⊎ ((48 ≤ c) × (c ≤ 57))

-- An ASCII letter, a digit, a dot, an underscore or a hyphen.
abbrev pub Plain : ℕ → Type 0
Plain c = Alphanumeric c ⊎ (c ≡ 46) ⊎ (c ≡ 95) ⊎ (c ≡ 45)

-- One of those, or a space.
abbrev pub Spaced : ℕ → Type 0
Spaced c = Plain c ⊎ (c ≡ 32)

-- Every character of the text satisfies the predicate.
abbrev pub Each : (ℕ → Type 0) → String → Type 0
Each P String.[] = Unit
Each P (String.◌∷◌ c s) = P (code c) × Each P s

-- The text starts with a letter or a digit.
abbrev pub StartsPlain : String → Type 0
StartsPlain String.[] = ⊥
StartsPlain (String.◌∷◌ c s) = Alphanumeric (code c)

both : (x y : Bool) → (x && y) ≡ true → (x ≡ true) × (y ≡ true)
both true true h = (refl, refl)
both true false h = cc
both false y h = cc

either : (x y : Bool) → (x || y) ≡ true → (x ≡ true) ⊎ (y ≡ true)
either true y h = inl refl
either false y h = inr h

every-Each :
    (p : ℕ → Bool) (P : ℕ → Type 0) (s : String)
    → ((c : ℕ) → p c ≡ true → P c)
    → every p s ≡ true
    → Each P s
unfolding every
every-Each p P String.[] h e = tt
every-Each p P (String.◌∷◌ c s) h e =
    let (first, rest) = both (p (code c)) (every p s) e in
    (h (code c) first, every-Each p P s h rest)

alphanumeric : (c : ℕ) → (is_upper c || is_lower c || is_digit c) ≡ true → Alphanumeric c
alphanumeric c h = elim (either (is_upper c || is_lower c) (is_digit c) h) [
  | inl letter ↦ elim (either (is_upper c) (is_lower c) letter) [
    | inl upper ↦ inl (ground arith, ground arith)
    | inr lower ↦ inr (inl (ground arith, ground arith))
  ]
  | inr digit ↦ inr (inr (ground arith, ground arith))
]

id_char-Plain : (c : ℕ) → id_char c ≡ true → Plain c
id_char-Plain c h = elim (either _ (nat_eq c b'-') h) [
  | inl h1 ↦ elim (either _ (nat_eq c b'_') h1) [
    | inl h2 ↦ elim (either (is_upper c || is_lower c || is_digit c) (nat_eq c b'.') h2) [
      | inl h3 ↦ inl (alphanumeric c h3)
      | inr dot ↦ inr (inl (ground arith))
    ]
    | inr underscore ↦ inr (inr (inl (ground arith)))
  ]
  | inr hyphen ↦ inr (inr (inr (ground arith)))
]

override_char-Spaced : (c : ℕ) → (id_char c || nat_eq c b' ') ≡ true → Spaced c
override_char-Spaced c h = elim (either (id_char c) _ h) [
  | inl plain ↦ inl (id_char-Plain c plain)
  | inr space ↦ inr (ground arith)
]

override_start-StartsPlain : (s : String) → override_start s ≡ true → StartsPlain s
override_start-StartsPlain String.[] h = cc
override_start-StartsPlain (String.◌∷◌ c s) h = alphanumeric (code c) h

-- Up to 64 letters, digits, dots, underscores and hyphens, and at least one.
abbrev pub SafeId : String → Type 0
SafeId id = (1 ≤ len id) × (len id ≤ 64) × Each Plain id

-- The provider is known, and the plan is a letter or digit with up to 31 letters, digits, dots,
-- underscores, hyphens and spaces after it.
abbrev pub SafeOverride : String × String → Type 0
SafeOverride (provider, plan) =
    ((provider ≡ "codex") ⊎ (provider ≡ "claude"))
    × StartsPlain plan
    × (len plan ≤ 32)
    × Each Spaced plan

-- There is a host and there are no credentials; the scheme is HTTPS, or HTTP where that is allowed
-- and the host is localhost or a loopback address.
abbrev pub SafeUrl : Net → Config → Url → Type 0
SafeUrl net cfg u =
    (u.host ≢ "")
    × (u.has_user ≡ false)
    × ((u.scheme ≡ "https")
        ⊎ ((cfg.allow_insecure_http ≡ true)
            × (u.scheme ≡ "http")
            × ((net.equal_fold u.hostname "localhost" ≡ true)
                ⊎ (net.loopback_ip u.hostname ≡ some true))))

-- There is a token, and the server URL is one to which it may be sent.
abbrev pub SafeServer : Net → Config → Type 0
SafeServer net cfg =
    (cfg.token ≢ "") × ((u : Url) × (net.parse_url cfg.server_url ≡ some u) × SafeUrl net cfg u)

abbrev pub Safe : Net → Config → Type 0
Safe net cfg =
    SafeId cfg.agent_id
    × All SafeOverride cfg.plan_overrides
    × ((cfg.has_sink ≡ true) ⊎ SafeServer net cfg)

written : (s : String) → (s == "") ≡ false → s ≢ ""
written s h e = ground (arith, eq_iff s "")

agent_id_pattern-SafeId : (id : String) → agent_id_pattern id ≡ true → SafeId id
unfolding agent_id_pattern
agent_id_pattern-SafeId id h =
    let (size, characters) = both _ (every id_char id) h in
    let (least, most) = both (leb 1 (len id)) (leb (len id) 64) size in
    (ground arith, ground arith, every-Each id_char Plain id id_char-Plain characters)

GuardedOverride-SafeOverride : (e : String × String) → GuardedOverride e → SafeOverride e
unfolding plan_override_pattern valid_provider
GuardedOverride-SafeOverride (provider, plan) (known, fits) =
    let (shape, characters) = both _ (every (λ c. id_char c || nat_eq c b' ') plan) fits in
    let (start, most) = both (override_start plan) (leb (len plan) 32) shape in
    (
      elim (either (provider == "codex") (provider == "claude") known) [
        | inl codex ↦ inl ((eq_iff provider "codex").0 codex)
        | inr claude ↦ inr ((eq_iff provider "claude").0 claude)
      ],
      override_start-StartsPlain plan start,
      ground arith,
      every-Each _ Spaced plan override_char-Spaced characters,
    )

overrides-SafeOverride : (m : GoMap String) → All GuardedOverride m → All SafeOverride m
overrides-SafeOverride [] h = tt
overrides-SafeOverride (e ∷ m) (h, hs) =
    (GuardedOverride-SafeOverride e h, overrides-SafeOverride m hs)

is_loopback_host-cases :
    (net : Net) (host : String)
    → is_loopback_host net host ≡ true
    → (net.equal_fold host "localhost" ≡ true) ⊎ (net.loopback_ip host ≡ some true)
unfolding is_loopback_host
is_loopback_host-cases net host h = elim (Bool-cases (net.equal_fold host "localhost")) [
  | inl named ↦ inl named
  | inr other ↦ inr (loopback (net.loopback_ip host) (rw other at h))
]
  where
    loopback : (o : Option Bool) → elim o [ some l ↦ l | none ↦ false ] ≡ true → o ≡ some true
    loopback none e = cc
    loopback (some l) e = ap some e

GuardedUrl-SafeUrl : (net : Net) (cfg : Config) (u : Url) → GuardedUrl net cfg u → SafeUrl net cfg u
GuardedUrl-SafeUrl net cfg u (host, user, inl https) = (written u.host host, user, inl https)
GuardedUrl-SafeUrl net cfg u (host, user, inr (allowed, http, loopback)) =
    (written u.host host, user, inr (allowed, http, is_loopback_host-cases net u.hostname loopback))

server-SafeServer :
    (net : Net) (cfg : Config)
    → (cfg.has_sink ≡ true) ⊎ GuardedServer net cfg
    → (cfg.has_sink ≡ true) ⊎ SafeServer net cfg
server-SafeServer net cfg (inl sink) = inl sink
server-SafeServer net cfg (inr (token, (u, parsed, guarded))) =
    inr (written cfg.token token, (u, parsed, GuardedUrl-SafeUrl net cfg u guarded))

-- An agent starts only with an id of 1 to 64 letters, digits, dots, underscores and hyphens, and
-- with overrides of the plans of known providers, each a letter or digit with up to 31 of these
-- characters or spaces after it. If it has no sink, it has a token, and a server URL with a host and
-- without credentials, which is HTTPS, or HTTP to localhost or a loopback address where that is
-- allowed.
pub new_agent-Safe :
    (net : Net) (cfg : Config) (settings : Settings)
    → new_agent net cfg ≡ ok settings
    → Safe net settings.config
new_agent-Safe net cfg settings h =
    let (id, overrides, server) = new_agent-Guarded net cfg settings h in
    (
      agent_id_pattern-SafeId settings.config.agent_id id,
      overrides-SafeOverride settings.config.plan_overrides overrides,
      server-SafeServer net settings.config server,
    )
