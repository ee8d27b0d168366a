-- ===== src/Server/Limiter/Window.antt =====
-- What `Allow` guarantees: a ceiling on the calls of one key in one window, and a truthful
-- Retry-After.
use mathlib.Core.Bool.{false≢true}
use codex_claude_monitor.Prelude.{
  ℕ, ◌+◌, ◌^◌, ◌≤◌, ◌<◌, String, ◌≡◌, ◌≢◌, Bool, true, false, not, some, List, [], ◌∷◌, arith, ltb,
  keep, ◌==◌, ◌&&◌, eq_iff, if◌then◌else◌, Option-cases, Bool-cases, inl, inr, ap, ◌∙◌, sym,
}
use codex_claude_monitor.Prelude.GoMap.{GoMap, lookup, insert, lookup-insert}
use codex_claude_monitor.Clock.{Instant, Duration, add, bias}
use codex_claude_monitor.Server.Limiter.{
  FixedWindowEntry, FixedWindowLimiter, Verdict, prunable, prune, expired, restart_window,
  count_hit, allow,
}

-- The window of an entry is open at `now`.
pub record IsOpen (window : Duration) (now : Instant) (entry : FixedWindowEntry) : Type 0 where
  pub started : entry.start ≤ now
  pub running : now + bias < entry.start + window

-- A window that is positive and fits twice into a `Duration`.
pub record IsWindow (window : Duration) : Type 0 where
  pub positive : bias < window
  pub short : window ≤ bias + 2 ^ 61

expired_open :
    (window : Duration) (now : Instant) (entry : FixedWindowEntry)
    → IsWindow window
    → IsOpen window now entry
    → expired window now entry ≡ false
expired_open window now entry w o = ground arith

prunable_open :
    (window : Duration) (now : Instant) (entry : FixedWindowEntry)
    → IsWindow window
    → IsOpen window now entry
    → prunable window now entry ≡ false
prunable_open window now entry w o = ground arith

lookup-keep :
    (k : String) (p : String × FixedWindowEntry → Bool) (m : GoMap FixedWindowEntry)
    (e : FixedWindowEntry)
    → lookup k m ≡ some e
    → p (k, e) ≡ true
    → lookup k (keep p m) ≡ some e
unfolding lookup
lookup-keep k p [] e h t = cc
lookup-keep k p ((j, v) ∷ m) e h t = elim (Bool-cases (j == k)) [
  | inl hit ↦
      let same : j ≡ k = (eq_iff j k).0 hit in
      ground (arith, lookup-keep k p m e, ap (λ (s : String). p (s, v)) same)
  | inr miss ↦ ground (arith, lookup-keep k p m e)
]

lookup-prune :
    (l : FixedWindowLimiter) (k : String) (now : Instant) (e : FixedWindowEntry)
    → IsWindow l.window
    → lookup k l.entries ≡ some e
    → IsOpen l.window now e
    → lookup k (prune l now).entries ≡ some e
unfolding prune
lookup-prune l k now e w h o = ground (
  arith,
  lookup-keep k (λ (x : String × FixedWindowEntry). not (prunable l.window now x.1)) l.entries e,
  prunable_open l.window now e w o,
)

window-prune : (l : FixedWindowLimiter) (now : Instant) → (prune l now).window ≡ l.window
unfolding prune
window-prune l now = ground arith

pub window-allow :
    (l : FixedWindowLimiter) (key : String) (now : Instant) (limit : ℕ)
    → (allow l key now limit).limiter.window ≡ l.window
unfolding allow
window-allow l key now limit = grind (arith, window-prune)

lookup-restart_window :
    (l : FixedWindowLimiter) (key k : String) (now : Instant) (e : FixedWindowEntry)
    → IsWindow l.window
    → key ≢ k
    → lookup k l.entries ≡ some e
    → IsOpen l.window now e
    → lookup k (restart_window l key now).limiter.entries ≡ some e
unfolding restart_window
lookup-restart_window l key k now e w ne h o =
    let fresh : FixedWindowEntry = record { start = now; hits = 1 } in
    lookup-prune (record l { entries = insert key fresh l.entries }) k now e w
      (ground (arith, lookup-insert key k fresh l.entries, eq_iff key k)) o

-- A call for another key leaves the open window of a key as it is.
lookup-allow_ne :
    (l : FixedWindowLimiter) (key k : String) (now : Instant) (limit : ℕ) (e : FixedWindowEntry)
    → IsWindow l.window
    → key ≢ k
    → lookup k l.entries ≡ some e
    → IsOpen l.window now e
    → lookup k (allow l key now limit).limiter.entries ≡ some e
unfolding allow
lookup-allow_ne l key k now limit e w ne h o = elim (Option-cases (lookup key l.entries)) [
  | inl absent ↦ rw (absent, allow) (lookup-restart_window l key k now e w ne h o)
  | inr (entry, present) ↦
      rw (present, allow)
        (unfold count_hit in
          ground (
            arith,
            lookup-restart_window l key k now e w ne h o,
            lookup-insert key k (record entry { hits = entry.hits + 1 }) l.entries,
            eq_iff key k,
          ))
]

-- The answer to a call for a key whose window is open.
pub allow_open :
    (l : FixedWindowLimiter) (k : String) (now : Instant) (limit : ℕ) (e : FixedWindowEntry)
    → IsWindow l.window
    → lookup k l.entries ≡ some e
    → IsOpen l.window now e
    → ((allow l k now limit).allowed ≡ ltb e.hits limit)
      × (lookup k (allow l k now limit).limiter.entries
          ≡ some (if ltb e.hits limit then record e { hits = e.hits + 1 } else e))
unfolding allow count_hit
allow_open l k now limit e w h o = ground (
  arith,
  expired_open l.window now e w o,
  lookup-insert k k (record e { hits = e.hits + 1 }) l.entries,
  eq_iff k k,
)

pub record Request : Type 0 where
  pub key : String
  pub at : Instant

-- The number of the requests for `k` that are let through, one after the other. The limit goes
-- with the key.
unfoldable pub admitted : (String → ℕ) → FixedWindowLimiter → String → List Request → ℕ
admitted limit_of l k [] = 0
admitted limit_of l k (r ∷ rs) =
    let v = allow l r.key r.at (limit_of r.key) in
    (if (r.key == k) && v.allowed then 1 else 0) + admitted limit_of v.limiter k rs

-- Every request falls into the window of `e`.
abbrev pub Within : Duration → FixedWindowEntry → List Request → Type 0
Within window e [] = Unit
Within window e (r ∷ rs) = IsOpen window r.at e × Within window e rs

Within-hits :
    (window : Duration) (e : FixedWindowEntry) (h : ℕ) (rs : List Request)
    → Within window e rs
    → Within window (record e { hits = h }) rs
Within-hits window e h [] w = tt
Within-hits window e h (r ∷ rs) w =
    (record { started = w.0.started; running = w.0.running }, Within-hits window e h rs w.1)

module _ (limit_of : String → ℕ) (k : String) where
  -- From the entry of `k` on, whatever the requests for other keys and whatever `prune` deletes
  -- meanwhile, the requests of its window that are let through stay within the limit of `k`:
  -- together with the hits of the entry they are at most `limit_of k`, if those hits are.
  pub admitted_le_limit :
      (rs : List Request) (l : FixedWindowLimiter) (e : FixedWindowEntry)
      → IsWindow l.window
      → lookup k l.entries ≡ some e
      → Within l.window e rs
      → e.hits ≤ limit_of k
      → admitted limit_of l k rs + e.hits ≤ limit_of k
  unfolding admitted
  admitted_le_limit [] l e w h inside fits = omega arith
  admitted_le_limit (r ∷ rs) l e w h inside fits =
      let v : Verdict = allow l r.key r.at (limit_of r.key) in
      let kept : v.limiter.window ≡ l.window = window-allow l r.key r.at (limit_of r.key) in
      let w' : IsWindow v.limiter.window = rw kept w in
      let rest : Within v.limiter.window e rs = rw kept inside.1 in
      elim (Bool-cases (r.key == k)) [
        | inl hit ↦
            let same : r.key ≡ k = (eq_iff r.key k).0 hit in
            let limits : limit_of r.key ≡ limit_of k = ap limit_of same in
            let lookups = λ (m : GoMap FixedWindowEntry). ap (λ (s : String). lookup s m) same in
            ground (
              arith,
              allow_open l r.key r.at (limit_of r.key) e w (lookups l.entries ∙ h) inside.0,
              lookups v.limiter.entries,
              admitted_le_limit rs v.limiter e w',
              admitted_le_limit rs v.limiter (record e { hits = e.hits + 1 }) w',
              rest,
              Within-hits v.limiter.window e (e.hits + 1) rs rest,
            )
        | inr miss ↦ ground (
          arith,
          lookup-allow_ne l r.key k r.at (limit_of r.key) e w
              (λ same. false≢true (sym miss ∙ (eq_iff r.key k).1 same)) h inside.0,
          admitted_le_limit rs v.limiter e w',
          rest,
        )
      ]

-- A refused request leaves the limiter as it was, and is told to wait for a positive time of at
-- most one window, after which a request with the same key is let through.
pub retry_after_suffices :
    (l : FixedWindowLimiter) (k : String) (now : Instant) (limit : ℕ)
    → IsWindow l.window
    → (allow l k now limit).allowed ≡ false
    → (bias < (allow l k now limit).retry_after)
      × ((allow l k now limit).retry_after ≤ l.window)
      × ((allow l k now limit).limiter ≡ l)
      × ((allow l k (add now (allow l k now limit).retry_after) limit).allowed ≡ true)
unfolding allow restart_window count_hit
retry_after_suffices l k now limit w refused = ground arith
