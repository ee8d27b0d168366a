-- ===== src/Server/Http/Health.antt =====
-- How often the health endpoint asks the database, and what it answers in between (`handleHealth` of
-- internal/server/server.go).
use codex_claude_monitor.Prelude.{
  ◌+◌, ◌<◌, ◌≤◌, ◌≡◌, ◌≢◌, ◌⊎◌, Bool, true, false, List, [], ◌∷◌, All, if◌then◌else◌, refl, arith,
  inl, inr,
}
use codex_claude_monitor.Clock.{Instant, second, zero_time}
use codex_claude_monitor.Server.Http.{Server, Response}
use codex_claude_monitor.Server.Http.Handlers.{check_due, health_response, handle_health}

-- A sequence of health requests, each with its time and with what the database would answer to it:
-- the responses, and the state after them.
abbrev pub handle_all : List (Instant × Bool) → Server → List Response × Server
unfolding handle_health
handle_all [] s = ([], s)
handle_all ((now, ping_fails) ∷ requests) s =
    let (response, s') = handle_health now ping_fails s in
    let (responses, s'') = handle_all requests s' in (response ∷ responses, s'')

-- The requests of the second from a time on.
abbrev pub Within : Instant → Instant × Bool → Type 0
Within start (now, ping_fails) = (start ≤ now) × (now < start + second)

-- The database was not asked yet, or a second ago or longer, or at a later time.
abbrev pub Due : Instant → Server → Type 0
Due now s =
    (s.health_checked_at ≡ zero_time)
    ⊎ (s.health_checked_at + second ≤ now)
    ⊎ (now < s.health_checked_at)

-- 503 if the database does not answer, else 200
abbrev pub Reports : Bool → Response → Type 0
Reports fails response = response.status ≡ (if fails then 503 else 200)

Due-check_due : (now : Instant) (s : Server) → Due now s → check_due now s ≡ true
Due-check_due now s (inl e) = ground (arith, e)
Due-check_due now s (inr (inl old)) = ground (arith, old)
Due-check_due now s (inr (inr ahead)) = ground (arith, ahead)

checked_recently :
    (start now : Instant) (s : Server)
    → s.health_checked_at ≡ start
    → start ≢ zero_time
    → start ≤ now
    → now < start + second
    → check_due now s ≡ false
checked_recently start now s at set after within = rw at (ground arith)

response-Reports : (fails : Bool) → Reports fails (health_response fails)
response-Reports true = refl
response-Reports false = refl

handle_all-recent :
    (start : Instant) (fails : Bool) (requests : List (Instant × Bool)) (s : Server)
    → s.health_checked_at ≡ start
    → s.health_failed ≡ fails
    → start ≢ zero_time
    → All (Within start) requests
    → ((handle_all requests s).1.pings ≡ s.pings) × All (Reports fails) (handle_all requests s).0
unfolding handle_all handle_health
handle_all-recent start fails [] s at was set h = (refl, tt)
handle_all-recent start fails ((now, ping_fails) ∷ requests) s at was set ((after, within), h) =
    let (quiet, same) = handle_all-recent start fails requests s at was set h in
    let recent = checked_recently start now s at set after within in
    rw recent (quiet, (rw was (response-Reports fails), same))

-- If the database is due to be asked at a time other than the zero time (it was not asked yet, or a
-- second ago or longer, or at a later time), then a health request of that time asks it, and however
-- many requests come within the second from it on, none of them asks it: the number of calls has
-- risen by one. All these requests are answered alike, by 503 if that call failed and else by 200,
-- whatever the database would have answered to them.
pub handle_health-throttled :
    (now : Instant) (ping_fails : Bool) (requests : List (Instant × Bool)) (s : Server)
    → Due now s
    → now ≢ zero_time
    → All (Within now) requests
    → ((handle_all ((now, ping_fails) ∷ requests) s).1.pings ≡ s.pings + 1)
      × All (Reports ping_fails) (handle_all ((now, ping_fails) ∷ requests) s).0
unfolding handle_all handle_health
handle_health-throttled now ping_fails requests s due set h =
    let asked : Server = record s {
      pings = s.pings + 1;
      health_failed = ping_fails;
      health_checked_at = now;
    } in
    let (quiet, same) = handle_all-recent now ping_fails requests asked refl refl set h in
    rw (Due-check_due now s due) (quiet, (response-Reports ping_fails, same))
