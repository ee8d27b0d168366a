-- ===== src/Collector/Codex/Rpc.antt =====
-- `CodexCollector.Collect` of internal/collector/codex.go: the attempts of a collection and the
-- life of the app-server process.
--
-- The process is outside the program: `Replies` says how its start, its calls and its exit turn
-- out, by the number of the operation. A call that fails other than by an error of the app-server
-- stops the process (`callOnProcess`).
pub mod Life
use codex_claude_monitor.Prelude.{
  ℕ, ◌+◌, ◌*◌, String, Bool, true, false, not, ◌&&◌, ◌||◌, Option, none, some, List, [], ◌∷◌, ◌==◌,
  if◌then◌else◌,
}
use codex_claude_monitor.Prelude.Text.{trim_space, contains, without, to_lower}
use codex_claude_monitor.Clock.{Instant}
use codex_claude_monitor.Float
use codex_claude_monitor.Float.{Float64, fin, pos, Round}
use codex_claude_monitor.Json.{
  Json, Items, Members, null, bool, num, text, arr, obj, nil, cons, end, member,
}
use codex_claude_monitor.Model.{ProviderReport, no_windows}
use codex_claude_monitor.Collector.Window.{unavailable_report}
use codex_claude_monitor.Collector.Codex.{
  Lower, AccountResponse, RateLimitsResponse, normalize_codex,
}

-- `details` is the decoded data; `none` if there is none or it is no JSON.
pub record RpcError : Type 0 where
  pub message : String
  pub details : Option Json

pub data CollectError : Type 0 where
  rpc : RpcError → CollectError
  other : CollectError

abbrev is_auth_code : String → Bool
is_auth_code s =
    s == "token_expired"
    || s == "refresh_token_expired"
    || s == "invalid_token"
    || s == "invalid_grant"

abbrev is_401 : Json → Bool
is_401 (num x) = Float.eq x (fin (pos (401 * Float.one)))
is_401 _ = false

abbrev is_auth_text : Lower → Json → Bool
is_auth_text lower (text s) = is_auth_code (to_lower lower (trim_space s))
is_auth_text lower _ = false

-- The two cases of the switch on the compacted key.
abbrev member_refreshable : Lower → String → Json → Bool
member_refreshable lower key child =
    let compact = to_lower lower (without b'_' key) in
    if compact == "code" || compact == "errorcode" || compact == "type"
    then is_auth_text lower child
    else if compact == "httpstatus" || compact == "status" || compact == "statuscode"
    then is_401 child
    else false

unfoldable mutual
  pub error_data_is_refreshable : Lower → Json → Bool
  error_data_is_refreshable lower (obj m) = members_refreshable lower m
  error_data_is_refreshable lower (arr xs) = items_refreshable lower xs
  error_data_is_refreshable lower (text s) =
      contains (to_lower lower s) "token_expired" || contains (to_lower lower s) "invalid_grant"
  error_data_is_refreshable lower null = false
  error_data_is_refreshable lower (bool b) = false
  error_data_is_refreshable lower (num x) = false

  pub members_refreshable : Lower → Members → Bool
  members_refreshable lower end = false
  members_refreshable lower (member k v rest) =
      member_refreshable lower k v
      || error_data_is_refreshable lower v
      || members_refreshable lower rest

  pub items_refreshable : Lower → Items → Bool
  items_refreshable lower nil = false
  items_refreshable lower (cons v rest) =
      error_data_is_refreshable lower v || items_refreshable lower rest

unfoldable pub message_is_refreshable : String → Bool
message_is_refreshable message =
    contains message "token_expired"
    || contains message "invalid_grant"
    || contains message "refresh token is expired"
    || (contains message "401 unauthorized" && contains message "expired")

unfoldable pub is_refreshable_auth_error : Lower → CollectError → Bool
is_refreshable_auth_error lower other = false
is_refreshable_auth_error lower (rpc e) =
    if message_is_refreshable (to_lower lower e.message)
    then true
    else elim e.details [ none ↦ false | some v ↦ error_data_is_refreshable lower v ]

-- The answer to a call: a result, an error of the app-server, a result that cannot be decoded, or
-- none, after which the process is stopped.
pub data Reply (A : Type 0) : Type 0 where
  answer : A → Reply A
  refused : RpcError → Reply A
  undecodable broken : Reply A

pub record Replies : Type 0 where
  -- Whether an app-server that ran before still runs, and whether a new one starts.
  pub alive : ℕ → Bool
  pub starts : ℕ → Bool
  -- The error of the handshake, if it fails.
  pub handshake : ℕ → Option CollectError
  pub account : Bool → ℕ → Reply AccountResponse
  pub limits : ℕ → Reply RateLimitsResponse
  pub exits : ℕ → Bool
  pub clock : ℕ → Instant

-- Whether an app-server runs, and the number of the next operation.
pub record Client : Type 0 where
  pub running : Bool
  pub next : ℕ

-- A report, and the error unless it is nil.
abbrev pub Outcome : Type 0
Outcome = ProviderReport × Option CollectError

abbrev tick : Client → Client
tick c = record c { next = c.next + 1 }

abbrev halted : Client → Client
halted c = record { running = false; next = c.next + 1 }

-- ensureStarted: the error unless an app-server runs afterwards. The error of the handshake is
-- passed on wrapped.
unfoldable pub ensure_started : Replies → Client → Option CollectError × Client
ensure_started replies c =
    if c.running && replies.alive c.next
    then (none, c)
    else if not (replies.starts c.next)
    then (some other, halted c)
    else elim (replies.handshake c.next) [
      | none ↦ (none, record { running = true; next = c.next + 1 })
      | some e ↦ (some e, halted c)
    ]

-- Close, and ReleaseIdleResources, which waits for the exit.
unfoldable pub close : Client → Client
close c = if c.running then halted c else c

unfoldable pub release_idle_resources : Client → Client
release_idle_resources c = if c.running then halted c else c

-- What a reply means for the caller and for the process.
unfoldable pub received :
    {A : Type 0} → Reply A → Client → (Option CollectError × Option A) × Client
received (answer a) c = ((none, some a), tick c)
received (refused e) c = ((some (rpc e), none), tick c)
received undecodable c = ((some other, none), tick c)
received broken c = ((some other, none), halted c)

-- resetCurrentProcessAndWait: the process is stopped; the wait for its exit may be cut short.
unfoldable pub reset_and_wait : Replies → Client → Option CollectError × Client
reset_and_wait replies c =
    if not c.running
    then (none, c)
    else (if replies.exits c.next then none else some other, halted c)

abbrev source : String
source = "codex-app-server"

abbrev pub login_required_report : Instant → ProviderReport
login_required_report now = record {
  observed_at = now;
  auth_state = "unauthenticated";
  plan = "";
  source = source;
  windows = no_windows;
  error_code = "not_authenticated";
}

abbrev is_logged_out : AccountResponse → Bool
is_logged_out a = elim a.account [ none ↦ a.requires_openai_auth | some _ ↦ false ]

abbrev failed : String → Instant → CollectError → Outcome
failed code now e = (unavailable_report now source code, some e)

-- After account/rateLimits/read.
unfoldable pub finish_limits :
    Round
    → Lower
    → Replies
    → AccountResponse
    → (Option CollectError × Option RateLimitsResponse) × Client
    → Outcome × Client
finish_limits round lower replies account ((e, some limits), c) =
    ((normalize_codex round lower account limits (replies.clock c.next), none), c)
finish_limits round lower replies account ((some e, none), c) =
    (failed "rate_limits_read_failed" (replies.clock c.next) e, c)
finish_limits round lower replies account ((none, none), c) =
    (failed "rate_limits_read_failed" (replies.clock c.next) other, c)

-- An account that has to log in: the app-server is recreated on the next poll.
unfoldable pub logged_out : Replies → Client → Outcome × Client
logged_out replies c =
    let (e, c') = reset_and_wait replies c in
    (
      elim e [
        | none ↦ (login_required_report (replies.clock c'.next), none)
        | some e ↦ failed "account_read_failed" (replies.clock c'.next) e
      ],
      c',
    )

-- After account/read.
unfoldable pub finish_account :
    Round
    → Lower
    → Replies
    → (Option CollectError × Option AccountResponse) × Client
    → Outcome × Client
finish_account round lower replies ((e, some account), c) =
    if is_logged_out account
    then logged_out replies c
    else finish_limits round lower replies account (received (replies.limits c.next) c)
finish_account round lower replies ((some e, none), c) =
    (failed "account_read_failed" (replies.clock c.next) e, c)
finish_account round lower replies ((none, none), c) =
    (failed "account_read_failed" (replies.clock c.next) other, c)

unfoldable pub collect_attempt : Round → Lower → Replies → Bool → Client → Outcome × Client
collect_attempt round lower replies refresh_token c =
    let (failure, c') = ensure_started replies c in
    elim failure [
      | some e ↦ (failed "start_failed" (replies.clock c'.next) e, c')
      | none ↦
          finish_account round lower replies (received (replies.account refresh_token c'.next) c')
    ]

-- The end of the second attempt, which forced a refresh.
unfoldable pub conclude : Lower → Replies → Outcome × Client → Outcome × Client
conclude lower replies ((report, none), c) = ((report, none), c)
conclude lower replies ((report, some e), c) =
    let (failure, c') = reset_and_wait replies c in
    (
      elim failure [
        | some stuck ↦ (report, some stuck)
        | none ↦
            if is_refreshable_auth_error lower e
            then (login_required_report (replies.clock c'.next), none)
            else (report, some e)
      ],
      c',
    )

-- The end of the first attempt.
unfoldable pub retry : Round → Lower → Replies → Outcome × Client → Outcome × Client
retry round lower replies ((report, none), c) = ((report, none), c)
retry round lower replies ((report, some e), c) =
    let (failure, c') = reset_and_wait replies c in
    elim failure [
      | some stuck ↦ ((report, some stuck), c')
      | none ↦
          if not (is_refreshable_auth_error lower e)
          then ((report, some e), c')
          else conclude lower replies (collect_attempt round lower replies true c')
    ]

unfoldable pub collect : Round → Lower → Replies → Client → Outcome × Client
collect round lower replies c =
    retry round lower replies (collect_attempt round lower replies false c)
