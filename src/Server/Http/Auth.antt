-- ===== src/Server/Http/Auth.antt =====
-- `authenticate` of internal/server/server.go: the limits, the slots and the token of a request.
use Prim.Native.String
use Prim.Native.String.{len}
use codex_claude_monitor.Prelude.{
  ℕ, ◌+◌, ◌-◌, ◌/◌, String, not, ◌||◌, Option, none, some, List, [], ◌∷◌, ltb, ◌==◌, if◌then◌else◌,
}
use codex_claude_monitor.Prelude.Text.{fields}
use codex_claude_monitor.Prelude.Result.{Result, ok, err}
use codex_claude_monitor.Clock.{Duration, second, bias}
use codex_claude_monitor.Server.Limiter.{Verdict, allow}
use codex_claude_monitor.Store.Db.{Db, StoreError}
use codex_claude_monitor.Store.Tokens.{TokenRecord, authenticate_token}
use codex_claude_monitor.Server.Http.{
  Library, Config, Server, Response, Request, rate_limited, unauthorized,
}

-- max(1, ceil(seconds))
abbrev whole_seconds : Duration → ℕ
whole_seconds d = let s = (d - bias + second - 1) / second in if ltb s 1 then 1 else s

unfoldable pub client_address : Library → String → String
client_address lib remote_addr = elim (lib.split_host remote_addr) [
  | some host ↦ if host == "" then (if remote_addr == "" then "unknown" else remote_addr) else host
  | none ↦ if remote_addr == "" then "unknown" else remote_addr
]

abbrev pub bearer_of : Library → List String → Option String
bearer_of lib (scheme ∷ token ∷ []) =
    if not (lib.equal_fold scheme "Bearer") || token == "" || ltb 256 (len token)
    then none
    else some token
bearer_of lib _ = none

unfoldable pub parse_bearer : Library → String → Option String
unfolding fields
parse_bearer lib value = bearer_of lib (fields value)

abbrev fingerprint_of : Library → Option String → String
fingerprint_of lib none = "malformed"
fingerprint_of lib (some raw) = lib.fingerprint raw

abbrev pub auth_key : Library → String → Request → String
unfolding parse_bearer client_address
auth_key lib scope req = String.◌++◌ "auth:" (
    String.◌++◌ scope (
      String.◌++◌ ":" (
        String.◌++◌ (client_address lib req.remote_addr)
          (String.◌++◌ ":" (fingerprint_of lib (parse_bearer lib req.authorization))))))

-- What `authenticate` returns, or the response that it has written, and the state after it.
abbrev pub Authentication : Type 0
Authentication = Result Response TokenRecord × Server

-- A request that the limiter refuses ends; one that it lets through goes on.
abbrev pub limited : Verdict → Server → (Server → Authentication) → Authentication
limited v s next =
    if v.allowed
    then next (record s { limiter = v.limiter })
    else (err (rate_limited (whole_seconds v.retry_after)), record s { limiter = v.limiter })

module _ (lib : Library) (cfg : Config) (scope : String) (limit : ℕ) (req : Request) where
  unfoldable pub accept_record : TokenRecord → Server → Authentication
  unfolding allow
  accept_record token s =
      limited (allow s.limiter (String.◌++◌ scope (String.◌++◌ ":" token.id)) req.checked_at limit)
        s λ s'. (ok token, s')

  unfoldable pub checked : Result StoreError TokenRecord × Db → Server → Authentication
  unfolding accept_record
  checked (err e, db) s = (err unauthorized, record s { db = db })
  checked (ok token, db) s = accept_record token (record s { db = db })

  unfoldable pub check_token : Option String → Server → Authentication
  unfolding checked authenticate_token
  check_token none s = (err unauthorized, s)
  check_token (some raw) s =
      checked (authenticate_token lib.sha256 req.auth_fails req.store_now raw scope s.db) s

  unfoldable pub in_slot : Server → Authentication
  unfolding check_token parse_bearer
  in_slot s =
      if ltb req.busy cfg.concurrent_auth
      then check_token (parse_bearer lib req.authorization) s
      else (err (rate_limited 1), s)

  -- The part after the aggregate limit.
  unfoldable pub attempt : Server → Authentication
  unfolding in_slot auth_key allow
  attempt s =
      limited (allow s.limiter (auth_key lib scope req) req.now cfg.auth_attempts_per_minute) s
        in_slot

  unfoldable pub authenticate : Server → Authentication
  unfolding attempt allow
  authenticate s =
      limited (allow s.limiter "auth:global" req.now cfg.global_auth_attempts_per_minute) s attempt
