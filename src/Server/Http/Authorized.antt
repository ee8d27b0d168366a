-- ===== src/Server/Http/Authorized.antt =====
-- Who can change what through the API (`authenticate` and `handleAgentReport` of
-- internal/server/server.go).
use Prim.Native.String
use codex_claude_monitor.Prelude.{
  ℕ, String, ◌≡◌, ◌⊎◌, refl, inl, inr, Option, none, some, Member, ◌==◌, eq_iff, ltb, Bool-cases,
}
use codex_claude_monitor.Prelude.Result.{Result, ok, err, Check}
use codex_claude_monitor.Model.{AgentReport}
use codex_claude_monitor.Server.Limiter.{Verdict, allow}
use codex_claude_monitor.Server.Validate.{ReportError, validate_agent_report}
use codex_claude_monitor.Store.Db.{TokenRow, Db, StoreError}
use codex_claude_monitor.Store.Tokens.{
  TokenRecord, used_record, scope_agent_write, authenticate_token,
}
use codex_claude_monitor.Store.Tokens.Access.{authenticate_token-Member}
use codex_claude_monitor.Store.Tokens.Writes.{SameTables, authenticate_token-SameTables}
use codex_claude_monitor.Store.Report.{replace_agent_report}
use codex_claude_monitor.Server.Http.{
  Library, Config, Server, Response, Body, body_too_large, invalid_json, additional_json, decoded,
  Request,
}
use codex_claude_monitor.Server.Http.Auth.{
  Authentication, parse_bearer, auth_key, limited, accept_record, checked, check_token, in_slot,
  attempt, authenticate,
}
use codex_claude_monitor.Server.Http.Handlers.{
  judged, store_report, read_body, after_authentication, handle_agent_report,
}

-- The bearer token of the request is a row of the database with the scope, and not revoked.
abbrev pub Bears : Library → String → Request → Db → TokenRecord → Type 0
Bears lib scope req db token =
    (raw : String) × (parse_bearer lib req.authorization ≡ some raw)
    × ((row : TokenRow) × Member row db.tokens
        × (row.digest ≡ lib.sha256 raw)
        × (row.scope ≡ scope)
        × (row.revoked_at ≡ none)
        × (token ≡ used_record row req.store_now))

module _ (lib : Library) (cfg : Config) (scope : String) (limit : ℕ) (req : Request) (db : Db) where
  -- An authentication that starts from a database changes the tokens at most, and gives only a
  -- token that the request bears.
  abbrev Authentic : Authentication → Type 0
  Authentic (err response, s) = SameTables db s.db
  Authentic (ok token, s) = SameTables db s.db × Bears lib scope req db token

  limited-Authentic :
      (v : Verdict) (s : Server) (next : Server → Authentication)
      → SameTables db s.db
      → Authentic (next (record s { limiter = v.limiter }))
      → Authentic (limited v s next)
  limited-Authentic v s next same h = elim (Bool-cases v.allowed) [
    | inl passed ↦ rw passed h
    | inr refused ↦ rw refused same
  ]

  checked-Authentic :
      (s : Server) (out : Result StoreError TokenRecord × Db)
      → SameTables db out.1
      → ((token : TokenRecord) → out.0 ≡ ok token → Bears lib scope req db token)
      → Authentic (checked lib cfg scope limit req out s)
  unfolding checked accept_record
  checked-Authentic s (err e, db') same h = same
  checked-Authentic s (ok token, db') same h =
      limited-Authentic
        (allow s.limiter (String.◌++◌ scope (String.◌++◌ ":" token.id)) req.checked_at limit)
        (record s { db = db' }) (λ s'. (ok token, s')) same (same, h token refl)

  check_token-Authentic :
      (bearer : Option String) (s : Server)
      → parse_bearer lib req.authorization ≡ bearer
      → s.db ≡ db
      → Authentic (check_token lib cfg scope limit req bearer s)
  unfolding check_token
  check_token-Authentic none s e same = rw same (refl, refl, refl)
  check_token-Authentic (some raw) s e same =
      checked-Authentic s
        (authenticate_token lib.sha256 req.auth_fails req.store_now raw scope s.db)
        (rw same
          (authenticate_token-SameTables lib.sha256 req.auth_fails req.store_now raw scope db))
        λ token found. (
          raw,
          e,
          authenticate_token-Member lib.sha256 req.auth_fails req.store_now raw scope db token
              (rw same at found),
        )

  in_slot-Authentic : (s : Server) → s.db ≡ db → Authentic (in_slot lib cfg scope limit req s)
  unfolding in_slot
  in_slot-Authentic s same = elim (Bool-cases (ltb req.busy cfg.concurrent_auth)) [
    | inl free ↦ rw free (check_token-Authentic (parse_bearer lib req.authorization) s refl same)
    | inr full ↦ rw (full, same) (refl, refl, refl)
  ]

  attempt-Authentic : (s : Server) → s.db ≡ db → Authentic (attempt lib cfg scope limit req s)
  unfolding attempt
  attempt-Authentic s same =
      limited-Authentic
        (allow s.limiter (auth_key lib scope req) req.now cfg.auth_attempts_per_minute) s
        (in_slot lib cfg scope limit req) (rw same (refl, refl, refl)) (in_slot-Authentic _ same)

  authenticate-Authentic :
      (s : Server) → s.db ≡ db → Authentic (authenticate lib cfg scope limit req s)
  unfolding authenticate
  authenticate-Authentic s same =
      limited-Authentic (allow s.limiter "auth:global" req.now cfg.global_auth_attempts_per_minute)
        s (attempt lib cfg scope limit req) (rw same (refl, refl, refl)) (attempt-Authentic _ same)

-- The request has a valid report of the agent to which its token is bound, and the tables become
-- those that the store makes of it.
abbrev pub Reported : Library → Request → Db → Db → Type 0
Reported lib req db after =
    (token : TokenRecord) × (report : AgentReport) × (used : Db) × Bears lib scope_agent_write req
      db token
    × (req.body ≡ decoded report)
    × (token.agent_id ≡ report.agent_id)
    × (validate_agent_report lib.round report req.handled_at ≡ ok tt)
    × SameTables db used
    × (after ≡ (replace_agent_report lib.encode req.fails report req.handled_at used).1)

module _ (lib : Library) (cfg : Config) (req : Request) where
  abbrev Answer : Db → Response × Server → Type 0
  Answer db (response, s) = SameTables db s.db ⊎ Reported lib req db s.db

  judged-Answer :
      (db : Db) (token : TokenRecord) (report : AgentReport) (verdict : Check ReportError)
      (s : Server)
      → req.body ≡ decoded report
      → SameTables db s.db
      → Bears lib scope_agent_write req db token
      → token.agent_id ≡ report.agent_id
      → validate_agent_report lib.round report req.handled_at ≡ verdict
      → Answer db (judged lib cfg req report verdict s)
  unfolding judged
  judged-Answer db token report (err e) s body same bears bound valid = inl same
  judged-Answer db token report (ok tt) s body same bears bound valid =
      inr (token, report, s.db, bears, body, bound, valid, same, refl)

  store_report-Answer :
      (db : Db) (token : TokenRecord) (report : AgentReport) (s : Server)
      → req.body ≡ decoded report
      → SameTables db s.db
      → Bears lib scope_agent_write req db token
      → Answer db (store_report lib cfg req token report s)
  unfolding store_report
  store_report-Answer db token report s body same bears =
      elim (Bool-cases (token.agent_id == report.agent_id)) [
        | inl bound ↦ rw bound (
            judged-Answer db token report (validate_agent_report lib.round report req.handled_at) s
              body same bears ((eq_iff token.agent_id report.agent_id).0 bound) refl)
        | inr other ↦ rw other (inl same)
      ]

  read_body-Answer :
      (db : Db) (token : TokenRecord) (body : Body) (s : Server)
      → req.body ≡ body
      → SameTables db s.db
      → Bears lib scope_agent_write req db token
      → Answer db (read_body lib cfg req token body s)
  unfolding read_body
  read_body-Answer db token body_too_large s e same bears = inl same
  read_body-Answer db token invalid_json s e same bears = inl same
  read_body-Answer db token additional_json s e same bears = inl same
  read_body-Answer db token (decoded report) s e same bears =
      store_report-Answer db token report s e same bears

  answered :
      (db : Db) (a : Authentication)
      → Authentic lib cfg scope_agent_write cfg.agent_requests_per_minute req db a
      → Answer db
          (after_authentication lib cfg req (λ token. read_body lib cfg req token req.body) a)
  answered db (err response, s) same = inl same
  answered db (ok token, s) (same, bears) = read_body-Answer db token req.body s refl same bears

  -- A request to the report endpoint, whatever it sends and whichever database call fails, changes
  -- the reports, the tasks and the agents only with a token of the database that has the scope of
  -- agents and is not revoked, and with a valid report of the agent to which this token is bound;
  -- the change is then what the store makes of this report.
  pub handle_agent_report-Authorized :
      (s : Server)
      → SameTables s.db (handle_agent_report lib cfg req s).1.db
        ⊎ Reported lib req s.db (handle_agent_report lib cfg req s).1.db
  unfolding handle_agent_report
  handle_agent_report-Authorized s =
      answered s.db (authenticate lib cfg scope_agent_write cfg.agent_requests_per_minute req s) (
        authenticate-Authentic lib cfg scope_agent_write cfg.agent_requests_per_minute req s.db s
          refl)
