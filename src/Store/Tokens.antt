-- ===== src/Store/Tokens.antt =====
-- The bearer tokens of internal/store/store.go: CreateToken, RevokeToken and AuthenticateToken.
--
-- SHA-256 is a parameter, and a digest is the text that it gives; the CHECK on its length always
-- holds. What `randomString` gives is an argument, `none` if the source of randomness fails.
pub mod Access
pub mod Writes
pub mod Listing
use Prim.Native.String.{len}
use Prim.Native.String
use codex_claude_monitor.Prelude.{
  ℕ, String, Bool, true, false, not, ◌&&◌, ◌||◌, Option, none, some, List, [], ◌∷◌, ◌++◌, map, ltb,
  nat_eq, keep, is_none, ◌==◌, if◌then◌else◌,
}
use codex_claude_monitor.Prelude.Text.{trim_space}
use codex_claude_monitor.Prelude.Result.{Result, ok, err, ◌>>=◌, ◌>>◌, Check, reject}
use codex_claude_monitor.Clock.{Instant, UnixNano, unix_nano, of_unix_nano}
use codex_claude_monitor.Server.Validate.{valid_agent_id}
use codex_claude_monitor.Store.Db.{
  TokenRow, Db, StoreError, sql_failed, constraint_failed, invalid_token, token_not_found,
  random_failed, invalid_scope, agent_id_missing, agent_id_given, bad_agent_id, label_too_long,
  exists, Faults, exec,
}

abbrev pub scope_agent_write : String
scope_agent_write = "agent:write"

abbrev pub scope_display_read : String
scope_display_read = "display:read"

-- TokenScope.Valid
abbrev pub valid_scope : String → Bool
valid_scope s = s == scope_agent_write || s == scope_display_read

pub record CreateTokenRequest : Type 0 where
  pub scope : String
  pub agent_id : String
  pub label : String

pub record TokenRecord : Type 0 where
  pub id : String
  pub scope : String
  pub agent_id : String
  pub label : String
  pub created_at : Instant
  pub revoked_at : Option Instant
  pub last_used_at : Option Instant

pub record CreatedToken : Type 0 where
  pub token_record : TokenRecord
  pub raw_token : String

abbrev same_token : TokenRow → TokenRow → Bool
same_token new old = old.id == new.id || old.digest == new.digest

-- The CHECK on the scope and the agent.
abbrev pub token_check : TokenRow → Bool
token_check row = elim row.agent_id [
  | none ↦ row.scope == scope_display_read
  | some agent_id ↦ row.scope == scope_agent_write && not (nat_eq (len agent_id) 0)
]

-- INSERT INTO tokens: `id` is the primary key and `digest` is unique.
unfoldable pub insert_token_row : TokenRow → Db → Result StoreError Db
insert_token_row row db =
    if token_check row && not (exists (same_token row) db.tokens)
    then ok (record db { tokens = db.tokens ++ row ∷ [] })
    else err constraint_failed

-- The guards of CreateToken, on the request with its agent ID trimmed.
unfoldable pub check_request : CreateTokenRequest → Check StoreError
check_request req = do
  reject (req.scope == scope_agent_write && req.agent_id == "") agent_id_missing
  reject (req.scope == scope_display_read && not (req.agent_id == "")) agent_id_given
  reject (not (req.agent_id == "") && not (valid_agent_id req.agent_id)) bad_agent_id
  reject (ltb 200 (len req.label)) label_too_long

abbrev pub random_text : Option String → Result StoreError String
random_text none = err random_failed
random_text (some s) = ok s

abbrev pub token_row : (String → String) → CreateTokenRequest → String → String → Instant → TokenRow
token_row sha256 req raw id created_at = record {
  id = id;
  digest = sha256 raw;
  scope = req.scope;
  agent_id = if req.agent_id == "" then none else some req.agent_id;
  label = req.label;
  created_at = unix_nano created_at;
  revoked_at = none;
  last_used_at = none;
}

abbrev pub created_token : CreateTokenRequest → String → String → Instant → CreatedToken
created_token req raw id created_at = record {
  token_record = record {
    id = id;
    scope = req.scope;
    agent_id = req.agent_id;
    label = req.label;
    created_at = created_at;
    revoked_at = none;
    last_used_at = none;
  };
  raw_token = raw;
}

unfoldable pub create_in :
    (String → String)
    → Faults
    → Option String
    → Option String
    → Instant
    → CreateTokenRequest
    → Db
    → Result StoreError (CreatedToken × Db)
create_in sha256 fails secret part created_at given db = do
  reject (not (valid_scope given.scope)) invalid_scope
  let req : CreateTokenRequest = record given { agent_id = trim_space given.agent_id }
  check_request req
  raw_secret ← random_text secret
  id_part ← random_text part
  let raw = String.◌++◌ "qmon_" raw_secret
  let id = String.◌++◌ "tok_" id_part
  db' ← exec fails 0 (insert_token_row (token_row sha256 req raw id created_at) db)
  ok (created_token req raw id created_at, db')

-- The table stays as it was where a call fails.
abbrev pub settle {ℓ} : {A : Type ℓ} → Db → Result StoreError (A × Db) → Result StoreError A × Db
settle db (ok (a, db')) = (ok a, db')
settle db (err e) = (err e, db)

unfoldable pub create_token :
    (String → String)
    → Faults
    → Option String
    → Option String
    → Instant
    → CreateTokenRequest
    → Db
    → Result StoreError CreatedToken × Db
create_token sha256 fails secret part created_at req db =
    settle db (create_in sha256 fails secret part created_at req db)

abbrev pub revocable : String → TokenRow → Bool
revocable id row = row.id == id && is_none row.revoked_at

-- UPDATE tokens SET revoked_at_ns = ? WHERE id = ? AND revoked_at_ns IS NULL
abbrev pub revoke_rows : String → UnixNano → List TokenRow → List TokenRow
revoke_rows id now [] = []
revoke_rows id now (row ∷ rest) =
    (if revocable id row then record row { revoked_at = some now } else row)
    ∷ revoke_rows id now rest

unfoldable pub revoke_token : Faults → Instant → String → Db → Result StoreError (Unit {0}) × Db
revoke_token fails now id db =
    if fails 0
    then (err sql_failed, db)
    else if exists (revocable id) db.tokens
    then (ok tt, record db { tokens = revoke_rows id (unix_nano now) db.tokens })
    else (err token_not_found, db)

-- WHERE scope = ? AND revoked_at_ns IS NULL, and a digest that is equal.
abbrev pub matches : String → String → TokenRow → Bool
matches digest scope row = row.scope == scope && is_none row.revoked_at && row.digest == digest

-- UPDATE tokens SET last_used_at_ns = ? WHERE id = ?
abbrev pub use_rows : String → UnixNano → List TokenRow → List TokenRow
use_rows id now [] = []
use_rows id now (row ∷ rest) =
    (if row.id == id then record row { last_used_at = some now } else row) ∷ use_rows id now rest

abbrev pub used_record : TokenRow → Instant → TokenRecord
used_record row now = record {
  id = row.id;
  scope = row.scope;
  agent_id = elim row.agent_id [ none ↦ "" | some a ↦ a ];
  label = row.label;
  created_at = of_unix_nano row.created_at;
  revoked_at = none;
  last_used_at = some now;
}

-- The row is accepted if it is the only one that matches.
abbrev pub only_match : List TokenRow → Result StoreError TokenRow
only_match [] = err invalid_token
only_match (row ∷ []) = ok row
only_match (_ ∷ _ ∷ _) = err invalid_token

unfoldable pub authenticate_in :
    (String → String)
    → Faults
    → Instant
    → String
    → String
    → Db
    → Result StoreError (TokenRecord × Db)
authenticate_in sha256 fails now raw scope db = do
  reject (not (valid_scope scope) || ltb (len raw) 16 || ltb 256 (len raw)) invalid_token
  rows ← exec fails 0 (ok (keep (matches (sha256 raw) scope) db.tokens))
  row ← only_match rows
  tokens ← exec fails 1 (ok (use_rows row.id (unix_nano now) db.tokens))
  ok (used_record row now, record db { tokens = tokens })

unfoldable pub authenticate_token :
    (String → String) → Faults → Instant → String → String → Db → Result StoreError TokenRecord × Db
authenticate_token sha256 fails now raw scope db =
    settle db (authenticate_in sha256 fails now raw scope db)
