-- ===== src/Store/Tokens/Access.antt =====
-- Who gets in (`AuthenticateToken` of internal/store/store.go) after tokens were created and
-- revoked.
use Prim.Native.String.{len}
use Prim.Native.String
use codex_claude_monitor.Prelude.Text.{trim_space}
use codex_claude_monitor.Prelude.{
  ◌≤◌, String, ◌≡◌, ◌≢◌, refl, sym, ap, subst, ◌∙◌, inl, inr, true, false, not, ◌||◌, Option, none,
  some, List, [], ◌∷◌, ◌++◌, keep, Member, keep-Member, arith, ◌==◌, eq_iff, if◌then◌else◌, ltb,
  Bool-cases,
}
use codex_claude_monitor.Prelude.Result.{bind-ok, Result, ok, err, reject}
use codex_claude_monitor.Clock.{Instant, UnixNano, unix_nano, of_unix_nano}
use codex_claude_monitor.Store.Calls.{exec-ok, exec-then}
use codex_claude_monitor.Store.Db.{
  TokenRow, Db, StoreError, invalid_token, invalid_scope, exists, Faults, exec,
}
use codex_claude_monitor.Store.Tokens.{
  CreateTokenRequest, TokenRecord, CreatedToken, same_token, insert_token_row, revocable,
  revoke_rows, revoke_token, matches, used_record, only_match, settle, authenticate_in,
  authenticate_token, create_token, create_in, valid_scope, check_request, random_text, token_row,
  created_token,
}

settle-ok :
    {A : Type 0} (db : Db) (out : Result StoreError (A × Db)) (a : A)
    → (settle db out).0 ≡ ok a
    → (db' : Db) × (out ≡ ok (a, db')) × ((settle db out).1 ≡ db')
settle-ok db (ok (b, db')) a h = (db', ground arith, refl)
settle-ok db (err e) a h = cc

only_match-Member :
    (rows : List TokenRow) (row : TokenRow) → only_match rows ≡ ok row → Member row rows
only_match-Member [] row h = cc
only_match-Member (x ∷ []) row h = inl (ground arith)
only_match-Member (x ∷ y ∷ rows) row h = cc

authenticate_in-ok :
    (sha256 : String → String) (fails : Faults) (now : Instant) (raw scope : String) (db db' : Db)
    (r : TokenRecord)
    → authenticate_in sha256 fails now raw scope db ≡ ok (r, db')
    → (row : TokenRow) × (only_match (keep (matches (sha256 raw) scope) db.tokens) ≡ ok row)
      × (r ≡ used_record row now)
unfolding authenticate_in
authenticate_in-ok sha256 fails now raw scope db db' r h =
    let (_, _, h0) =
      bind-ok
        (reject (not (valid_scope scope) || ltb (len raw) 16 || ltb 256 (len raw)) invalid_token) _
        (r, db') h in
    let (row, found, h1) = bind-ok _ _ (r, db') (exec-then fails 0 _ _ (r, db') h0) in
    (row, found, ground (arith, exec-then fails 1 _ _ (r, db') h1))

-- A token is accepted only by a row of the table that has its digest, has the scope and is not
-- revoked, and the record that is returned is the one of that row.
pub authenticate_token-Member :
    (sha256 : String → String) (fails : Faults) (now : Instant) (raw scope : String) (db : Db)
    (r : TokenRecord)
    → (authenticate_token sha256 fails now raw scope db).0 ≡ ok r
    → (row : TokenRow) × Member row db.tokens
      × (row.digest ≡ sha256 raw)
      × (row.scope ≡ scope)
      × (row.revoked_at ≡ none)
      × (r ≡ used_record row now)
unfolding authenticate_token
authenticate_token-Member sha256 fails now raw scope db r h =
    let (db', done, _) = settle-ok db (authenticate_in sha256 fails now raw scope db) r h in
    let (row, found, same) = authenticate_in-ok sha256 fails now raw scope db db' r done in
    let (passes, there) =
      keep-Member (matches (sha256 raw) scope) row db.tokens (only_match-Member _ row found) in
    (
      row,
      there,
      ground (arith, passes, eq_iff row.digest (sha256 raw)),
      ground (arith, passes, eq_iff row.scope scope),
      ground (arith, passes),
      same,
    )

-- No row of the ID is active after it is revoked.
revoke_rows-Member :
    (id : String) (t : UnixNano) (rows : List TokenRow) (row : TokenRow)
    → Member row (revoke_rows id t rows)
    → row.revoked_at ≡ none
    → row.id ≢ id
revoke_rows-Member id t [] row h active same = h
revoke_rows-Member id t (x ∷ xs) row (inr h) active same =
    revoke_rows-Member id t xs row h active same
revoke_rows-Member id t (x ∷ xs) row (inl e) active same = elim (Bool-cases (revocable id x)) [
  | inl hit ↦ ground (arith, rw hit at e)
  | inr miss ↦
      let unchanged : row ≡ x = rw miss at e in
      ground (
        arith,
        ap (λ (y : TokenRow). y.id) unchanged,
        ap (λ (y : TokenRow). y.revoked_at) unchanged,
        eq_iff x.id id,
      )
]

revoke_token-ok :
    (fails : Faults) (t : Instant) (id : String) (db : Db)
    → (revoke_token fails t id db).0 ≡ ok tt
    → (revoke_token fails t id db).1.tokens ≡ revoke_rows id (unix_nano t) db.tokens
unfolding revoke_token
revoke_token-ok fails t id db revoked = ground arith

-- Once a token is revoked, it is never accepted again in the database that is left, whatever text
-- is presented.
pub revoke_token-authenticate_token :
    (sha256 : String → String) (fails later : Faults) (t now : Instant) (id raw scope : String)
    (db : Db) (r : TokenRecord)
    → (revoke_token fails t id db).0 ≡ ok tt
    → (authenticate_token sha256 later now raw scope (revoke_token fails t id db).1).0 ≡ ok r
    → r.id ≢ id
unfolding revoke_token
revoke_token-authenticate_token sha256 fails later t now id raw scope db r revoked accepted same =
    let (row, there, _, _, active, record_of) =
      authenticate_token-Member sha256 later now raw scope (revoke_token fails t id db).1 r
        accepted in
    revoke_rows-Member id (unix_nano t) db.tokens row
      (subst (Member row) (revoke_token-ok fails t id db revoked) there) active
      (sym (ap (λ (x : TokenRecord). x.id) record_of) ∙ same)

-- The row that CreateToken adds.
record Created (sha256 : String → String) (at : Instant) (db db' : Db) (c : CreatedToken)
    : Type 0 where
  pub row : TokenRow
  pub shown :
      (now : Instant)
      → used_record row now ≡ record c.token_record {
        created_at = of_unix_nano (unix_nano at);
        last_used_at = some now;
      }
  pub digest : row.digest ≡ sha256 c.raw_token
  pub scope : row.scope ≡ c.token_record.scope
  pub active : row.revoked_at ≡ none
  pub known : valid_scope c.token_record.scope ≡ true
  pub free : exists (same_token row) db.tokens ≡ false
  pub added : db' ≡ record db { tokens = db.tokens ++ row ∷ [] }

insert_token_row-ok :
    (row : TokenRow) (db db' : Db)
    → insert_token_row row db ≡ ok db'
    → (exists (same_token row) db.tokens ≡ false)
      × (db' ≡ record db { tokens = db.tokens ++ row ∷ [] })
unfolding insert_token_row
insert_token_row-ok row db db' h = ground arith

shown_agent :
    (a : String)
    → elim (if a == "" then none else some a) as (λ _. String) [ none ↦ "" | some b ↦ b ] ≡ a
shown_agent a = elim (Bool-cases (a == "")) [
  | inl blank ↦ rw blank (sym ((eq_iff a "").0 blank))
  | inr given ↦ rw given refl
]

create_in-Created :
    (sha256 : String → String) (fails : Faults) (secret part : Option String) (at : Instant)
    (req : CreateTokenRequest) (db db' : Db) (c : CreatedToken)
    → create_in sha256 fails secret part at req db ≡ ok (c, db')
    → Created sha256 at db db' c
unfolding create_in
create_in-Created sha256 fails secret part at req db db' c h =
    let trimmed : CreateTokenRequest = record req { agent_id = trim_space req.agent_id } in
    let (_, valid, h0) =
      bind-ok (reject (not (valid_scope req.scope)) invalid_scope) _ (c, db') h in
    let (_, _, h1) = bind-ok (check_request trimmed) _ (c, db') h0 in
    let (s, _, h2) = bind-ok (random_text secret) _ (c, db') h1 in
    let (p, _, h3) = bind-ok (random_text part) _ (c, db') h2 in
    let row = token_row sha256 trimmed (String.◌++◌ "qmon_" s) (String.◌++◌ "tok_" p) at in
    let (filled, put, h4) = bind-ok (exec fails 0 (insert_token_row row db)) _ (c, db') h3 in
    let (free, added) = insert_token_row-ok row db filled (exec-ok fails 0 _ filled put) in
    let made = created_token trimmed (String.◌++◌ "qmon_" s) (String.◌++◌ "tok_" p) at in
    let same : made ≡ c = ground (arith, h4) in
    let left : filled ≡ db' = ground (arith, h4) in
    subst (Created sha256 at db db') same (record {
      row = row;
      shown = λ now.
          ap (λ a. record (used_record row now) { agent_id = a }) (shown_agent trimmed.agent_id);
      digest = refl;
      scope = refl;
      active = refl;
      known = ground (arith, valid);
      free = free;
      added = sym left ∙ added;
    })

only_new :
    (row : TokenRow) (rows : List TokenRow) (scope : String)
    → row.scope ≡ scope
    → row.revoked_at ≡ none
    → exists (same_token row) rows ≡ false
    → keep (matches row.digest scope) (rows ++ row ∷ []) ≡ row ∷ []
only_new row [] scope s a free =
    ground (arith, eq_iff row.scope scope, eq_iff row.digest row.digest)
only_new row (x ∷ xs) scope s a free = ground (arith, only_new row xs scope s a)

authenticate_in-eq :
    (sha256 : String → String) (now : Instant) (raw scope : String) (db : Db) (row : TokenRow)
    → valid_scope scope ≡ true
    → 16 ≤ len raw
    → len raw ≤ 256
    → keep (matches (sha256 raw) scope) db.tokens ≡ row ∷ []
    → (settle db (authenticate_in sha256 (λ _. false) now raw scope db)).0
      ≡ ok (used_record row now)
unfolding authenticate_in
authenticate_in-eq sha256 now raw scope db row known long short only = rw (allowed, only) refl
  where
    allowed : (not (valid_scope scope) || ltb (len raw) 16 || ltb 256 (len raw)) ≡ false
    allowed = ground (arith, known)

-- A token that was created, with a text of 16 to 256 bytes, is accepted in the database that is
-- left, for its scope, if no database call fails then: the answer is its record, bound to its agent,
-- with the time of use and with the time of creation as the int64 nanoseconds keep it.
pub create_token-authenticate_token :
    (sha256 : String → String) (fails : Faults) (secret part : Option String) (at now : Instant)
    (req : CreateTokenRequest) (db : Db) (c : CreatedToken)
    → (create_token sha256 fails secret part at req db).0 ≡ ok c
    → 16 ≤ len c.raw_token
    → len c.raw_token ≤ 256
    → (authenticate_token sha256
        (λ _. false)
        now
        c.raw_token
        c.token_record.scope
        (create_token sha256 fails secret part at req db).1).0
      ≡ ok (record c.token_record {
        created_at = of_unix_nano (unix_nano at);
        last_used_at = some now;
      })
unfolding create_token authenticate_token
create_token-authenticate_token sha256 fails secret part at now req db c h long short =
    let (db', done, left) = settle-ok db (create_in sha256 fails secret part at req db) c h in
    let made = create_in-Created sha256 fails secret part at req db db' c done in
    let only : keep (matches (sha256 c.raw_token) c.token_record.scope)
          (create_token sha256 fails secret part at req db).1.tokens
        ≡ made.row ∷ [] =
      rw (left, made.added, sym made.digest)
        (only_new made.row db.tokens c.token_record.scope made.scope made.active made.free) in
    authenticate_in-eq sha256 now c.raw_token c.token_record.scope
      (create_token sha256 fails secret part at req db).1 made.row made.known long short only
    ∙ ap ok (made.shown now)
