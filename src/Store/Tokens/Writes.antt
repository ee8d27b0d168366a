-- ===== src/Store/Tokens/Writes.antt =====
-- `AuthenticateToken` of internal/store/store.go writes to the table of tokens only.
use codex_claude_monitor.Prelude.{String, ◌≡◌, refl, not, ◌||◌, ltb, keep}
use Prim.Native.String.{len}
use codex_claude_monitor.Prelude.Result.{Result, ok, err, ◌>>=◌, reject}
use codex_claude_monitor.Clock.{Instant, unix_nano}
use codex_claude_monitor.Store.Db.{Db, StoreError, invalid_token, Faults, exec}
use codex_claude_monitor.Store.Tokens.{
  settle, valid_scope, matches, only_match, use_rows, authenticate_in, authenticate_token,
}

-- The tables but that of the tokens are the same.
abbrev pub SameTables : Db → Db → Type 0
SameTables before after =
    (after.agents ≡ before.agents)
    × (after.provider_reports ≡ before.provider_reports)
    × (after.active_tasks ≡ before.active_tasks)

module _ {A : Type 0} (db : Db) where
  abbrev Keeps : Result StoreError (A × Db) → Type 0
  Keeps (err e) = Unit
  Keeps (ok (a, db')) = SameTables db db'

  bind-Keeps :
      {B : Type 0} (m : Result StoreError B) (f : B → Result StoreError (A × Db))
      → ((b : B) → Keeps (f b))
      → Keeps (m >>= f)
  bind-Keeps (err e) f h = tt
  bind-Keeps (ok b) f h = h b

  settle-SameTables :
      (out : Result StoreError (A × Db)) → Keeps out → SameTables db (settle db out).1
  settle-SameTables (err e) h = (refl, refl, refl)
  settle-SameTables (ok (a, db')) h = h

-- A check of a token, whatever comes of it, changes no other table.
pub authenticate_token-SameTables :
    (sha256 : String → String) (fails : Faults) (now : Instant) (raw scope : String) (db : Db)
    → SameTables db (authenticate_token sha256 fails now raw scope db).1
unfolding authenticate_token authenticate_in
authenticate_token-SameTables sha256 fails now raw scope db = settle-SameTables db _ (
    bind-Keeps db
      (reject (not (valid_scope scope) || ltb (len raw) 16 || ltb 256 (len raw)) invalid_token) _
      λ _. bind-Keeps db (exec fails 0 (ok (keep (matches (sha256 raw) scope) db.tokens))) _ λ rows.
        bind-Keeps db (only_match rows) _ λ row.
          bind-Keeps db (exec fails 1 (ok (use_rows row.id (unix_nano now) db.tokens))) _
            λ tokens. (refl, refl, refl))
