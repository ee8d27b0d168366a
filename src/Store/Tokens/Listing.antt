-- ===== src/Store/Tokens/Listing.antt =====
-- `ListTokens` of internal/store/store.go.
use codex_claude_monitor.Prelude.{
  Bool, ◌&&◌, ◌||◌, Option, none, some, List, [], ◌∷◌, map, ltb, nat_eq, if◌then◌else◌,
}
use codex_claude_monitor.Prelude.Text.{less}
use codex_claude_monitor.Prelude.Result.{Result, ok}
use codex_claude_monitor.Clock.{Instant, UnixNano, of_unix_nano}
use codex_claude_monitor.Store.Db.{TokenRow, Db, StoreError, Faults, exec}
use codex_claude_monitor.Store.Tokens.{TokenRecord}

-- ORDER BY created_at_ns, id
abbrev pub listed_before : TokenRow → TokenRow → Bool
listed_before a b =
    ltb a.created_at b.created_at || (nat_eq a.created_at b.created_at && less a.id b.id)

unfoldable pub insert_listed : TokenRow → List TokenRow → List TokenRow
insert_listed row [] = row ∷ []
insert_listed row (next ∷ rows) =
    let rest = insert_listed row rows in
    if listed_before next row then next ∷ rest else row ∷ next ∷ rows

unfoldable pub in_order : List TokenRow → List TokenRow
unfolding insert_listed
in_order [] = []
in_order (row ∷ rows) = insert_listed row (in_order rows)

abbrev time_of : Option UnixNano → Option Instant
time_of none = none
time_of (some n) = some (of_unix_nano n)

-- A NULL agent is listed as the empty text.
unfoldable pub listed_record : TokenRow → TokenRecord
listed_record row = record {
  id = row.id;
  scope = row.scope;
  agent_id = elim row.agent_id [ none ↦ "" | some a ↦ a ];
  label = row.label;
  created_at = of_unix_nano row.created_at;
  revoked_at = time_of row.revoked_at;
  last_used_at = time_of row.last_used_at;
}

unfoldable pub list_tokens : Faults → Db → Result StoreError (List TokenRecord)
unfolding in_order listed_record
list_tokens fails db = exec fails 0 (ok (map listed_record (in_order db.tokens)))
