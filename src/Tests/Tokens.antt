-- ===== src/Tests/Tokens.antt =====
-- The theorems on the tokens of internal/store/store.go at concrete inputs.
use codex_claude_monitor.Prelude.{
  ◌+◌, String, ◌≡◌, ◌≢◌, refl, false, none, some, [], ◌∷◌, Member, arith,
}
use codex_claude_monitor.Prelude.Text.{trim_space, every}
use codex_claude_monitor.Prelude.Result.{ok}
use codex_claude_monitor.Clock.{unix_nano, of_unix_nano, second}
use codex_claude_monitor.Server.Validate.{valid_agent_id}
use codex_claude_monitor.Store.Db.{TokenRow, Db}
use codex_claude_monitor.Store.Report.Inserts.{no_faults}
use codex_claude_monitor.Store.Tokens.{
  CreateTokenRequest, CreatedToken, create_token, create_in, check_request, insert_token_row,
  revoke_token, authenticate_token, authenticate_in, used_record, scope_agent_write, token_row,
  created_token,
}
use codex_claude_monitor.Store.Tokens.Access.{
  authenticate_token-Member, revoke_token-authenticate_token, create_token-authenticate_token,
}
use codex_claude_monitor.Tests.Reports.{now}

abbrev pub digest_of : String → String
digest_of s = s

abbrev request : CreateTokenRequest
request = record { scope = scope_agent_write; agent_id = " desk "; label = "at home" }

abbrev empty_db : Db
empty_db = record { tokens = []; agents = []; provider_reports = []; active_tasks = [] }

abbrev trimmed : CreateTokenRequest
trimmed = record request { agent_id = "desk" }

abbrev token_1 : CreatedToken
token_1 = created_token trimmed "qmon_0123456789ABCDEF" "tok_a1" now

abbrev row_1 : TokenRow
row_1 = token_row digest_of trimmed "qmon_0123456789ABCDEF" "tok_a1" now

abbrev row_2 : TokenRow
row_2 = token_row digest_of trimmed "qmon_FEDCBA9876543210" "tok_b2" now

abbrev pub two_tokens : Db
two_tokens = record empty_db { tokens = row_1 ∷ row_2 ∷ [] }

token_1_created :
    (create_token digest_of no_faults (some "0123456789ABCDEF") (some "a1") now request empty_db).0
    ≡ ok token_1
unfolding create_token create_in check_request insert_token_row trim_space valid_agent_id every
token_1_created = refl

create_token-authenticate_token_example :
    (authenticate_token digest_of
      (λ _. false)
      (now + second)
      token_1.raw_token
      token_1.token_record.scope
      (create_token digest_of no_faults
        (some "0123456789ABCDEF")
        (some "a1")
        now
        request
        empty_db).1).0
    ≡ ok (record token_1.token_record {
      created_at = of_unix_nano (unix_nano now);
      last_used_at = some (now + second);
    })
create_token-authenticate_token_example =
    create_token-authenticate_token digest_of no_faults (some "0123456789ABCDEF") (some "a1") now
      (now + second) request empty_db token_1 token_1_created (omega arith) (omega arith)

row_1_accepted :
    (authenticate_token digest_of no_faults now "qmon_0123456789ABCDEF" scope_agent_write
      two_tokens).0
    ≡ ok (used_record row_1 now)
unfolding authenticate_token authenticate_in
row_1_accepted = refl

authenticate_token-Member_example :
    (row : TokenRow) × Member row two_tokens.tokens
    × (row.digest ≡ "qmon_0123456789ABCDEF")
    × (row.scope ≡ scope_agent_write)
    × (row.revoked_at ≡ none)
    × (used_record row_1 now ≡ used_record row now)
authenticate_token-Member_example =
    authenticate_token-Member digest_of no_faults now "qmon_0123456789ABCDEF" scope_agent_write
      two_tokens (used_record row_1 now) row_1_accepted

row_2_revoked : (revoke_token no_faults now "tok_b2" two_tokens).0 ≡ ok tt
unfolding revoke_token
row_2_revoked = refl

row_1_still :
    (authenticate_token digest_of no_faults now "qmon_0123456789ABCDEF" scope_agent_write
      (revoke_token no_faults now "tok_b2" two_tokens).1).0
    ≡ ok (used_record row_1 now)
unfolding authenticate_token authenticate_in revoke_token
row_1_still = refl

revoke_token-authenticate_token_example : row_1.id ≢ row_2.id
revoke_token-authenticate_token_example =
    revoke_token-authenticate_token digest_of no_faults no_faults now now "tok_b2"
      "qmon_0123456789ABCDEF" scope_agent_write two_tokens (used_record row_1 now) row_2_revoked
      row_1_still
