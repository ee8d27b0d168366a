-- ===== src/Store/Snapshot/Shown.antt =====
-- From a report to the display: `ReplaceAgentReport`, then `loadLatestProvider`
-- (internal/store/store.go).
use codex_claude_monitor.Prelude.{
  ◌+◌, ◌^◌, ◌≤◌, ◌<◌, String, ◌≡◌, refl, sym, ap, subst, ◌∙◌, inl, inr, true, some, List, [], ◌∷◌,
  ◌++◌, arith, ◌==◌, eq_iff, eq_refl, All, ltb, Bool-cases,
}
use codex_claude_monitor.Prelude.GoMap.{GoMap, lookup}
use codex_claude_monitor.Prelude.Result.{ok}
use codex_claude_monitor.Clock.{Instant, of_unix_nano, bias, unix_epoch}
use codex_claude_monitor.Model.{ProviderSnapshot, ProviderWindows, ProviderReport, AgentReport}
use codex_claude_monitor.Store.Db.{ProviderRow, Db}
use codex_claude_monitor.Store.Report.{Encode, entries, provider_row, observed_nano}
use codex_claude_monitor.Store.Report.Inserts.{provider_rows}
use codex_claude_monitor.Store.Report.Accepted.{Encodable}
use codex_claude_monitor.Store.Report.Order.{IsStorable, store, newer_in, store_newer}
use codex_claude_monitor.Store.Snapshot.{Decode, is_observed, load_latest_provider}
use codex_claude_monitor.Store.Snapshot.Latest.{HasRow, load_latest_provider-le}

HasRow-append :
    (row : ProviderRow) (xs ys : List ProviderRow) → HasRow row ys → HasRow row (xs ++ ys)
HasRow-append row [] ys h = h
HasRow-append row (x ∷ xs) ys h = inr (HasRow-append row xs ys h)

-- The sample of a provider has a row.
provider_rows-HasRow :
    (encode : Encode) (id p : String) (r : ProviderReport) (m : GoMap ProviderReport)
    → Encodable encode m
    → lookup p m ≡ some r
    → (windows : String) × HasRow (provider_row id p r windows) (provider_rows encode id m)
unfolding provider_rows lookup
provider_rows-HasRow encode id p r [] e h = cc
provider_rows-HasRow encode id p r ((q, s) ∷ m) ((windows, now), later) h =
    elim (Bool-cases (q == p)) [
      | inl hit ↦
          let same : s ≡ r = ground arith in
          let named : q ≡ p = (eq_iff q p).0 hit in
          (
            windows,
            rw (now, provider_rows)
                (inl (
                  ap (λ t. provider_row id p t windows) (sym same)
                  ∙ ap (λ k. provider_row id k s windows) (sym named))),
          )
      | inr miss ↦
          let (texts, there) = provider_rows-HasRow encode id p r m later (ground arith) in
          (texts, rw (now, provider_rows) (inr there))
    ]

-- A time after 1970 and before 2262 is stored as it is.
observed_nano-InRange :
    (t : Instant)
    → unix_epoch < t
    → t < unix_epoch + bias
    → (ltb bias (observed_nano t) ≡ true) × (of_unix_nano (observed_nano t) ≡ t)
observed_nano-InRange t low high = ground arith

provider_row-is_observed :
    (id p : String) (r : ProviderReport) (windows : String)
    → ltb bias (observed_nano r.observed_at) ≡ true
    → is_observed p (provider_row id p r windows) ≡ true
provider_row-is_observed id p r windows late = rw (late, eq_refl p) refl

-- The sample of a time 2^64 nanoseconds before such a time is stored as if it was of that time.
observed_nano_wraps :
    (t : Instant)
    → unix_epoch < t + 2 ^ 64
    → t + 2 ^ 64 < unix_epoch + bias
    → (ltb bias (observed_nano t) ≡ true) × (of_unix_nano (observed_nano t) ≡ t + 2 ^ 64)
observed_nano_wraps t low high = ground arith

-- A sample of the provider is shown that was observed at `u` or later.
abbrev pub ShownSince : Decode → String → Instant → Db → Instant → Type 0
ShownSince decode provider now db u =
    (s : ProviderSnapshot) × (t : Instant) × (load_latest_provider decode provider now db
      ≡ ok (some s))
    × (s.observed_at ≡ some t)
    × (u ≤ t)

module _ (encode : Encode) (decode : Decode) (report : AgentReport) (received_at now : Instant)
    (db : Db) (provider : String) (r : ProviderReport) (storable : IsStorable encode report)
    (newer : newer_in encode report received_at db ≡ true)
    (has : lookup provider (entries report.providers) ≡ some r)
    (decodes : All
      (λ row. (w : ProviderWindows) × (decode row.windows_json ≡ some w))
      (store encode report received_at db).provider_reports) where
  shown_since :
      (u : Instant)
      → (ltb bias (observed_nano r.observed_at) ≡ true)
        × (of_unix_nano (observed_nano r.observed_at) ≡ u)
      → ShownSince decode provider now (store encode report received_at db) u
  shown_since u (late, same) =
      let (windows, there) =
        provider_rows-HasRow encode report.agent_id provider r (entries report.providers)
          storable.encodable has in
      let row = provider_row report.agent_id provider r windows in
      let in_table : HasRow row (store encode report received_at db).provider_reports =
        rw (store_newer encode report received_at db storable newer)
          (HasRow-append row _ _ there) in
      let (s, t, loads, at, le) =
        load_latest_provider-le decode provider now (store encode report received_at db) row decodes
          in_table (provider_row-is_observed report.agent_id provider r windows late) in
      (s, t, loads, at, subst (λ v. v ≤ t) same le)

  -- A report that the server accepts and that is newer than the one stored of its agent has a
  -- sample of a provider observed after 1970 and before 2262: if every text of windows in the
  -- database can be decoded afterwards, the display then shows for that provider a sample that was
  -- observed no earlier than the one of the report.
  pub load_latest_provider-store :
      unix_epoch < r.observed_at
      → r.observed_at < unix_epoch + bias
      → ShownSince decode provider now (store encode report received_at db) r.observed_at
  load_latest_provider-store low high =
      shown_since r.observed_at (observed_nano-InRange r.observed_at low high)

  -- If such a report has a sample observed 2^64 nanoseconds, some 584 years, before a time between
  -- 1970 and 2262, the display then shows for that provider a sample observed no earlier than that
  -- later time, if every text of windows in the database can be decoded afterwards.
  pub load_latest_provider-store_wrapped :
      unix_epoch < r.observed_at + 2 ^ 64
      → r.observed_at + 2 ^ 64 < unix_epoch + bias
      → ShownSince decode provider now (store encode report received_at db) (r.observed_at + 2 ^ 64)
  load_latest_provider-store_wrapped low high =
      shown_since (r.observed_at + 2 ^ 64) (observed_nano_wraps r.observed_at low high)
