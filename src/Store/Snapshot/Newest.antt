-- ===== src/Store/Snapshot/Newest.antt =====
-- What a display snapshot shows of a provider, field by field (`loadLatestProvider` of
-- internal/store/store.go).
use codex_claude_monitor.Prelude.{
  ◌+◌, ◌*◌, ◌^◌, ◌<◌, ◌≤◌, String, ◌≡◌, ◌≢◌, ◌⊎◌, ◌↔◌, refl, sym, subst, inl, inr, true, ◌&&◌, ◌||◌,
  Option, none, some, is_none, List, [], ◌∷◌, arith, ltb, ◌==◌, eq_iff, All, keep, Bool-cases,
  if◌then◌else◌,
}
use codex_claude_monitor.Prelude.Result.{ok}
use codex_claude_monitor.Clock.{Instant, second, of_unix_nano, sub}
use codex_claude_monitor.Model.{
  Freshness, fresh, stale, unavailable, LimitWindow, ProviderSnapshot, ProviderWindows,
}
use codex_claude_monitor.Store.Db.{ProviderRow, Db}
use codex_claude_monitor.Store.Snapshot.{
  Decode, first_row, is_observed, candidate, load_latest_provider, provider_fresh_window,
}
use codex_claude_monitor.Store.Snapshot.Latest.{
  HasRow, HasRow-keep, first_row-le, load_latest_provider-HasRow,
}

-- Without a window the sample is unavailable; else it is stale once it is more than 5 minutes old.
abbrev pub HasFreshness : ProviderWindows → Instant → Instant → Freshness → Type 0
HasFreshness windows now t fresh =
    ((windows.five_hour ≢ none) ⊎ (windows.seven_day ≢ none)) × (now ≤ t + 300 * second)
HasFreshness windows now t stale =
    ((windows.five_hour ≢ none) ⊎ (windows.seven_day ≢ none)) × (t + 300 * second < now)
HasFreshness windows now t unavailable = (windows.five_hour ≡ none) × (windows.seven_day ≡ none)

-- The snapshot shows the row, with the windows that its text decodes to.
pub record Shows (decode : Decode) (now : Instant) (row : ProviderRow) (s : ProviderSnapshot)
    : Type 0 where
  pub decoded : decode row.windows_json ≡ some s.windows
  pub observed : s.observed_at ≡ some (of_unix_nano row.observed_at)
  pub plan : s.plan ≡ row.plan
  pub source : s.source ≡ row.source
  pub login :
      (s.login_required ≡ true)
      ↔ ((row.auth_state ≡ "unauthenticated") ⊎ (row.error_code ≡ "not_authenticated"))
  pub freshness : HasFreshness s.windows now (of_unix_nano row.observed_at) s.freshness

login_iff :
    (auth code : String)
    → ((auth == "unauthenticated" || code == "not_authenticated") ≡ true)
      ↔ ((auth ≡ "unauthenticated") ⊎ (code ≡ "not_authenticated"))
login_iff auth code = (
  λ h. elim (Bool-cases (auth == "unauthenticated")) [
    | inl out ↦ inl ((eq_iff auth "unauthenticated").0 out)
    | inr other ↦ inr ((eq_iff code "not_authenticated").0 (rw other at h))
  ],
  λ h. elim h [
    | inl e ↦ rw ((eq_iff auth "unauthenticated").1 e) refl
    | inr e ↦ ground (arith, (eq_iff code "not_authenticated").1 e)
  ],
)

aged :
    (windows : ProviderWindows) (now t : Instant)
    → ((windows.five_hour ≢ none) ⊎ (windows.seven_day ≢ none))
    → HasFreshness windows now t (if ltb provider_fresh_window (sub now t) then stale else fresh)
aged windows now t there = elim (Bool-cases (ltb provider_fresh_window (sub now t))) [
  | inl old ↦ rw old (there, ground arith)
  | inr young ↦ rw young (there, ground arith)
]

graded :
    (five seven : Option LimitWindow) (windows : ProviderWindows) (now t : Instant)
    → windows.five_hour ≡ five
    → windows.seven_day ≡ seven
    → HasFreshness windows now t (
        if is_none five && is_none seven
        then unavailable
        else if ltb provider_fresh_window (sub now t)
        then stale
        else fresh)
graded none none windows now t no_5 no_7 = (no_5, no_7)
graded none (some w) windows now t no_5 e = aged windows now t (inr (λ n. ground (arith, e, n)))
graded (some w) seven windows now t e rest = aged windows now t (inl (λ n. ground (arith, e, n)))

candidate-HasFreshness :
    (now : Instant) (row : ProviderRow) (windows : ProviderWindows)
    → HasFreshness windows now (of_unix_nano row.observed_at) (candidate now row windows).freshness
candidate-HasFreshness now row windows =
    graded windows.five_hour windows.seven_day windows now (of_unix_nano row.observed_at) refl refl

row_of :
    (P : ProviderRow → Type 0) (rows : List ProviderRow)
    → ((row : ProviderRow) → HasRow row rows → P row)
    → All P rows
row_of P [] h = tt
row_of P (row ∷ rows) h = (h row (inl refl), row_of P rows (λ r there. h r (inr there)))

candidate-Shows :
    (decode : Decode) (now : Instant) (row : ProviderRow) (windows : ProviderWindows)
    → decode row.windows_json ≡ some windows
    → Shows decode now row (candidate now row windows)
candidate-Shows decode now row windows decoded = record {
  decoded = decoded;
  observed = refl;
  plan = refl;
  source = refl;
  login = login_iff row.auth_state row.error_code;
  freshness = candidate-HasFreshness now row windows;
}

-- The best of the observed rows is no older than any row of the provider.
no_newer :
    (provider : String) (rows : List ProviderRow) (best : ProviderRow)
    → first_row (keep (is_observed provider) rows) ≡ some best
    → 2 ^ 63 < best.observed_at
    → All (λ other. (other.provider ≢ provider) ⊎ (other.observed_at ≤ best.observed_at)) rows
no_newer provider rows best found late = row_of _ rows λ other there.
    elim (Bool-cases (other.provider == provider)) [
      | inr different ↦ inl λ e. ground (arith, different, eq_iff other.provider provider, e)
      | inl same ↦ elim (Bool-cases (ltb (2 ^ 63) other.observed_at)) [
        | inr early ↦ inr (ground (arith, early))
        | inl observed ↦
            let passes : is_observed provider other ≡ true = ground (arith, same, observed) in
            let (best', found', le) =
              first_row-le (keep (is_observed provider) rows) other
                (HasRow-keep (is_observed provider) other rows passes there) in
            inr (ground (arith, found, found', le))
      ]
    ]

-- If a sample of a provider is shown, then it is a stored one of the provider with a time of
-- observation after 1970, and none of the provider has a later one: the windows are what its text
-- decodes to, the plan, the source and the time are the stored ones, a login is required just if the
-- state or the error says so, and the freshness follows from its age and its windows.
pub load_latest_provider-Shows :
    (decode : Decode) (provider : String) (now : Instant) (db : Db) (s : ProviderSnapshot)
    → load_latest_provider decode provider now db ≡ ok (some s)
    → (row : ProviderRow) × HasRow row db.provider_reports
      × (row.provider ≡ provider)
      × (2 ^ 63 < row.observed_at)
      × All
          (λ other. (other.provider ≢ provider) ⊎ (other.observed_at ≤ row.observed_at))
          db.provider_reports
      × Shows decode now row s
load_latest_provider-Shows decode provider now db s h =
    let (row, windows, there, passes, decoded, found, same) =
      load_latest_provider-HasRow decode provider now db s h in
    let late : 2 ^ 63 < row.observed_at = ground (arith, passes) in
    (
      row,
      there,
      ground (arith, passes, eq_iff row.provider provider),
      late,
      no_newer provider db.provider_reports row found late,
      subst (Shows decode now row) (sym same) (candidate-Shows decode now row windows decoded),
    )
