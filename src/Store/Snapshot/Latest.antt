-- ===== src/Store/Snapshot/Latest.antt =====
-- The provider sample that a display snapshot shows (`loadLatestProvider` of
-- internal/store/store.go).
use codex_claude_monitor.Prelude.{
  ◌≤◌, String, ◌≡◌, ◌⊎◌, refl, sym, subst, ◌∙◌, inl, inr, Bool, true, some, List, [], ◌∷◌, arith,
  keep, All, Bool-cases, Option-cases,
}
use codex_claude_monitor.Prelude.Result.{ok}
use codex_claude_monitor.Clock.{Instant, of_unix_nano}
use codex_claude_monitor.Model.{ProviderSnapshot, ProviderWindows}
use codex_claude_monitor.Store.Db.{ProviderRow, Db}
use codex_claude_monitor.Store.Snapshot.{
  Decode, precedes, first_row, is_observed, candidate, load_latest_provider,
}

-- The row is in the table.
abbrev pub HasRow : ProviderRow → List ProviderRow → Type 0
HasRow row [] = ⊥
HasRow row (x ∷ xs) = (row ≡ x) ⊎ HasRow row xs

All-HasRow :
    (P : ProviderRow → Type 0) (row : ProviderRow) (rows : List ProviderRow)
    → All P rows
    → HasRow row rows
    → P row
All-HasRow P row [] a h = absurd h
All-HasRow P row (x ∷ xs) a (inl e) = subst P (sym e) a.0
All-HasRow P row (x ∷ xs) a (inr h) = All-HasRow P row xs a.1 h

pub HasRow-keep :
    (p : ProviderRow → Bool) (row : ProviderRow) (rows : List ProviderRow)
    → p row ≡ true
    → HasRow row rows
    → HasRow row (keep p rows)
HasRow-keep p row [] passes h = h
HasRow-keep p row (x ∷ xs) passes (inl e) = rw (subst (λ r. p r ≡ true) e passes) (inl e)
HasRow-keep p row (x ∷ xs) passes (inr h) = elim (Bool-cases (p x)) [
  | inl kept ↦ rw (kept, keep) (inr (HasRow-keep p row xs passes h))
  | inr dropped ↦ rw (dropped, keep) (HasRow-keep p row xs passes h)
]

keep-HasRow :
    (p : ProviderRow → Bool) (row : ProviderRow) (rows : List ProviderRow)
    → HasRow row (keep p rows)
    → (p row ≡ true) × HasRow row rows
keep-HasRow p row [] h = absurd h
keep-HasRow p row (x ∷ xs) h = elim (Bool-cases (p x)) [
  | inl kept ↦ elim (rw (kept, keep) at h) [
    | inl e ↦ (subst (λ r. p r ≡ true) (sym e) kept, inl e)
    | inr later ↦ let (passes, there) = keep-HasRow p row xs later in (passes, inr there)
  ]
  | inr dropped ↦
      let (passes, there) = keep-HasRow p row xs (rw (dropped, keep) at h) in (passes, inr there)
]

-- The first row is one of the rows, and none is newer.
first_row-HasRow :
    (rows : List ProviderRow) (best : ProviderRow) → first_row rows ≡ some best → HasRow best rows
unfolding first_row
first_row-HasRow [] best h = cc
first_row-HasRow (x ∷ xs) best h = elim (Option-cases (first_row xs)) [
  | inl last ↦ inl (ground (arith, last, rw (last, first_row) at h))
  | inr (other, later) ↦ elim (Bool-cases (precedes other x)) [
    | inl yields ↦ inr (first_row-HasRow xs best (later ∙ (rw (later, yields, first_row) at h)))
    | inr wins ↦ inl (ground (arith, rw (later, wins, first_row) at h))
  ]
]

pub first_row-le :
    (rows : List ProviderRow) (row : ProviderRow)
    → HasRow row rows
    → (best : ProviderRow) × (first_row rows ≡ some best) × (row.observed_at ≤ best.observed_at)
unfolding first_row
first_row-le [] row h = absurd h
first_row-le (x ∷ xs) row h = elim (Option-cases (first_row xs)) [
  | inl last ↦ elim h [
    | inl e ↦ (x, rw last refl, ground (arith, e))
    | inr there ↦
        let (best, found, _) = first_row-le xs row there in absurd (ground (arith, last, found))
  ]
  | inr (other, later) ↦ elim (Bool-cases (precedes other x)) [
    | inl wins ↦ (
      other,
      rw (later, wins) refl,
      elim h [
        | inl e ↦ ground (arith, e)
        | inr there ↦
            let (best, found, le) = first_row-le xs row there in ground (arith, found, later, le)
      ],
    )
    | inr yields ↦ (
      x,
      rw (later, yields) refl,
      elim h [
        | inl e ↦ ground (arith, e)
        | inr there ↦
            let (best, found, le) = first_row-le xs row there in ground (arith, found, later, le)
      ],
    )
  ]
]

-- A sample that is shown is a stored one of the provider that has been observed, with its windows
-- decoded.
pub load_latest_provider-HasRow :
    (decode : Decode) (provider : String) (now : Instant) (db : Db) (s : ProviderSnapshot)
    → load_latest_provider decode provider now db ≡ ok (some s)
    → (row : ProviderRow) × (windows : ProviderWindows) × HasRow row db.provider_reports
      × (is_observed provider row ≡ true)
      × (decode row.windows_json ≡ some windows)
      × (first_row (keep (is_observed provider) db.provider_reports) ≡ some row)
      × (s ≡ candidate now row windows)
unfolding load_latest_provider
load_latest_provider-HasRow decode provider now db s h =
    let rows = keep (is_observed provider) db.provider_reports in
    elim (Option-cases (first_row rows)) [
      | inl nothing ↦ absurd (ground (arith, rw (nothing, load_latest_provider) at h))
      | inr (row, found) ↦
          let (passes, there) =
            keep-HasRow (is_observed provider) row db.provider_reports
              (first_row-HasRow rows row found) in
          elim (Option-cases (decode row.windows_json)) [
            | inl garbled ↦ absurd (ground (arith, rw (found, garbled, load_latest_provider) at h))
            | inr (windows, decoded) ↦ (
              row,
              windows,
              there,
              passes,
              decoded,
              found,
              ground (arith, rw (found, decoded, load_latest_provider) at h),
            )
          ]
    ]

load_latest_provider-eq :
    (decode : Decode) (provider : String) (now : Instant) (db : Db) (best : ProviderRow)
    (windows : ProviderWindows)
    → first_row (keep (is_observed provider) db.provider_reports) ≡ some best
    → decode best.windows_json ≡ some windows
    → load_latest_provider decode provider now db ≡ ok (some (candidate now best windows))
unfolding load_latest_provider
load_latest_provider-eq decode provider now db best windows found decoded =
    rw (found, load_latest_provider, decoded) refl

-- If there is an observed sample of the provider and every stored text of windows can be decoded,
-- then a sample is shown, and it was observed no earlier.
pub load_latest_provider-le :
    (decode : Decode) (provider : String) (now : Instant) (db : Db) (row : ProviderRow)
    → All
        (λ r. (windows : ProviderWindows) × (decode r.windows_json ≡ some windows))
        db.provider_reports
    → HasRow row db.provider_reports
    → is_observed provider row ≡ true
    → (s : ProviderSnapshot) × (t : Instant) × (load_latest_provider decode provider now db
        ≡ ok (some s))
      × (s.observed_at ≡ some t)
      × (of_unix_nano row.observed_at ≤ t)
unfolding load_latest_provider
load_latest_provider-le decode provider now db row decodes there observed =
    let rows = keep (is_observed provider) db.provider_reports in
    let (best, found, le) =
      first_row-le rows row
        (HasRow-keep (is_observed provider) row db.provider_reports observed there) in
    let (windows, decoded) =
      All-HasRow _ best db.provider_reports decodes
        (keep-HasRow (is_observed provider) best db.provider_reports
          (first_row-HasRow rows best found)).1 in
    (
      candidate now best windows,
      of_unix_nano best.observed_at,
      load_latest_provider-eq decode provider now db best windows found decoded,
      refl,
      omega (arith, le),
    )
