-- ===== src/Collector/Merge/Laws.antt =====
-- What a merge of two reports keeps (`MergeProviderReports` of internal/collector/claude.go).
use codex_claude_monitor.Prelude.{
  ◌<◌, ◌≤◌, ◌≡◌, ◌≢◌, ◌⊎◌, refl, inl, inr, true, Option, none, some, ◌==◌, arith, Bool-cases,
  eq_iff,
}
use codex_claude_monitor.Clock.{Instant, after, zero_time}
use codex_claude_monitor.Float
use codex_claude_monitor.Float.{f0, f100}
use codex_claude_monitor.Model.{LimitWindow, ProviderReport}
use codex_claude_monitor.Collector.Merge.{
  reset_ahead, reusable_window, fill, merge_into, merge_provider_reports,
}

-- The window resets after the time, or it has no reset time and none of it is used.
abbrev pub Reusable : LimitWindow → Instant → Type 0
Reusable w t =
    ((reset : Instant) × (w.resets_at ≡ some reset) × (reset ≢ zero_time) × (t < reset))
    ⊎ ((w.resets_at ≡ none)
        × (Float.eq w.used_percent f0 ≡ true)
        × (Float.eq w.remaining_percent f100 ≡ true))

-- A window of a merge: that of the newer report if it has one, else that of the older one if it can
-- be reused, else none.
abbrev pub Filled : Option LimitWindow → Option LimitWindow → Option LimitWindow → Instant → Type 0
Filled merged (some w) older t = merged ≡ some w
Filled merged none none t = merged ≡ none
Filled merged none (some w) t =
    (Reusable w t × (merged ≡ some w)) ⊎ (¬ Reusable w t × (merged ≡ none))

reset_ahead-Reusable :
    (o : Option Instant) (w : LimitWindow) (t : Instant)
    → w.resets_at ≡ o
    → reset_ahead o w t ≡ true
    → Reusable w t
reset_ahead-Reusable none w t e h = inr (e, ground (arith, h), ground (arith, h))
reset_ahead-Reusable (some r) w t e h = inl (r, e, (λ z. ground (arith, h, z)), ground (arith, h))

Reusable-reset_ahead :
    (w : LimitWindow) (t : Instant) → Reusable w t → reset_ahead w.resets_at w t ≡ true
Reusable-reset_ahead w t (inl (r, e, set, later)) = rw e (ground (arith, set, later))
Reusable-reset_ahead w t (inr (e, unused, whole)) = rw e (rw (unused, whole) refl)

fill-Filled :
    (newer older : Option LimitWindow) (t : Instant) → Filled (fill newer older t) newer older t
unfolding reusable_window
fill-Filled (some w) older t = refl
fill-Filled none none t = refl
fill-Filled none (some w) t = elim (Bool-cases (reset_ahead w.resets_at w t)) [
  | inl reuse ↦ rw reuse (inl (reset_ahead-Reusable w.resets_at w t refl reuse, refl))
  | inr stale ↦ rw stale (inr ((λ r. ground (arith, stale, Reusable-reset_ahead w t r)), refl))
]

-- A merge of a newer and an older report, window by window: that of a newer report of a logged-out
-- account has none.
abbrev pub IsMerge : ProviderReport → ProviderReport → ProviderReport → Type 0
IsMerge merged newer older =
    (merged.observed_at ≡ newer.observed_at)
    × (((newer.auth_state ≡ "unauthenticated")
          × (merged.windows.five_hour ≡ none)
          × (merged.windows.seven_day ≡ none))
        ⊎ ((newer.auth_state ≢ "unauthenticated")
            × Filled merged.windows.five_hour newer.windows.five_hour older.windows.five_hour
                newer.observed_at
            × Filled merged.windows.seven_day newer.windows.seven_day older.windows.seven_day
                newer.observed_at))

merge_into-IsMerge : (newer older : ProviderReport) → IsMerge (merge_into newer older) newer older
unfolding merge_into
merge_into-IsMerge newer older = elim (Bool-cases (newer.auth_state == "unauthenticated")) [
  | inl out ↦ rw out (refl, inl ((eq_iff newer.auth_state "unauthenticated").0 out, refl, refl))
  | inr other ↦ rw other (
    refl,
    inr (
      (λ e. ground (arith, other, (eq_iff newer.auth_state "unauthenticated").1 e)),
      fill-Filled newer.windows.five_hour older.windows.five_hour newer.observed_at,
      fill-Filled newer.windows.seven_day older.windows.seven_day newer.observed_at,
    ),
  )
]

-- If the first report was observed no earlier than the second, then their merge is dated as the
-- first. If the first is of a logged-out account, the merge has no window. Otherwise each window is
-- that of the first report if it has one, else that of the second if it resets after the date or has
-- no reset time and is unused, else none.
pub merge_provider_reports-IsMerge :
    (a b : ProviderReport)
    → b.observed_at ≤ a.observed_at
    → IsMerge (merge_provider_reports a b) a b
unfolding merge_provider_reports
merge_provider_reports-IsMerge a b le = elim (Bool-cases (after b.observed_at a.observed_at)) [
  | inl later ↦ absurd (ground (arith, later))
  | inr not_later ↦ rw not_later (merge_into-IsMerge a b)
]
