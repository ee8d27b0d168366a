-- ===== src/Collector/Claude/Reset/Horizon.antt =====
-- Which reset times are read from the text of `/usage` (internal/collector/claude.go).
use codex_claude_monitor.Prelude.{
  ◌+◌, ◌≤◌, ◌≡◌, String, true, Option, none, some, List, [], ◌∷◌, arith, inl, inr, Bool-cases,
}
use codex_claude_monitor.Prelude.Text.{trim_space}
use codex_claude_monitor.Prelude.Chain.{◌>>=◌}
use codex_claude_monitor.Clock.{Instant}
use codex_claude_monitor.Collector.Claude.Reset.{
  Library, Civil, Year, valid_reset_horizon, past_tolerance, max_horizon, within, first_plausible,
  parse_absolute_reset, reset_phrase_pattern, parse_usage_reset, build_absolute_reset, matched_date,
  stamped, relative_or, reset_value, zone_of, candidate_years, reset_phrase, written_date,
  timestamp_pattern, absolute_reset_pattern, parse_relative_reset, plausible_or,
}

-- From one day before the observation to eight days after it.
abbrev pub InHorizon : Instant → Instant → Type 0
InHorizon observed_at t = (observed_at ≤ t + past_tolerance) × (t ≤ observed_at + max_horizon)

-- Every result lies within the horizon.
abbrev OnlyInHorizon : Instant → Option Instant → Type 0
OnlyInHorizon observed_at none = Unit
OnlyInHorizon observed_at (some t) = InHorizon observed_at t

valid_reset_horizon-InHorizon :
    (t observed_at : Instant) → valid_reset_horizon t observed_at ≡ true → InHorizon observed_at t
unfolding valid_reset_horizon
valid_reset_horizon-InHorizon t observed_at h = ground arith

within-OnlyInHorizon : (observed_at t : Instant) → OnlyInHorizon observed_at (within observed_at t)
within-OnlyInHorizon observed_at t = elim (Bool-cases (valid_reset_horizon t observed_at)) [
  | inl valid ↦ rw valid (valid_reset_horizon-InHorizon t observed_at valid)
  | inr refused ↦ rw refused tt
]

OnlyInHorizon-bind :
    {A : Type 0} (observed_at : Instant) (m : Option A) (f : A → Option Instant)
    → ((a : A) → OnlyInHorizon observed_at (f a))
    → OnlyInHorizon observed_at (m >>= f)
OnlyInHorizon-bind observed_at none f h = tt
OnlyInHorizon-bind observed_at (some a) f h = h a

OnlyInHorizon-InHorizon :
    (observed_at t : Instant) (o : Option Instant)
    → OnlyInHorizon observed_at o
    → o ≡ some t
    → InHorizon observed_at t
OnlyInHorizon-InHorizon observed_at t o h e = rw e at h

module _ (lib : Library) where
  plausible_or-OnlyInHorizon :
      (found rest : Option Instant) (observed_at : Instant)
      → OnlyInHorizon observed_at rest
      → OnlyInHorizon observed_at (plausible_or lib found rest observed_at)
  plausible_or-OnlyInHorizon none rest observed_at h = h
  plausible_or-OnlyInHorizon (some t) rest observed_at h =
      elim (Bool-cases (valid_reset_horizon t observed_at)) [
        | inl valid ↦ rw valid (valid_reset_horizon-InHorizon t observed_at valid)
        | inr refused ↦ rw refused h
      ]

  first_plausible-OnlyInHorizon :
      (years : List Year) (c : Civil) (zone : lib.Zone) (observed_at : Instant)
      → OnlyInHorizon observed_at (first_plausible lib years c zone observed_at)
  unfolding first_plausible
  first_plausible-OnlyInHorizon [] c zone observed_at = tt
  first_plausible-OnlyInHorizon (year ∷ years) c zone observed_at =
      plausible_or-OnlyInHorizon (build_absolute_reset lib (record c { year = year }) zone)
        (first_plausible lib years c zone observed_at) observed_at
        (first_plausible-OnlyInHorizon years c zone observed_at)

  matched_date-OnlyInHorizon :
      (groups : Option (List String)) (observed_at : Instant)
      → OnlyInHorizon observed_at (matched_date lib groups observed_at)
  unfolding matched_date
  matched_date-OnlyInHorizon (some (_ ∷ month ∷ d ∷ year ∷ hour ∷ minutes ∷ meridiem ∷ zone ∷ []))
        observed_at =
      OnlyInHorizon-bind observed_at (written_date lib month d hour minutes meridiem) _ λ c.
        OnlyInHorizon-bind observed_at (zone_of lib (trim_space zone))
          (λ location. candidate_years lib year (lib.in_zone observed_at location).year >>= λ years.
            first_plausible lib years c location observed_at)
          λ location.
            OnlyInHorizon-bind observed_at
              (candidate_years lib year (lib.in_zone observed_at location).year)
              (λ years. first_plausible lib years c location observed_at)
              λ years. first_plausible-OnlyInHorizon years c location observed_at
  matched_date-OnlyInHorizon _ observed_at = tt

  stamped-OnlyInHorizon :
      (stamp : String) (observed_at : Instant)
      → OnlyInHorizon observed_at (stamped lib stamp observed_at)
  stamped-OnlyInHorizon stamp observed_at =
      OnlyInHorizon-bind observed_at (lib.parse_rfc3339 stamp) _ (within-OnlyInHorizon observed_at)

  relative_or-OnlyInHorizon :
      (relative absolute : Option Instant) (observed_at : Instant)
      → OnlyInHorizon observed_at absolute
      → OnlyInHorizon observed_at (relative_or lib relative absolute observed_at)
  relative_or-OnlyInHorizon (some t) absolute observed_at h = within-OnlyInHorizon observed_at t
  relative_or-OnlyInHorizon none absolute observed_at h = h

  unstamped-OnlyInHorizon :
      (value : String) (observed_at : Instant)
      → OnlyInHorizon observed_at (reset_value lib none value observed_at)
  unfolding parse_absolute_reset reset_value
  unstamped-OnlyInHorizon value observed_at =
      relative_or-OnlyInHorizon (parse_relative_reset lib value observed_at) _ observed_at (
        matched_date-OnlyInHorizon (lib.find absolute_reset_pattern (trim_space value)) observed_at)

  reset_value-OnlyInHorizon :
      (groups : Option (List String)) (value : String) (observed_at : Instant)
      → OnlyInHorizon observed_at (reset_value lib groups value observed_at)
  unfolding reset_value
  reset_value-OnlyInHorizon (some (stamp ∷ rest)) value observed_at =
      stamped-OnlyInHorizon stamp observed_at
  reset_value-OnlyInHorizon (some []) value observed_at = unstamped-OnlyInHorizon value observed_at
  reset_value-OnlyInHorizon none value observed_at = unstamped-OnlyInHorizon value observed_at

  reset_phrase-OnlyInHorizon :
      (groups : Option (List String)) (observed_at : Instant)
      → OnlyInHorizon observed_at (reset_phrase lib groups observed_at)
  reset_phrase-OnlyInHorizon none observed_at = tt
  reset_phrase-OnlyInHorizon (some []) observed_at = tt
  reset_phrase-OnlyInHorizon (some (a ∷ [])) observed_at = tt
  reset_phrase-OnlyInHorizon (some (a ∷ text ∷ [])) observed_at =
      let value = trim_space text in
      reset_value-OnlyInHorizon (lib.find timestamp_pattern value) value observed_at
  reset_phrase-OnlyInHorizon (some (a ∷ b ∷ c ∷ rest)) observed_at = tt

  -- A reset time that is read from a line lies between one day before the observation and eight
  -- days after it, in whichever of the three forms it is written.
  pub parse_usage_reset-InHorizon :
      (line : String) (observed_at t : Instant)
      → parse_usage_reset lib line observed_at ≡ some t
      → InHorizon observed_at t
  unfolding parse_usage_reset
  parse_usage_reset-InHorizon line observed_at t h =
      OnlyInHorizon-InHorizon observed_at t _
        (reset_phrase-OnlyInHorizon (lib.find reset_phrase_pattern (trim_space line)) observed_at) h
