-- ===== src/Collector/Codex/Order.antt =====
-- The windows that `normalizeCodex` (internal/collector/codex.go) reports do not depend on the
-- order in which Go visits the map of limits.
use codex_claude_monitor.Prelude.{
  ℕ, ◌≡◌, refl, sym, ap, subst, ◌∙◌, inl, inr, Bool, true, false, Option, none, some, All,
  Reordering, Reordering-All, nil, cons, swap, trans, arith, ltb, nat_eq, Bool-cases,
}
use codex_claude_monitor.Prelude.GoMap.{GoMap}
use codex_claude_monitor.Clock.{Instant}
use codex_claude_monitor.Float.{Float64, fin, pos, negsuc, Round, f100}
use codex_claude_monitor.Float
use codex_claude_monitor.Collector.Window.{normalize_window, clamp_used, of_unix, Int64}
use codex_claude_monitor.Collector.Codex.{
  WindowChoice, Choices, RateLimitWindow, RateLimitSnapshot, choose, prefer_codex_window,
  consider_window, consider_fields, consider_codex_snapshot, consider_by_limit_id, codex_windows,
  window_of, five_hour_minutes, seven_day_minutes,
}

module _ (round : Round) where
  -- The choice of a window with `k` units used that resets at `t`.
  abbrev made : Bool → ℕ → Instant → WindowChoice
  made canonical k t = record {
    window = record {
      used_percent = fin (pos k);
      remaining_percent = Float.sub round f100 (fin (pos k));
      resets_at = some t;
    };
    canonical = canonical;
  }

  -- No window is chosen, or one with a finite percentage that is not negative.
  abbrev IsSlot : Option WindowChoice → Type 0
  IsSlot none = Unit
  IsSlot (some c) = (b : Bool) × (k : ℕ) × (t : Instant) × (c ≡ made b k t)

  choose-some_IsSlot :
      (b : Bool) (k : ℕ) (t : Instant) (s : Option WindowChoice)
      → IsSlot s
      → IsSlot (choose (made b k t) s)
  unfolding choose
  choose-some_IsSlot b k t none h = (b, k, t, refl)
  choose-some_IsSlot b k t (some c) h =
      elim (Bool-cases (prefer_codex_window (made b k t) (some c))) [
        | inl wins ↦ rw wins (b, k, t, refl)
        | inr loses ↦ rw loses h
      ]

  choose-choose-made :
      (b b' c : Bool) (k k' n : ℕ) (t t' u : Instant)
      → choose (made b k t) (choose (made b' k' t') (some (made c n u)))
        ≡ choose (made b' k' t') (choose (made b k t) (some (made c n u)))
  unfolding choose
  choose-choose-made b b' c k k' n t t' u = ground arith

  choose-choose-none :
      (b b' : Bool) (k k' : ℕ) (t t' : Instant)
      → choose (made b k t) (choose (made b' k' t') none)
        ≡ choose (made b' k' t') (choose (made b k t) none)
  unfolding choose
  choose-choose-none b b' k k' t t' = ground arith

  choose-choose :
      (b b' : Bool) (k k' : ℕ) (t t' : Instant) (s : Option WindowChoice)
      → IsSlot s
      → choose (made b k t) (choose (made b' k' t') s)
        ≡ choose (made b' k' t') (choose (made b k t) s)
  choose-choose b b' k k' t t' none h = choose-choose-none b b' k k' t t'
  choose-choose b b' k k' t t' (some x) (c, n, u, e) =
      rw e (choose-choose-made b b' c k k' n t t' u)

  IsChoices : Choices → Type 0
  IsChoices cs = IsSlot cs.0 × IsSlot cs.1

  -- What a window does to the choices: nothing, or it stands for one of the two durations.
  data Move : Type 0 where
    skip : Move
    five seven : ℕ → Instant → Move

  move : Bool → Move → Choices → Choices
  move b skip cs = cs
  move b (five k t) cs = (choose (made b k t) cs.0, cs.1)
  move b (seven k t) cs = (cs.0, choose (made b k t) cs.1)

  move-IsChoices : (b : Bool) (m : Move) (cs : Choices) → IsChoices cs → IsChoices (move b m cs)
  unfolding move IsChoices
  move-IsChoices b skip cs h = h
  move-IsChoices b (five k t) cs h = (choose-some_IsSlot b k t cs.0 h.0, h.1)
  move-IsChoices b (seven k t) cs h = (h.0, choose-some_IsSlot b k t cs.1 h.1)

  move-move :
      (b b' : Bool) (m m' : Move) (cs : Choices)
      → IsChoices cs
      → move b m (move b' m' cs) ≡ move b' m' (move b m cs)
  unfolding move IsChoices
  move-move b b' skip m' cs h = refl
  move-move b b' (five k t) skip cs h = refl
  move-move b b' (five k t) (five k' t') cs h =
      ap (λ s. (s, cs.1)) (choose-choose b b' k k' t t' cs.0 h.0)
  move-move b b' (five k t) (seven k' t') cs h = refl
  move-move b b' (seven k t) skip cs h = refl
  move-move b b' (seven k t) (five k' t') cs h = refl
  move-move b b' (seven k t) (seven k' t') cs h =
      ap (λ s. (cs.0, s)) (choose-choose b b' k k' t t' cs.1 h.1)

  -- JSON numbers are finite.
  abbrev pub IsFinite : Float64 → Type 0
  IsFinite x = (z : Float.ℤ) × (x ≡ fin z)

  clamp_used-fin : (z : Float.ℤ) → (k : ℕ) × (clamp_used (fin z) ≡ fin (pos k))
  unfolding clamp_used
  clamp_used-fin (negsuc n) = (0, ground arith)
  clamp_used-fin (pos n) = elim (Bool-cases (ltb Float.hundred n)) [
    | inl above ↦ (Float.hundred, ground arith)
    | inr within ↦ (n, ground arith)
  ]

  fields_move :
      (b : Bool) (used : Float64) (d r : Option Int64)
      → IsFinite used
      → (m : Move) × ((cs : Choices) → consider_fields round b used d r cs ≡ move b m cs)
  unfolding consider_fields normalize_window move
  fields_move b used none r fine = (skip, λ cs. refl)
  fields_move b used (some d) none fine = (skip, λ cs. refl)
  fields_move b used (some d) (some r) (z, e) =
      let (k, clamped) = clamp_used-fin z in
      elim (Bool-cases (nat_eq d five_hour_minutes)) [
        | inl hit ↦ (five k (of_unix r), λ cs. rw (e, clamped, hit) refl)
        | inr other ↦ elim (Bool-cases (nat_eq d seven_day_minutes)) [
          | inl hit ↦ (seven k (of_unix r), λ cs. rw (e, clamped, other, hit) refl)
          | inr neither ↦ (skip, λ cs. rw (other, neither) refl)
        ]
      ]

  abbrev pub OptionFinite : Option RateLimitWindow → Type 0
  OptionFinite none = Unit
  OptionFinite (some w) = IsFinite w.used_percent

  window_move :
      (b : Bool) (w : Option RateLimitWindow)
      → OptionFinite w
      → (m : Move) × ((cs : Choices) → consider_window round b w cs ≡ move b m cs)
  unfolding consider_window move
  window_move b none fine = (skip, λ cs. refl)
  window_move b (some w) fine = fields_move b w.used_percent w.window_duration_min w.resets_at fine

  -- The percentages of both windows of a snapshot are finite.
  abbrev pub FiniteSnapshot : RateLimitSnapshot → Type 0
  FiniteSnapshot s = OptionFinite s.primary × OptionFinite s.secondary

  snapshot_moves :
      (b : Bool) (s : RateLimitSnapshot)
      → FiniteSnapshot s
      → (m n : Move) × ((cs : Choices)
          → consider_codex_snapshot round s b cs ≡ move b n (move b m cs))
  unfolding consider_codex_snapshot
  snapshot_moves b s fine =
      let (m, first) = window_move b s.primary fine.0 in
      let (n, second) = window_move b s.secondary fine.1 in
      (m, n, λ cs. second (consider_window round b s.primary cs) ∙ ap (move b n) (first cs))

  snapshot-IsChoices :
      (b : Bool) (s : RateLimitSnapshot) (cs : Choices)
      → FiniteSnapshot s
      → IsChoices cs
      → IsChoices (consider_codex_snapshot round s b cs)
  snapshot-IsChoices b s cs fine h =
      let (m, n, moves) = snapshot_moves b s fine in
      subst IsChoices (sym (moves cs)) (move-IsChoices b n (move b m cs) (move-IsChoices b m cs h))

  snapshot-snapshot :
      (b : Bool) (s s' : RateLimitSnapshot) (cs : Choices)
      → FiniteSnapshot s
      → FiniteSnapshot s'
      → IsChoices cs
      → consider_codex_snapshot round s b (consider_codex_snapshot round s' b cs)
        ≡ consider_codex_snapshot round s' b (consider_codex_snapshot round s b cs)
  snapshot-snapshot b s s' cs fine fine' h =
      let (m, n, moves) = snapshot_moves b s fine in
      let (m', n', moves') = snapshot_moves b s' fine' in
      let go = move b in
      let k = move-IsChoices b in
      let swap_moves = λ (p q : Move) (x : Choices) (v : IsChoices x). move-move b b p q x v in
      moves _
      ∙ ap (λ x. go n (go m x)) (moves' cs)
      ∙ ap (go n) (swap_moves m n' (go m' cs) (k m' cs h))
      ∙ ap (λ x. go n (go n' x)) (swap_moves m m' cs h)
      ∙ swap_moves n n' (go m' (go m cs)) (k m' (go m cs) (k m cs h))
      ∙ ap (go n') (swap_moves n m' (go m cs) (k m cs h))
      ∙ sym (moves' _ ∙ ap (λ x. go n' (go m' x)) (moves cs))

  consider_by_limit_id-Reordering :
      {xs ys : GoMap RateLimitSnapshot} (r : Reordering xs ys) (cs : Choices)
      → All (λ e. FiniteSnapshot e.1) xs
      → IsChoices cs
      → consider_by_limit_id round xs cs ≡ consider_by_limit_id round ys cs
  unfolding consider_by_limit_id
  consider_by_limit_id-Reordering nil cs fine h = refl
  consider_by_limit_id-Reordering (cons (id, s) r) cs (fine, fines) h =
      consider_by_limit_id-Reordering r (consider_codex_snapshot round s false cs) fines
        (snapshot-IsChoices false s cs fine h)
  consider_by_limit_id-Reordering (swap (id, s) (id', s') xs) cs (fine, (fine', fines)) h =
      ap (consider_by_limit_id round xs) (snapshot-snapshot false s' s cs fine' fine h)
  consider_by_limit_id-Reordering (trans r q) cs fine h =
      consider_by_limit_id-Reordering r cs fine h
      ∙ consider_by_limit_id-Reordering q cs (Reordering-All (λ e. FiniteSnapshot e.1) r fine) h

  no-IsChoices : IsChoices (none, none)
  unfolding IsChoices
  no-IsChoices = (tt, tt)

  -- The windows of a report are the same in whatever order the map of limits is visited, if the
  -- used percentages are finite, as those of JSON numbers are.
  pub codex_windows-Reordering :
      (s : RateLimitSnapshot) (xs ys : GoMap RateLimitSnapshot)
      → Reordering xs ys
      → FiniteSnapshot s
      → All (λ e. FiniteSnapshot e.1) xs
      → codex_windows round (record { rate_limits = s; rate_limits_by_limit_id = xs })
        ≡ codex_windows round (record { rate_limits = s; rate_limits_by_limit_id = ys })
  unfolding codex_windows
  codex_windows-Reordering s xs ys r fine fines =
      ap (λ (cs : Choices). record { five_hour = window_of cs.0; seven_day = window_of cs.1 })
        (consider_by_limit_id-Reordering r (consider_codex_snapshot round s true (none, none)) fines
          (snapshot-IsChoices true s (none, none) fine no-IsChoices))
