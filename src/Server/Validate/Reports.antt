-- ===== src/Server/Validate/Reports.antt =====
-- `ValidateAgentReport` decides the description of valid reports.
use mathlib.Core.Bool.{false≢true}
use codex_claude_monitor.Prelude.{
  ℕ, ◌+◌, ◌≡◌, refl, ◌↔◌, ◌≤◌, Option, none, some, List, [], ◌∷◌, arith, ◌==◌, eq_iff, All, inl,
  inr, Bool-cases, not, is_none, ltb, ◌∙◌, sym, length,
}
use codex_claude_monitor.Prelude.GoMap.{GoMap, lookup, insert, lookup-insert}
use codex_claude_monitor.Prelude.Result.{ok, reject-then_iff, check-then_iff}
use codex_claude_monitor.Clock.{Instant}
use codex_claude_monitor.Float.{Round}
use codex_claude_monitor.Model.{ProviderReport, ActiveTask, AgentReport}
use codex_claude_monitor.Server.Validate.{
  task_key, valid_agent_id, validate_providers, validate_task, validate_tasks, validate_entries,
  validate_agent_report,
}
use codex_claude_monitor.Server.Validate.Spec.{
  IsValidProvider, IsValidTask, SameSession, DistinctSessions, IsValidReport,
}
use codex_claude_monitor.Server.Validate.Entries.{validate_provider_iff, validate_task_iff}
use codex_claude_monitor.Server.Validate.Keys.{task_key_inj, task_key_cong}

module _ (round : Round) (report : AgentReport) (now : Instant) where
  validate_providers_iff :
      (ps : GoMap ProviderReport)
      → (validate_providers round report now ps ≡ ok tt) ↔ All (IsValidProvider round report now) ps
  unfolding validate_providers
  validate_providers_iff [] = (λ _. tt, λ _. refl)
  validate_providers_iff ((p, r) ∷ ps) = (
    λ h. ground (arith, validate_provider_iff round report now p r, validate_providers_iff ps),
    λ h. ground (arith, validate_provider_iff round report now p r, validate_providers_iff ps),
  )

module _ (report : AgentReport) (now : Instant) where
  -- No task has a key that was seen.
  abbrev Unseen : GoMap (Unit {0}) → List ActiveTask → Type 0
  Unseen seen = All (λ t. lookup (task_key t) seen ≡ none)

  Unseen-of_insert :
      (seen : GoMap (Unit {0})) (t : ActiveTask) (ts : List ActiveTask)
      → Unseen (insert (task_key t) tt seen) ts
      → Unseen seen ts × All (λ u. ¬ SameSession t u) ts
  Unseen-of_insert seen t [] h = (tt, tt)
  Unseen-of_insert seen t (u ∷ ts) h =
      let (unseen, apart) = Unseen-of_insert seen t ts h.1 in
      let step = lookup-insert (task_key t) (task_key u) tt seen in
      elim (Bool-cases (task_key t == task_key u)) [
        | inl hit ↦ absurd (ground (arith, step))
        | inr miss ↦ (
          (ground (arith, step), unseen),
          (λ same. false≢true (sym miss ∙ (eq_iff _ _).1 (task_key_cong t u same)), apart),
        )
      ]

  insert-Unseen :
      (seen : GoMap (Unit {0})) (t : ActiveTask) (ts : List ActiveTask)
      → IsValidTask report now t
      → All (IsValidTask report now) ts
      → Unseen seen ts
      → All (λ u. ¬ SameSession t u) ts
      → Unseen (insert (task_key t) tt seen) ts
  insert-Unseen seen t [] v vs h d = tt
  insert-Unseen seen t (u ∷ ts) v vs h d =
      let step = lookup-insert (task_key t) (task_key u) tt seen in
      (
        elim (Bool-cases (task_key t == task_key u)) [
          | inl hit ↦ absurd (d.0 (task_key_inj t u v.provider vs.0.provider ((eq_iff _ _).0 hit)))
          | inr miss ↦ ground (arith, step)
        ],
        insert-Unseen seen t ts v vs.1 h.1 d.1,
      )

  pub validate_tasks_iff :
      (i : ℕ) (seen : GoMap (Unit {0})) (ts : List ActiveTask)
      → (validate_tasks report now i seen ts ≡ ok tt)
        ↔ (All (IsValidTask report now) ts × DistinctSessions ts × Unseen seen ts)
  unfolding validate_tasks
  validate_tasks_iff i seen [] = (λ _. (tt, tt, tt), λ _. refl)
  validate_tasks_iff i seen (t ∷ ts) = (
    λ h.
        let (checked, h1) = (check-then_iff (validate_task report now i t) _).0 h in
        let (new, h2) = (reject-then_iff (not (is_none (lookup (task_key t) seen))) _ _).0 h1 in
        let (valid, distinct, later) =
          (validate_tasks_iff (i + 1) (insert (task_key t) tt seen) ts).0 h2 in
        let (unseen, apart) = Unseen-of_insert seen t ts later in
        (
          ((validate_task_iff report now i t).0 checked, valid),
          (apart, distinct),
          (ground arith, unseen),
        ),
    λ (v, d, u). (check-then_iff _ _).1 (
      (validate_task_iff report now i t).1 v.0,
      (reject-then_iff _ _ _).1 (
        ground arith,
        (validate_tasks_iff (i + 1) (insert (task_key t) tt seen) ts).1
            (v.1, d.1, insert-Unseen seen t ts v.0 v.1 u.1 d.0),
      ),
    ),
  )

module _ (round : Round) (report : AgentReport) (now : Instant) where
  -- The part of the description that the loops check.
  abbrev ValidEntries : GoMap ProviderReport → List ActiveTask → Type 0
  ValidEntries ps ts =
      (length ts ≤ 256)
      × All (IsValidProvider round report now) ps
      × All (IsValidTask report now) ts
      × DistinctSessions ts

  ValidEntries-of_ok :
      (ps : Option (GoMap ProviderReport)) (ts : Option (List ActiveTask))
      → validate_entries round report now ps ts ≡ ok tt
      → (p : GoMap ProviderReport) × (t : List ActiveTask) × (ps ≡ some p)
        × (ts ≡ some t)
        × ValidEntries p t
  unfolding validate_entries
  ValidEntries-of_ok none ts h = cc
  ValidEntries-of_ok (some p) none h = cc
  ValidEntries-of_ok (some p) (some t) h =
      let (few, h1) = (reject-then_iff (ltb 256 (length t)) _ _).0 h in
      let (providers, tasks) = (check-then_iff _ _).0 h1 in
      let (valid, distinct, _) = (validate_tasks_iff report now 0 [] t).0 tasks in
      (
        p,
        t,
        refl,
        refl,
        (ground arith, (validate_providers_iff round report now p).0 providers, valid, distinct),
      )

  Unseen-nil : (ts : List ActiveTask) → Unseen report now [] ts
  unfolding lookup
  Unseen-nil [] = tt
  Unseen-nil (t ∷ ts) = (refl, Unseen-nil ts)

  ok_of_ValidEntries :
      (p : GoMap ProviderReport) (t : List ActiveTask)
      → ValidEntries p t
      → validate_entries round report now (some p) (some t) ≡ ok tt
  unfolding validate_entries
  ok_of_ValidEntries p t (few, valid_ps, valid_ts, distinct) = (reject-then_iff _ _ _).1 (
    ground arith,
    (check-then_iff _ _).1 (
      (validate_providers_iff round report now p).1 valid_ps,
      (validate_tasks_iff report now 0 [] t).1 (valid_ts, distinct, Unseen-nil t),
    ),
  )

  -- The server accepts a report exactly if it is valid: no valid report is refused, whatever the
  -- order of its providers and tasks, and no other is accepted.
  pub validate_agent_report_iff :
      (validate_agent_report round report now ≡ ok tt) ↔ IsValidReport round report now
  unfolding validate_agent_report valid_agent_id
  validate_agent_report_iff = (
    λ h.
        let entries : validate_entries round report now report.providers report.active_tasks
            ≡ ok tt =
          ground arith in
        let (p, t, ep, et, (few, vp, vt, d)) =
          ValidEntries-of_ok report.providers report.active_tasks entries in
        record {
          schema = ground arith;
          agent_present = ground arith;
          agent_short = ground arith;
          agent_chars = ground arith;
          sent = ground arith;
          not_future = ground arith;
          not_old = ground arith;
          providers = p;
          providers_present = ep;
          providers_valid = vp;
          tasks = t;
          tasks_present = et;
          tasks_few = few;
          tasks_valid = vt;
          sessions = d;
        },
    λ v.
        let entries : validate_entries round report now report.providers report.active_tasks
            ≡ ok tt =
          cc (
            ok_of_ValidEntries v.providers v.tasks
              (v.tasks_few, v.providers_valid, v.tasks_valid, v.sessions)) in
        ground (arith, entries),
  )
