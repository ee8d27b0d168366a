-- ===== src/Store/Report/Order.antt =====
-- Reports that arrive out of order or twice (`ReplaceAgentReport` of internal/store/store.go).
use codex_claude_monitor.Prelude.{
  ◌<◌, String, ◌≡◌, refl, sym, ap, subst, inl, inr, Bool, true, false, List, [], ◌∷◌, ◌++◌, arith,
  eq_iff, keep, Bool-cases, Option-cases,
}
use codex_claude_monitor.Prelude.GoMap.{GoMap}
use codex_claude_monitor.Prelude.GoMap.Unique.{UniqueKeys}
use codex_claude_monitor.Clock.{Instant, unix_nano}
use codex_claude_monitor.Float.{Round}
use codex_claude_monitor.Model.{ProviderReport, ActiveTask, AgentReport}
use codex_claude_monitor.Store.Db.{AgentRow, Db}
use codex_claude_monitor.Store.Report.{
  Encode, agent_row, upsert_agent, entries, of_others_provider, of_others_task,
  replace_agent_report,
}
use codex_claude_monitor.Store.Report.Inserts.{no_faults, provider_rows, task_rows}
use codex_claude_monitor.Store.Report.Accepted.{
  agent_of, is_newer, agent_of-upsert_agent, replaced, Encodable, replace_agent_report-eq,
}
use codex_claude_monitor.Server.Validate.Spec.{IsValidReport}

-- The second of two rows for one agent overwrites the first.
upsert_agent-upsert_agent :
    (a b : AgentRow) (agents : List AgentRow)
    → a.agent_id ≡ b.agent_id
    → a.report_sent_at < b.report_sent_at
    → is_newer a (agent_of a.agent_id agents) ≡ true
    → (upsert_agent b (upsert_agent a agents).0).0 ≡ (upsert_agent b agents).0
unfolding upsert_agent
upsert_agent-upsert_agent a b [] same later new = ground (arith, eq_iff a.agent_id b.agent_id)
upsert_agent-upsert_agent a b (c ∷ rest) same later new = ground (
  arith,
  upsert_agent-upsert_agent a b rest same later,
  eq_iff a.agent_id b.agent_id,
  eq_iff c.agent_id a.agent_id,
  eq_iff c.agent_id b.agent_id,
)

keep-append_others :
    {A : Type 0} (p : A → Bool) (xs ys : List A)
    → keep p ys ≡ []
    → keep p (keep p xs ++ ys) ≡ keep p xs
keep-append_others p [] ys h = h
keep-append_others p (x ∷ xs) ys h = elim (Bool-cases (p x)) [
  | inl kept ↦ rw (kept, keep) (rw kept (ap (λ r. x ∷ r) (keep-append_others p xs ys h)))
  | inr dropped ↦ rw (dropped, keep) (keep-append_others p xs ys h)
]

keep-provider_rows :
    (encode : Encode) (id : String) (m : GoMap ProviderReport)
    → keep (of_others_provider id) (provider_rows encode id m) ≡ []
unfolding provider_rows
keep-provider_rows encode id [] = refl
keep-provider_rows encode id ((p, r) ∷ m) = elim (Option-cases (encode r.windows)) [
  | inl fails ↦ rw (fails, provider_rows) (keep-provider_rows encode id m)
  | inr (windows, e) ↦
      rw (e, provider_rows) (ground (arith, keep-provider_rows encode id m, eq_iff id id))
]

keep-task_rows :
    (id : String) (ts : List ActiveTask) → keep (of_others_task id) (task_rows id ts) ≡ []
keep-task_rows id [] = refl
keep-task_rows id (t ∷ ts) = ground (arith, keep-task_rows id ts, eq_iff id id)

-- A report that the server accepts at some time, with distinct providers and windows that can be
-- encoded.
pub record IsStorable (encode : Encode) (report : AgentReport) : Type 0 where
  pub round : Round
  pub now : Instant
  pub valid : IsValidReport round report now
  pub unique : UniqueKeys (entries report.providers)
  pub encodable : Encodable encode (entries report.providers)

module _ (encode : Encode) where
  -- The database after a report.
  abbrev pub store : AgentReport → Instant → Db → Db
  store report received_at db = (replace_agent_report encode no_faults report received_at db).1

  abbrev pub newer_in : AgentReport → Instant → Db → Bool
  newer_in report received_at db =
      is_newer (agent_row report received_at) (agent_of report.agent_id db.agents)

  module _ (report : AgentReport) (received_at : Instant) (db : Db)
      (s : IsStorable encode report) where
    pub store_newer :
        newer_in report received_at db ≡ true
        → store report received_at db ≡ replaced encode report received_at db
    store_newer newer =
        ap (λ out. out.1)
          (rw newer at (
            replace_agent_report-eq s.round report s.now encode received_at db s.valid s.unique
              s.encodable))

    store_stale : newer_in report received_at db ≡ false → store report received_at db ≡ db
    store_stale stale =
        ap (λ out. out.1)
          (rw stale at (
            replace_agent_report-eq s.round report s.now encode received_at db s.valid s.unique
              s.encodable))

  module _ (early late : AgentReport) (t u : Instant) (db : Db)
      (same : early.agent_id ≡ late.agent_id)
      (later : unix_nano early.sent_at < unix_nano late.sent_at) where
    replaced-replaced :
        newer_in early t db ≡ true
        → replaced encode late u (replaced encode early t db) ≡ replaced encode late u db
    replaced-replaced new = rw (agents, providers, tasks) refl
      where
        agents :
            (upsert_agent (agent_row late u) (upsert_agent (agent_row early t) db.agents).0).0
            ≡ (upsert_agent (agent_row late u) db.agents).0
        agents =
            upsert_agent-upsert_agent (agent_row early t) (agent_row late u) db.agents same later
              new

        providers :
            keep (of_others_provider late.agent_id) (
              keep (of_others_provider early.agent_id) db.provider_reports
              ++ provider_rows encode early.agent_id (entries early.providers))
            ≡ keep (of_others_provider late.agent_id) db.provider_reports
        providers =
            subst
              (λ id.
                keep (of_others_provider late.agent_id) (
                  keep (of_others_provider id) db.provider_reports
                  ++ provider_rows encode id (entries early.providers))
                ≡ keep (of_others_provider late.agent_id) db.provider_reports)
              (sym same)
              (keep-append_others (of_others_provider late.agent_id) db.provider_reports _
                (keep-provider_rows encode late.agent_id (entries early.providers)))

        tasks :
            keep (of_others_task late.agent_id) (
              keep (of_others_task early.agent_id) db.active_tasks
              ++ task_rows early.agent_id (entries early.active_tasks))
            ≡ keep (of_others_task late.agent_id) db.active_tasks
        tasks =
            subst
              (λ id.
                keep (of_others_task late.agent_id) (
                  keep (of_others_task id) db.active_tasks
                  ++ task_rows id (entries early.active_tasks))
                ≡ keep (of_others_task late.agent_id) db.active_tasks)
              (sym same)
              (keep-append_others (of_others_task late.agent_id) db.active_tasks _
                (keep-task_rows late.agent_id (entries early.active_tasks)))

    same_row : agent_of early.agent_id db.agents ≡ agent_of late.agent_id db.agents
    same_row = ap (λ id. agent_of id db.agents) same

    newer_late : newer_in early t db ≡ true → newer_in late u db ≡ true
    newer_late newer = ground (arith, same_row)

    newer_after : newer_in early t db ≡ true → newer_in late u (replaced encode early t db) ≡ true
    newer_after newer = ground (
      arith,
      same_row,
      agent_of-upsert_agent (agent_row early t) db.agents late.agent_id,
      eq_iff early.agent_id late.agent_id,
    )

    stale_after : newer_in late u db ≡ true → newer_in early t (replaced encode late u db) ≡ false
    stale_after newer = ground (
      arith,
      same_row,
      agent_of-upsert_agent (agent_row late u) db.agents early.agent_id,
      eq_iff late.agent_id early.agent_id,
    )

    -- Two reports of one agent, which the server both accepts, leave the same database in whichever
    -- order they arrive, if the nanoseconds of their send times differ.
    pub store-store :
        IsStorable encode early
        → IsStorable encode late
        → store early t (store late u db) ≡ store late u (store early t db)
    store-store s₁ s₂ = elim (Bool-cases (newer_in early t db)) [
      | inl newer ↦
          rw
            (
              store_newer early t db s₁ newer,
              store_newer late u db s₂ (newer_late newer),
              store_stale early t (replaced encode late u db) s₁ (stale_after (newer_late newer)),
              store_newer late u (replaced encode early t db) s₂ (newer_after newer),
            )
            (sym (replaced-replaced newer))
      | inr stale ↦ elim (Bool-cases (newer_in late u db)) [
        | inl newer ↦
            rw
              (
                store_stale early t db s₁ stale,
                store_newer late u db s₂ newer,
                store_stale early t (replaced encode late u db) s₁ (stale_after newer),
              )
              refl
        | inr old ↦
            rw
              (
                store_stale early t db s₁ stale,
                store_stale late u db s₂ old,
                store_stale early t db s₁ stale,
              )
              refl
      ]
    ]
