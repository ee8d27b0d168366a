-- ===== src/Store/Report/Isolation.antt =====
-- What `ReplaceAgentReport` (internal/store/store.go) leaves alone, whichever database calls fail.
use mathlib.Core.List.{append-nil}
use codex_claude_monitor.Prelude.{
  ◌≤◌, String, ◌≡◌, ◌≢◌, refl, sym, ap, subst, ◌∙◌, inl, inr, Bool, not, some, List, [], ◌∷◌, ◌++◌,
  arith, ◌==◌, eq_iff, keep, Bool-cases, ◌&&◌,
}
use codex_claude_monitor.Prelude.Result.{ok}
use codex_claude_monitor.Clock.{Instant}
use codex_claude_monitor.Model.{AgentReport}
use codex_claude_monitor.Store.Db.{
  TokenRow, AgentRow, ProviderRow, TaskRow, Db, insert_provider_row, insert_task_row, Faults,
}
use codex_claude_monitor.Store.Report.{
  Encode, agent_row, upsert_agent, of_others_provider, of_others_task, replace_agent_report,
}
use codex_claude_monitor.Store.Report.Accepted.{agent_of, agent_of-upsert_agent, is_newer}
use codex_claude_monitor.Store.Report.Steps.{
  TxSteps, insert_providers-keeps, insert_tasks-keeps, insert_provider_row-ok, insert_task_row-ok,
  replace_agent_report_cases,
}

keep-append :
    {A : Type 0} (p : A → Bool) (xs ys : List A) → keep p (xs ++ ys) ≡ keep p xs ++ keep p ys
keep-append p [] ys = refl
keep-append p (x ∷ xs) ys = elim (Bool-cases (p x)) [
  | inl kept ↦ rw (kept, keep) (ap (λ r. x ∷ r) (keep-append p xs ys))
  | inr dropped ↦ rw (dropped, keep) (keep-append p xs ys)
]

keep-keep : {A : Type 0} (p : A → Bool) (xs : List A) → keep p (keep p xs) ≡ keep p xs
keep-keep p [] = refl
keep-keep p (x ∷ xs) = elim (Bool-cases (p x)) [
  | inl kept ↦ rw (kept, keep) (rw kept (ap (λ r. x ∷ r) (keep-keep p xs)))
  | inr dropped ↦ rw (dropped, keep) (keep-keep p xs)
]

-- The rows of one owner among those that are not of another one.
keep_other :
    {A : Type 0} (owner : A → String) (other id : String) (xs : List A)
    → other ≢ id
    → keep (λ x. owner x == other) (keep (λ x. not (owner x == id)) xs)
      ≡ keep (λ x. owner x == other) xs
keep_other owner other id [] differs = refl
keep_other owner other id (x ∷ xs) differs =
    ground
      (arith, keep_other owner other id xs differs, eq_iff (owner x) other, eq_iff (owner x) id)

-- Two tables with the same rows of all but one owner have the same rows of any other owner.
same_other :
    {A : Type 0} (owner : A → String) (other id : String) (xs ys : List A)
    → other ≢ id
    → keep (λ x. not (owner x == id)) xs ≡ keep (λ x. not (owner x == id)) ys
    → keep (λ x. owner x == other) xs ≡ keep (λ x. owner x == other) ys
same_other owner other id xs ys differs same =
    sym (keep_other owner other id xs differs)
    ∙ ap (keep (λ x. owner x == other)) same
    ∙ keep_other owner other id ys differs

-- The tokens, the agents and the other agents' rows are these.
record Others (id : String) (tokens : List TokenRow) (agents : List AgentRow)
    (reports : List ProviderRow) (tasks : List TaskRow) (db : Db) : Type 0 where
  pub same_tokens : db.tokens ≡ tokens
  pub same_agents : db.agents ≡ agents
  pub same_reports : keep (of_others_provider id) db.provider_reports ≡ reports
  pub same_tasks : keep (of_others_task id) db.active_tasks ≡ tasks

module _ (id : String) (tokens : List TokenRow) (agents : List AgentRow)
    (reports : List ProviderRow) (tasks : List TaskRow) (db db' : Db) where
  insert_provider_row-Others :
      (row : ProviderRow)
      → row.agent_id ≡ id
      → insert_provider_row row db ≡ ok db'
      → Others id tokens agents reports tasks db
      → Others id tokens agents reports tasks db'
  insert_provider_row-Others row mine put o =
      let (_, _, _, new) = insert_provider_row-ok row db db' put in
      subst (Others id tokens agents reports tasks) (sym new) (record {
        same_tokens = o.same_tokens;
        same_agents = o.same_agents;
        same_reports = ground (
          arith,
          keep-append (of_others_provider id) db.provider_reports (row ∷ []),
          eq_iff row.agent_id id,
          append-nil (keep (of_others_provider id) db.provider_reports),
          o.same_reports,
        );
        same_tasks = o.same_tasks;
      })

  insert_task_row-Others :
      (row : TaskRow)
      → row.agent_id ≡ id
      → insert_task_row row db ≡ ok db'
      → Others id tokens agents reports tasks db
      → Others id tokens agents reports tasks db'
  insert_task_row-Others row mine put o =
      let (_, _, _, _, new) = insert_task_row-ok row db db' put in
      subst (Others id tokens agents reports tasks) (sym new) (record {
        same_tokens = o.same_tokens;
        same_agents = o.same_agents;
        same_reports = o.same_reports;
        same_tasks = ground (
          arith,
          keep-append (of_others_task id) db.active_tasks (row ∷ []),
          eq_iff row.agent_id id,
          append-nil (keep (of_others_task id) db.active_tasks),
          o.same_tasks,
        );
      })

module _ (encode : Encode) (fails : Faults) (report : AgentReport) (received_at : Instant)
    (db : Db) where
  abbrev after_report : Db
  after_report = (replace_agent_report encode fails report received_at db).1

  TxSteps-Others :
      (db' : Db)
      → TxSteps encode fails report received_at db db'
      → Others report.agent_id db.tokens
          (upsert_agent (agent_row report received_at) db.agents).0
          (keep (of_others_provider report.agent_id) db.provider_reports)
          (keep (of_others_task report.agent_id) db.active_tasks)
          db'
  TxSteps-Others db' s =
      insert_tasks-keeps P report.agent_id fails _ _ _ (s.last, db')
        (λ row d d' mine put o. insert_task_row-Others _ _ _ _ _ d d' row mine put o) s.tasks
        (record {
          same_tokens = filled.same_tokens;
          same_agents = filled.same_agents;
          same_reports = filled.same_reports;
          same_tasks = keep-keep (of_others_task report.agent_id) _ ∙ filled.same_tasks;
        })
    where
      P : Db → Type 0
      P =
          Others report.agent_id db.tokens (upsert_agent (agent_row report received_at) db.agents).0
            (keep (of_others_provider report.agent_id) db.provider_reports)
            (keep (of_others_task report.agent_id) db.active_tasks)

      filled : P s.filled.1
      filled =
          insert_providers-keeps P report.agent_id encode fails _ _ _ s.filled
            (λ row d d' mine put o. insert_provider_row-Others _ _ _ _ _ d d' row mine put o)
            s.providers
            (record {
              same_tokens = refl;
              same_agents = refl;
              same_reports = keep-keep (of_others_provider report.agent_id) db.provider_reports;
              same_tasks = refl;
            })

  -- Whether a report is stored, refused as stale or fails at any database call: the tokens, the
  -- row, the provider reports and the tasks of every other agent stay as they are.
  pub replace_agent_report-others :
      (other : String)
      → other ≢ report.agent_id
      → (after_report.tokens ≡ db.tokens)
        × (agent_of other after_report.agents ≡ agent_of other db.agents)
        × (keep (λ row. row.agent_id == other) after_report.provider_reports
            ≡ keep (λ row. row.agent_id == other) db.provider_reports)
        × (keep (λ row. row.agent_id == other) after_report.active_tasks
            ≡ keep (λ row. row.agent_id == other) db.active_tasks)
  replace_agent_report-others other differs =
      elim (replace_agent_report_cases encode fails report received_at db) [
        | inl same ↦ rw same (refl, refl, refl, refl)
        | inr steps ↦
            let o = TxSteps-Others after_report steps in
            (
              o.same_tokens,
              rw o.same_agents (
                  ground (
                    arith,
                    agent_of-upsert_agent (agent_row report received_at) db.agents other,
                    eq_iff report.agent_id other,
                  )),
              same_other (λ row. row.agent_id) other report.agent_id after_report.provider_reports
                  db.provider_reports differs o.same_reports,
              same_other (λ row. row.agent_id) other report.agent_id after_report.active_tasks
                  db.active_tasks differs o.same_tasks,
            )
      ]

  -- Whatever a report brings and whichever database call fails, the send time stored of an agent
  -- never goes back.
  pub replace_agent_report-sent_at-le :
      (id : String) (a : AgentRow)
      → agent_of id db.agents ≡ some a
      → (b : AgentRow) × (agent_of id after_report.agents ≡ some b)
        × (a.report_sent_at ≤ b.report_sent_at)
  replace_agent_report-sent_at-le id a stored =
      elim (replace_agent_report_cases encode fails report received_at db) [
        | inl same ↦ (a, rw same stored, omega arith)
        | inr steps ↦
            let o = TxSteps-Others after_report steps in
            let row = agent_of-upsert_agent (agent_row report received_at) db.agents id in
            elim (Bool-cases
              (report.agent_id == id && is_newer (agent_row report received_at) (some a))) [
                | inl newer ↦ (
                  agent_row report received_at,
                  rw o.same_agents (ground (arith, row)),
                  ground arith,
                )
                | inr kept ↦ (a, rw o.same_agents (ground (arith, row)), omega arith)
              ]
      ]
