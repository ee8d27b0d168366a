-- ===== src/Store/Snapshot/Totals.antt =====
-- The counts of a display snapshot (`loadAgentSummary` and `loadTaskSummary` of
-- internal/store/store.go).
use codex_claude_monitor.Prelude.{
  ℕ, ◌+◌, String, ◌≡◌, refl, sym, subst, inl, inr, Bool, false, List, [], ◌∷◌, arith, ◌==◌, eq_iff,
  keep, count, length, map, leb, Bool-cases, if◌then◌else◌, ◌&&◌, count-append,
}
use codex_claude_monitor.Clock.{Instant, unix_nano, neg}
use codex_claude_monitor.Clock
use codex_claude_monitor.Model.{TaskSummary, provider_codex, provider_claude, task_main, task_sub}
use codex_claude_monitor.Store.Db.{AgentRow, TaskRow, Db, exists, owner}
use codex_claude_monitor.Store.Report.Integrity.{IsConsistent, Distinct, same_agent}
use codex_claude_monitor.Store.Snapshot.{
  is_online, active_rows, count_row, count_rows, load_task_summary, no_tasks, task_ttl,
}

-- An agent with the ID of the task is online, and the task was seen within its ttl.
abbrev pub is_shown : Instant → List AgentRow → TaskRow → Bool
is_shown now agents t =
    leb (unix_nano (Clock.add now (neg task_ttl))) t.last_seen_at
    && exists (λ a. a.agent_id == t.agent_id && is_online now a) agents

abbrev pub is_of : String → String → TaskRow → Bool
is_of provider kind t = t.provider == provider && t.kind == kind

no_owner :
    (now : Instant) (id : String) (agents : List AgentRow)
    → exists (owner id) agents ≡ false
    → keep (λ a. a.agent_id == id && is_online now a) agents ≡ []
no_owner now id [] h = refl
no_owner now id (a ∷ rest) h = ground (arith, no_owner now id rest)

-- The join has at most one row for a task.
matched :
    (now : Instant) (id : String) (agents : List AgentRow)
    → Distinct same_agent agents
    → length (keep (λ a. a.agent_id == id && is_online now a) agents)
      ≡ (if exists (λ a. a.agent_id == id && is_online now a) agents then 1 else 0)
matched now id [] d = refl
matched now id (a ∷ rest) d =
    ground (arith, matched now id rest d.1, no_owner now id rest, eq_iff a.agent_id id, d.0)

count-const :
    (p : TaskRow → Bool) (t : TaskRow) (agents : List AgentRow)
    → count p (map (λ _. t) agents) ≡ (if p t then length agents else 0)
count-const p t [] = ground arith
count-const p t (a ∷ rest) = ground (arith, count-const p t rest)

count-active_rows :
    (now : Instant) (agents : List AgentRow) (p : TaskRow → Bool) (ts : List TaskRow)
    → Distinct same_agent agents
    → count p (active_rows now agents ts) ≡ count (λ t. p t && is_shown now agents t) ts
unfolding active_rows
count-active_rows now agents p [] d = refl
count-active_rows now agents p (t ∷ rest) d = ground (
  arith,
  count-active_rows now agents p rest d,
  matched now t.agent_id agents d,
  count-const p t (keep (λ a. a.agent_id == t.agent_id && is_online now a) agents),
  count-append p (map (λ _. t) (keep (λ a. a.agent_id == t.agent_id && is_online now a) agents))
      (active_rows now agents rest),
)

not_both : (s a b : String) → (a == b) ≡ false → (s == a && s == b) ≡ false
not_both s a b differ = elim (Bool-cases (s == a)) [
  | inl hit ↦ rw hit (subst (λ x. (x == b) ≡ false) (sym ((eq_iff s a).0 hit)) differ)
  | inr miss ↦ rw miss refl
]

-- Each count grows by the rows of its provider and kind, the total by those of both providers.
record Adds (ts : List TaskRow) (s s' : TaskSummary) : Type 0 where
  pub codex_main : s'.codex.main ≡ s.codex.main + count (is_of provider_codex task_main) ts
  pub codex_sub : s'.codex.sub ≡ s.codex.sub + count (is_of provider_codex task_sub) ts
  pub claude_main : s'.claude.main ≡ s.claude.main + count (is_of provider_claude task_main) ts
  pub claude_sub : s'.claude.sub ≡ s.claude.sub + count (is_of provider_claude task_sub) ts
  pub total_main :
      s'.total.main
      ≡ s.total.main
        + count (is_of provider_codex task_main) ts
        + count (is_of provider_claude task_main) ts
  pub total_sub :
      s'.total.sub
      ≡ s.total.sub
        + count (is_of provider_codex task_sub) ts
        + count (is_of provider_claude task_sub) ts

count_rows-Adds : (ts : List TaskRow) (s : TaskSummary) → Adds ts s (count_rows ts s)
unfolding count_rows
count_rows-Adds [] s = record {
  codex_main = omega arith;
  codex_sub = omega arith;
  claude_main = omega arith;
  claude_sub = omega arith;
  total_main = omega arith;
  total_sub = omega arith;
}
count_rows-Adds (t ∷ ts) s =
    let rest = count_rows-Adds ts (count_row t s) in
    let providers = not_both t.provider provider_codex provider_claude refl in
    let kinds = not_both t.kind task_main task_sub refl in
    record {
      codex_main = ground (arith, rest.codex_main, kinds);
      codex_sub = ground (arith, rest.codex_sub, kinds);
      claude_main = ground (arith, rest.claude_main, kinds, providers);
      claude_sub = ground (arith, rest.claude_sub, kinds, providers);
      total_main = ground (arith, rest.total_main, kinds, providers);
      total_sub = ground (arith, rest.total_sub, kinds, providers);
    }

-- The number of tasks of a provider and a kind that are shown.
abbrev pub shown : Instant → Db → String → String → ℕ
shown now db provider kind =
    count (λ t. is_of provider kind t && is_shown now db.agents t) db.active_tasks

abbrev pub summary_of_shown : Instant → Db → TaskSummary
summary_of_shown now db = record {
  codex = record {
    main = shown now db provider_codex task_main;
    sub = shown now db provider_codex task_sub;
  };
  claude = record {
    main = shown now db provider_claude task_main;
    sub = shown now db provider_claude task_sub;
  };
  total = record {
    main = shown now db provider_codex task_main + shown now db provider_claude task_main;
    sub = shown now db provider_codex task_sub + shown now db provider_claude task_sub;
  };
}

-- In a database that satisfies its constraints, the snapshot counts every task once that was seen
-- within the ttl and whose agent is online, under its provider and kind, and the totals are the
-- sums of both providers.
pub load_task_summary-eq :
    (now : Instant) (db : Db) → IsConsistent db → load_task_summary now db ≡ summary_of_shown now db
unfolding load_task_summary
load_task_summary-eq now db c =
    let s =
      count_rows-Adds (active_rows now db.agents db.active_tasks)
        (record { codex = no_tasks; claude = no_tasks; total = no_tasks }) in
    let n = λ (provider kind : String).
      count-active_rows now db.agents (is_of provider kind) db.active_tasks c.agents in
    ground (
      arith,
      s.codex_main,
      s.codex_sub,
      s.claude_main,
      s.claude_sub,
      s.total_main,
      s.total_sub,
      n provider_codex task_main,
      n provider_codex task_sub,
      n provider_claude task_main,
      n provider_claude task_sub,
    )
