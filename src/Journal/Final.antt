-- ===== src/Journal/Final.antt =====
-- A committed step over any history of the store.
use xiaowei_agent.Contracts.Platform.{Platform}
use xiaowei_agent.Contracts.Steps.{StepExecutionRecord}
use xiaowei_agent.Contracts.Task.{is_set}
use xiaowei_agent.Dict.{lookup, Dict, insert, lookup-insert}
use xiaowei_agent.Journal.{JournalChange, rests, reserves, commits}
use xiaowei_agent.Journal.Refinement.{after-JournalChange}
use xiaowei_agent.Lifecycle.{Reach, here, calls}
use xiaowei_agent.Prelude.{
  string_eq, nat_eq, pair_eq, ℕ, String, ◌≡◌, sym, subst, true, some, Bool-cases, ap, ◌∙◌, inl, inr,
  false, pair_equals, pair_equals_iff,
}
use xiaowei_agent.Store.State.{StoreState}
use xiaowei_agent.Store.Steps.{is_committed}

-- a write to an uncommitted row leaves a committed one as it is
insert_kept :
    (task_id step_id id step : String) (row new : StepExecutionRecord)
    (d : Dict (String × String) StepExecutionRecord)
    → lookup (task_id, step_id) d ≡ some row
    → is_set row.result_status ≡ true
    → is_committed (lookup (id, step) d) ≡ false
    → lookup (task_id, step_id) (insert (id, step) new d) ≡ some row
insert_kept task_id step_id id step row new d found ended free =
    elim (Bool-cases (pair_equals (id, step) (task_id, step_id))) [
      | inl e ↦
          let k = (pair_equals_iff (id, step) (task_id, step_id)).0 e in
          let free' = subst (λ key. is_committed (lookup key d) ≡ false) k free in
          absurd (cc (free', ap is_committed found, ended))
      | inr e ↦ rw (lookup-insert (id, step) (task_id, step_id) new d, e) found
    ]

-- a change leaves a committed row as it is
JournalChange-committed :
    {s t : StoreState} (task_id step_id : String) (row : StepExecutionRecord)
    → lookup (task_id, step_id) s.step_executions ≡ some row
    → is_set row.result_status ≡ true
    → JournalChange s t
    → lookup (task_id, step_id) t.step_executions ≡ some row
JournalChange-committed task_id step_id row found ended (rests same_plans rows) =
    subst (λ d. lookup (task_id, step_id) d ≡ some row) (sym rows) found
JournalChange-committed {s} task_id step_id row found ended
      (reserves id c started stored new planned fresh reserved same_plans rows) =
    subst (λ d. lookup (task_id, step_id) d ≡ some row) (sym rows)
      (insert_kept task_id step_id id c.step_id row new s.step_executions found ended fresh)
JournalChange-committed {s} task_id step_id row found ended
      (commits id c old new digest committed there token open_ outcome same_plans rows) =
    subst (λ d. lookup (task_id, step_id) d ≡ some row) (sym rows)
      (insert_kept task_id step_id id c.step_id row new s.step_executions found ended
        (ap is_committed there ∙ open_))

module _ (p : Platform) (limit : ℕ) where
  -- Once the result of a step is committed, no calls ever change its journal row: the outcome, its
  -- evidence, its digest and the count of its attempts stay.
  pub committed_row_is_final :
      {s t : StoreState} (task_id step_id : String) (row : StepExecutionRecord)
      → lookup (task_id, step_id) s.step_executions ≡ some row
      → is_set row.result_status ≡ true
      → Reach p limit s t
      → lookup (task_id, step_id) t.step_executions ≡ some row
  committed_row_is_final task_id step_id row found ended here = found
  committed_row_is_final task_id step_id row found ended (calls {t = t} c path fresh e) =
      subst (λ (x : StoreState). lookup (task_id, step_id) x.step_executions ≡ some row) (sym e)
        (JournalChange-committed task_id step_id row
          (committed_row_is_final task_id step_id row found ended path) ended
          (after-JournalChange p limit c t))
