-- ===== src/Journal/Budget.antt =====
-- The tool-call budget of a plan over any history of the store.
use xiaowei_agent.Contracts.Commands.{StepCommitCommand}
use xiaowei_agent.Contracts.Platform.{Platform}
use xiaowei_agent.Contracts.Steps.{StoredPlan, StepExecutionRecord}
use xiaowei_agent.Dict.{Dict, lookup, insert}
use xiaowei_agent.Journal.{
  JournalChange, rests, reserves, commits, Reserved, IsOutcome, opens, resumes, takes_over,
}
use xiaowei_agent.Journal.Refinement.{after-JournalChange}
use xiaowei_agent.Lifecycle.{Reach, here, calls}
use xiaowei_agent.Lifecycle.Evolution.{found_once}
use xiaowei_agent.Prelude.{
  string_eq, nat_eq, pair_eq, ◌==◌, ==_refl, ℕ, ◌+◌, ◌≤◌, String, ◌≡◌, false, Option, none, some,
  [], ◌∷◌, arith, eq_iff, refl, sym, subst, Bool-cases, inl, inr, ◌<◌, ◌⊎◌,
}
use xiaowei_agent.Store.State.{StoreState}
use xiaowei_agent.Store.Steps.{attempts_used}

-- the attempts that one row counts for
abbrev count_of : Option StepExecutionRecord → ℕ
count_of none = 0
count_of (some row) = row.attempt_count

-- writing a row replaces what the old one counted for
attempts_used-insert_own :
    (id step : String) (row : StepExecutionRecord) (d : Dict (String × String) StepExecutionRecord)
    → attempts_used id (insert (id, step) row d) + count_of (lookup (id, step) d)
      ≡ attempts_used id d + row.attempt_count
unfolding attempts_used insert lookup
attempts_used-insert_own id step row [] = ground (arith, ==_refl id)
attempts_used-insert_own id step row (((i, j), old) ∷ d) =
    ground (arith, ==_refl id, eq_iff i id, eq_iff j step, attempts_used-insert_own id step row d)

attempts_used-insert_other :
    (id other step : String) (row : StepExecutionRecord)
    (d : Dict (String × String) StepExecutionRecord)
    → (other == id) ≡ false
    → attempts_used id (insert (other, step) row d) ≡ attempts_used id d
unfolding attempts_used insert
attempts_used-insert_other id other step row [] h = ground arith
attempts_used-insert_other id other step row (((i, j), old) ∷ d) h =
    ground (arith, eq_iff i other, attempts_used-insert_other id other step row d h)

-- Each planned task has used no more attempts than its plan allows.
abbrev pub IsWithinBudget : StoreState → Type 0
IsWithinBudget s =
    (id : String) (stored : StoredPlan)
    → lookup id s.plans ≡ some stored
    → attempts_used id s.step_executions ≤ stored.budget.max_tool_calls

-- a reservation counts one attempt more, with room for it, or none
Reserved-count :
    (task_id step_id : String) (token started used max_calls : ℕ) (o : Option StepExecutionRecord)
    (row : StepExecutionRecord)
    → Reserved task_id step_id token started used max_calls o row
    → (row.attempt_count ≡ count_of o) ⊎ ((row.attempt_count ≡ count_of o + 1) × (used < max_calls))
Reserved-count task_id step_id token started used max_calls _ _ (opens room) = inr (refl, room)
Reserved-count task_id step_id token started used max_calls _ _ (resumes row same) = inl refl
Reserved-count task_id step_id token started used max_calls _ _ (takes_over row other room) =
    inr (refl, room)

-- a reservation keeps the sum within the budget
reserve_in_budget :
    (task_id step_id : String) (token started max_calls : ℕ)
    (d : Dict (String × String) StepExecutionRecord) (row : StepExecutionRecord)
    → attempts_used task_id d ≤ max_calls
    → Reserved task_id step_id token started
        (attempts_used task_id d)
        max_calls
        (lookup (task_id, step_id) d)
        row
    → attempts_used task_id (insert (task_id, step_id) row d) ≤ max_calls
reserve_in_budget task_id step_id token started max_calls d row within reserved = ground (
  arith,
  within,
  Reserved-count task_id step_id token started (attempts_used task_id d) max_calls
      (lookup (task_id, step_id) d) row reserved,
  attempts_used-insert_own task_id step_id row d,
)

-- a commit keeps the count of the row
commit_in_budget :
    (task_id : String) (c : StepCommitCommand) (row new : StepExecutionRecord) (digest : String)
    (committed : ℕ) (d : Dict (String × String) StepExecutionRecord)
    → lookup (task_id, c.step_id) d ≡ some row
    → IsOutcome c digest committed row new
    → attempts_used task_id (insert (task_id, c.step_id) new d) ≡ attempts_used task_id d
commit_in_budget task_id c row new digest committed d found h =
    ground (arith, found, h.attempt_count, attempts_used-insert_own task_id c.step_id new d)

-- a write to the rows of one task is judged by that task's budget
insert_within :
    (s : StoreState) (task_id step : String) (row : StepExecutionRecord)
    → IsWithinBudget s
    → ((stored : StoredPlan)
        → lookup task_id s.plans ≡ some stored
        → attempts_used task_id (insert (task_id, step) row s.step_executions)
          ≤ stored.budget.max_tool_calls)
    → (id : String) (stored : StoredPlan) → lookup id s.plans ≡ some stored
    → attempts_used id (insert (task_id, step) row s.step_executions) ≤ stored.budget.max_tool_calls
insert_within s task_id step row v own id stored h = elim (Bool-cases (task_id == id)) [
  | inl e ↦
      let k = (eq_iff task_id id).0 e in
      subst
        (λ i.
          attempts_used i (insert (task_id, step) row s.step_executions)
          ≤ stored.budget.max_tool_calls)
        k (own stored (subst (λ i. lookup i s.plans ≡ some stored) (sym k) h))
  | inr e ↦ rw (attempts_used-insert_other id task_id step row s.step_executions e) (v id stored h)
]

moved_within :
    (s t : StoreState) (rows : Dict (String × String) StepExecutionRecord)
    → t.plans ≡ s.plans
    → t.step_executions ≡ rows
    → ((id : String) (stored : StoredPlan)
        → lookup id s.plans ≡ some stored
        → attempts_used id rows ≤ stored.budget.max_tool_calls)
    → IsWithinBudget t
moved_within s t rows same_plans same_rows h id stored found =
    rw same_rows (h id stored (subst (λ d. lookup id d ≡ some stored) same_plans found))

JournalChange-IsWithinBudget :
    {s t : StoreState} → IsWithinBudget s → JournalChange s t → IsWithinBudget t
JournalChange-IsWithinBudget {s} {t} v (rests same_plans rows) =
    moved_within s t s.step_executions same_plans rows v
JournalChange-IsWithinBudget {s} {t} v
      (reserves task_id c started stored row planned fresh reserved same_plans rows) =
    moved_within s t _ same_plans rows (
      insert_within s task_id c.step_id row v λ stored' h.
        reserve_in_budget task_id c.step_id c.grant.fencing_token started
          stored'.budget.max_tool_calls s.step_executions row (v task_id stored' h)
          (subst
            (λ (x : StoredPlan).
              Reserved task_id c.step_id c.grant.fencing_token started
                (attempts_used task_id s.step_executions) x.budget.max_tool_calls
                (lookup (task_id, c.step_id) s.step_executions) row)
            (found_once s.plans planned h refl) reserved))
JournalChange-IsWithinBudget {s} {t} v
      (commits task_id c row new digest committed found token open_ outcome same_plans rows) =
    moved_within s t _ same_plans rows (
      insert_within s task_id c.step_id new v λ stored h.
        rw (commit_in_budget task_id c row new digest committed s.step_executions found outcome)
          (v task_id stored h))

module _ (p : Platform) (limit : ℕ) where
  -- If the journal is within the budgets of the plans, so it is after any calls: no interleaving of
  -- workers, retries and take-overs lets the attempts on a task's steps exceed `max_tool_calls`.
  pub Reach-IsWithinBudget :
      {s t : StoreState} → IsWithinBudget s → Reach p limit s t → IsWithinBudget t
  Reach-IsWithinBudget v here = v
  Reach-IsWithinBudget v (calls {t = t} c path fresh e) =
      subst IsWithinBudget (sym e) (
        JournalChange-IsWithinBudget (Reach-IsWithinBudget v path)
          (after-JournalChange p limit c t))
