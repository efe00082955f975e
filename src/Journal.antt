-- ===== src/Journal.antt =====
-- The step journal of persistence/fake.py, stated apart from its code: the writes that its rows can
-- undergo. `begin_step_attempt` reserves an attempt within the plan's budget, and
-- `commit_step_result` records the outcome of the attempt in flight.
pub mod Keeps
pub mod Refinement
pub mod Budget
pub mod Final
use xiaowei_agent.Contracts.Commands.{StepAttemptCommand, StepCommitCommand}
use xiaowei_agent.Contracts.Steps.{StoredPlan, StepExecutionRecord, EvidenceEnvelope}
use xiaowei_agent.Contracts.Task.{is_set}
use xiaowei_agent.Dict.{lookup, insert}
use xiaowei_agent.Prelude.{
  string_eq, nat_eq, pair_eq, ℕ, String, ◌≡◌, false, some, ◌+◌, ◌<◌, ◌≢◌, Option, none,
}
use xiaowei_agent.Store.State.{StoreState}
use xiaowei_agent.Store.Steps.{is_committed, attempts_used}

-- What a reservation makes of a step's row, with the budget written out: a first row and a row taken over from
-- another token count one attempt more, and need room for it; the token that has the row already resumes it.
pub data Reserved (task_id step_id : String) (token started used max_calls : ℕ)
    : Option StepExecutionRecord → StepExecutionRecord → Type 0 where
  opens :
      used < max_calls
      → Reserved task_id step_id token started used max_calls none (record {
        task_id = task_id;
        step_id = step_id;
        attempt_count = 1;
        last_fencing_token = token;
        result_status = none;
        kind = none;
        evidence_id = none;
        commit_digest = none;
        started_at = started;
        committed_at = none;
      })
  resumes :
      (row : StepExecutionRecord)
      → row.last_fencing_token ≡ token
      → Reserved task_id step_id token started used max_calls (some row) row
  takes_over :
      (row : StepExecutionRecord)
      → row.last_fencing_token ≢ token
      → used < max_calls
      → Reserved task_id step_id token started used max_calls (some row) (record row {
        attempt_count = row.attempt_count + 1;
        last_fencing_token = token;
        started_at = started;
      })

abbrev pub evidence_name : Option EvidenceEnvelope → Option String
evidence_name none = none
evidence_name (some e) = some e.evidence_id

-- What a commit makes of the row in flight: its identity, its count and its token stay, and the outcome of the
-- command is on it.
pub record IsOutcome (c : StepCommitCommand) (digest : String) (committed : ℕ)
    (row new : StepExecutionRecord) : Type 0 where
  pub task_id : new.task_id ≡ row.task_id
  pub step_id : new.step_id ≡ row.step_id
  pub attempt_count : new.attempt_count ≡ row.attempt_count
  pub token : new.last_fencing_token ≡ row.last_fencing_token
  pub started_at : new.started_at ≡ row.started_at
  pub status : new.result_status ≡ some c.status
  pub outcome : new.kind ≡ some c.kind
  pub evidence : new.evidence_id ≡ evidence_name c.evidence
  pub command : new.commit_digest ≡ some digest
  pub committed_at : new.committed_at ≡ some committed

-- Who writes a journal row: a reservation for the grant of `c`, or the commit of its result.
pub data JournalChange (s t : StoreState) : Type 0 where
  rests : t.plans ≡ s.plans → t.step_executions ≡ s.step_executions → JournalChange s t
  reserves :
      (task_id : String) (c : StepAttemptCommand) (started : ℕ) (stored : StoredPlan)
      (row : StepExecutionRecord)
      → lookup task_id s.plans ≡ some stored
      → is_committed (lookup (task_id, c.step_id) s.step_executions) ≡ false
      → Reserved task_id c.step_id c.grant.fencing_token started
          (attempts_used task_id s.step_executions)
          stored.budget.max_tool_calls
          (lookup (task_id, c.step_id) s.step_executions)
          row
      → t.plans ≡ s.plans
      → t.step_executions ≡ insert (task_id, c.step_id) row s.step_executions
      → JournalChange s t
  commits :
      (task_id : String) (c : StepCommitCommand) (row new : StepExecutionRecord) (digest : String)
      (committed : ℕ)
      → lookup (task_id, c.step_id) s.step_executions ≡ some row
      → row.last_fencing_token ≡ c.grant.fencing_token
      → is_set row.result_status ≡ false
      → IsOutcome c digest committed row new
      → t.plans ≡ s.plans
      → t.step_executions ≡ insert (task_id, c.step_id) new s.step_executions
      → JournalChange s t
