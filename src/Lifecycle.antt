-- ===== src/Lifecycle.antt =====
-- The lifecycle that the task store promises: which writes a task's record can undergo. This is the
-- contract of contracts/task.py and persistence/store.py, stated apart from the code of the store.
pub mod Refinement
pub mod Attempts
pub mod Creation
pub mod Steps
pub mod Invariant
pub mod Evolution
pub mod History
use xiaowei_agent.Contracts.Commands.{RetryCommand}
use xiaowei_agent.Contracts.Enums.{TaskStatus, is_terminal, allowed_transition}
use xiaowei_agent.Contracts.Platform.{Platform}
use xiaowei_agent.Contracts.Submission.{RequestContext}
use xiaowei_agent.Contracts.Task.{TaskRecord}
use xiaowei_agent.Dict.{lookup, insert}
use xiaowei_agent.Prelude.{
  string_eq, ℕ, ◌+◌, ◌<◌, String, ◌≡◌, ◌≢◌, true, false, Option, none, some,
}
use xiaowei_agent.Store.Attempt.{attempted, retried}
use xiaowei_agent.Store.Calls.{Call, after}
use xiaowei_agent.Store.Lease.{leased}
use xiaowei_agent.Store.State.{StoreState}
use xiaowei_agent.Store.Submit.{new_record}

-- One write to a record, `n` and `n'` being the store's next fencing token before and after it.
pub data Write (limit : ℕ) (r r' : TaskRecord) (n n' : ℕ) : Type 0 where
  moves :
      (to : TaskStatus) (reason : Option String)
      → is_terminal r.status ≡ false
      → allowed_transition r.status to ≡ true
      → r' ≡ record r { status = to; version = r.version + 1; terminal_reason = reason }
      → n' ≡ n
      → Write limit r r' n n'
  leases :
      (owner : String) (expires : ℕ)
      → is_terminal r.status ≡ false
      → r' ≡ leased r owner expires n
      → n' ≡ n + 1
      → Write limit r r' n n'
  renews :
      (owner : String) (expires : ℕ) (old token : ℕ)
      → r.lease_owner ≡ some owner
      → r.lease_expires_at ≡ some old
      → r.fencing_token ≡ some token
      → r' ≡ record r { lease_expires_at = some expires }
      → n' ≡ n
      → Write limit r r' n n'
  attempts :
      (owner : String) (expires : ℕ)
      → is_terminal r.status ≡ false
      → r.task_failure_count < limit
      → r' ≡ attempted r owner expires n
      → n' ≡ n + 1
      → Write limit r r' n n'
  retries :
      (command : RetryCommand) (digest : String)
      → is_terminal r.status ≡ false
      → r.lease_owner ≡ some command.grant.lease.owner
      → r.attempt_number ≡ command.grant.attempt_number
      → r.retry_scheduled_by_attempt ≢ some r.attempt_number
      → r' ≡ retried r command digest n
      → n' ≡ n + 1
      → Write limit r r' n n'

-- What one call can do to the tasks of the store.
pub data Change (limit : ℕ) (s t : StoreState) : Type 0 where
  keeps :
      t.tasks ≡ s.tasks
      → t.next_fencing_token ≡ s.next_fencing_token
      → t.next_created_seq ≡ s.next_created_seq
      → Change limit s t
  writes :
      (id : String) (r r' : TaskRecord)
      → lookup id s.tasks ≡ some r
      → Write limit r r' s.next_fencing_token t.next_fencing_token
      → t.tasks ≡ insert id r' s.tasks
      → t.next_created_seq ≡ s.next_created_seq
      → Change limit s t
  makes :
      (id : String) (context : RequestContext) (key digest : String)
      → lookup id s.tasks ≡ none
      → t.tasks ≡ insert id (new_record id context key digest s.next_created_seq) s.tasks
      → t.next_fencing_token ≡ s.next_fencing_token
      → t.next_created_seq ≡ s.next_created_seq + 1
      → Change limit s t

-- Each record is stored under its own id.
abbrev pub IsKeyed : StoreState → Type 0
IsKeyed s = (id : String) (r : TaskRecord) → lookup id s.tasks ≡ some r → r.task_id ≡ id

-- `uuid4()` gives an id that no task has.
abbrev pub IsFresh : Call → StoreState → Type 0
IsFresh (Call.create_task id m) s = lookup id s.tasks ≡ none
IsFresh (Call.create_clarification_child id now m owner) s = lookup id s.tasks ≡ none
IsFresh (Call.submit_sql_query id ref now c) s = lookup id s.tasks ≡ none
IsFresh _ s = Unit

-- A state that calls lead to.
pub data Reach (p : Platform) (limit : ℕ) (s : StoreState) : StoreState → Type 0 where
  here : Reach p limit s s
  calls :
      {t u : StoreState} (c : Call)
      → Reach p limit s t
      → IsFresh c t
      → u ≡ after p limit c t
      → Reach p limit s u
