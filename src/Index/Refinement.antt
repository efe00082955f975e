-- ===== src/Index/Refinement.antt =====
-- Every call of the task store adds at most one entry to the index.
use xiaowei_agent.Contracts.Commands.{
  TaskAttemptGrant, TransitionCommand, TaskAttemptCommand, RetryCommand, StepAttemptCommand,
  StepCommitCommand,
}
use xiaowei_agent.Contracts.Platform.{Platform}
use xiaowei_agent.Contracts.Steps.{TraceEvent, ApprovalRequest}
use xiaowei_agent.Index.{IndexChange, holds}
use xiaowei_agent.Index.Creation.{SameIndex, create_IndexChange, child_IndexChange, sql_IndexChange}
use xiaowei_agent.Prelude.{string_eq, nat_eq, list_eq, pair_eq, ℕ, String, refl, arith}
use xiaowei_agent.Store.Attempt.{
  terminalize_attempt_rejection, grant_attempt, answer_attempt, begin_task_attempt, schedule_retry,
}
use xiaowei_agent.Store.Calls.{Call, after}
use xiaowei_agent.Store.Lease.{
  transition, acquire_lease, renew_lease, record_approval, record_audit_event,
}
use xiaowei_agent.Store.State.{StoreState}
use xiaowei_agent.Store.Steps.{reserve_attempt, begin_step_attempt, commit_row, commit_step_result}
use xiaowei_agent.Store.Artifacts.{load_sql_for_execution}

module _ (p : Platform) (limit : ℕ) where
  load_holds :
      (g : TaskAttemptGrant) (ref hash : String) (now : ℕ) (s : StoreState)
      → SameIndex s (load_sql_for_execution g ref hash now s).1
  unfolding load_sql_for_execution
  load_holds g ref hash now s = ground arith

  transition_holds :
      (c : TransitionCommand) (now : ℕ) (s : StoreState) → SameIndex s (transition c now s).1
  unfolding transition
  transition_holds c now s = ground arith

  acquire_holds :
      (id owner : String) (ttl now later : ℕ) (s : StoreState)
      → SameIndex s (acquire_lease id owner ttl now later s).1
  unfolding acquire_lease
  acquire_holds id owner ttl now later s = ground arith

  renew_holds :
      (id owner : String) (token ttl now later : ℕ) (s : StoreState)
      → SameIndex s (renew_lease id owner token ttl now later s).1
  unfolding renew_lease
  renew_holds id owner token ttl now later s = ground arith

  event_holds : (e : TraceEvent) (s : StoreState) → SameIndex s (record_audit_event e s).1
  unfolding record_audit_event
  event_holds e s = ground arith

  approval_holds : (r : ApprovalRequest) (s : StoreState) → SameIndex s (record_approval r s).1
  unfolding record_approval
  approval_holds r s = refl

  attempt_holds :
      (event_id : String) (now : ℕ) (c : TaskAttemptCommand) (s : StoreState)
      → SameIndex s (begin_task_attempt p limit event_id now c s).1
  unfolding begin_task_attempt answer_attempt terminalize_attempt_rejection grant_attempt
  attempt_holds event_id now c s = ground arith

  retry_holds :
      (now : ℕ) (c : RetryCommand) (s : StoreState) → SameIndex s (schedule_retry p now c s).1
  unfolding schedule_retry
  retry_holds now c s = ground arith

  step_holds :
      (c : StepAttemptCommand) (now started : ℕ) (s : StoreState)
      → SameIndex s (begin_step_attempt c now started s).1
  unfolding begin_step_attempt reserve_attempt
  step_holds c now started s = ground arith

  commit_holds :
      (c : StepCommitCommand) (now committed : ℕ) (s : StoreState)
      → SameIndex s (commit_step_result p c now committed s).1
  unfolding commit_step_result commit_row
  commit_holds c now committed s = ground arith

  -- Every call of the store, whether it returns or raises, keeps the entries of the index of tasks by
  -- idempotency key, and adds at most one, for a key that had none.
  pub after-IndexChange : (c : Call) (s : StoreState) → IndexChange s (after p limit c s)
  unfolding after
  after-IndexChange (Call.create_task id m) s = create_IndexChange p id m s
  after-IndexChange (Call.create_clarification_child id now m owner) s =
      child_IndexChange p id now m owner s
  after-IndexChange (Call.submit_sql_query id ref now c) s = sql_IndexChange p id ref now c s
  after-IndexChange (Call.load_sql_for_execution g ref hash now) s =
      holds (load_holds g ref hash now s)
  after-IndexChange (Call.transition c now) s = holds (transition_holds c now s)
  after-IndexChange (Call.acquire_lease id owner ttl now later) s =
      holds (acquire_holds id owner ttl now later s)
  after-IndexChange (Call.renew_lease id owner token ttl now later) s =
      holds (renew_holds id owner token ttl now later s)
  after-IndexChange (Call.record_approval r) s = holds (approval_holds r s)
  after-IndexChange (Call.record_audit_event e) s = holds (event_holds e s)
  after-IndexChange (Call.begin_task_attempt event_id now c) s =
      holds (attempt_holds event_id now c s)
  after-IndexChange (Call.schedule_retry now c) s = holds (retry_holds now c s)
  after-IndexChange (Call.begin_step_attempt c now started) s = holds (step_holds c now started s)
  after-IndexChange (Call.commit_step_result c now committed) s =
      holds (commit_holds c now committed s)
