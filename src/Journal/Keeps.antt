-- ===== src/Journal/Keeps.antt =====
-- The operations of persistence/fake.py that leave the step journal alone.
use xiaowei_agent.Contracts.Commands.{
  TaskAttemptGrant, TransitionCommand, TaskAttemptCommand, RetryCommand, SqlQuerySubmitCommand,
}
use xiaowei_agent.Contracts.Platform.{Platform}
use xiaowei_agent.Contracts.Steps.{TraceEvent, ApprovalRequest}
use xiaowei_agent.Contracts.Submission.{ConversationSubmission}
use xiaowei_agent.Prelude.{
  string_eq, nat_eq, pair_eq, ℕ, String, ◌≡◌, refl, arith, Option, none, some,
}
use xiaowei_agent.Store.Attempt.{
  terminalize_attempt_rejection, grant_attempt, answer_attempt, begin_task_attempt, schedule_retry,
}
use xiaowei_agent.Store.Lease.{
  transition, acquire_lease, renew_lease, record_approval, record_audit_event,
}
use xiaowei_agent.Store.State.{StoreState}
use xiaowei_agent.Store.Artifacts.{load_sql_for_execution, extend_selected_sql}
use xiaowei_agent.Store.Submit.{
  existing_task_for_submission, insert_task, create_task_locked, create_task,
  create_clarification_child, insert_sql_task, submit_found, submit_sql_query, create_child_of,
}

-- The parts of the state that the step journal consists of.
abbrev pub SameJournal : StoreState → StoreState → Type 0
SameJournal s t = (t.plans ≡ s.plans) × (t.step_executions ≡ s.step_executions)

module _ (p : Platform) (limit : ℕ) where
  pub create_task_keeps :
      (id : String) (m : ConversationSubmission) (s : StoreState)
      → SameJournal s (create_task p id m s).1
  unfolding create_task create_task_locked insert_task existing_task_for_submission
  create_task_keeps id m s = ground arith

  child_of_keeps :
      (o : Option String) (id : String) (now : ℕ) (m : ConversationSubmission) (owner : String)
      (s : StoreState)
      → SameJournal s (create_child_of p o id now m owner s).1
  unfolding create_child_of extend_selected_sql create_task_locked insert_task
  child_of_keeps none id now m owner s = (refl, refl)
  child_of_keeps (some parent_id) id now m owner s = ground arith

  pub create_clarification_child_keeps :
      (id : String) (now : ℕ) (m : ConversationSubmission) (owner : String) (s : StoreState)
      → SameJournal s (create_clarification_child p id now m owner s).1
  unfolding create_clarification_child
  create_clarification_child_keeps id now m owner s =
      child_of_keeps m.clarification_parent_task_id id now m owner s

  pub submit_sql_query_keeps :
      (id ref : String) (now : ℕ) (c : SqlQuerySubmitCommand) (s : StoreState)
      → SameJournal s (submit_sql_query p id ref now c s).1
  unfolding submit_sql_query submit_found insert_sql_task insert_task
  submit_sql_query_keeps id ref now c s = ground arith

  pub load_sql_for_execution_keeps :
      (g : TaskAttemptGrant) (ref hash : String) (now : ℕ) (s : StoreState)
      → SameJournal s (load_sql_for_execution g ref hash now s).1
  unfolding load_sql_for_execution
  load_sql_for_execution_keeps g ref hash now s = ground arith

  pub transition_keeps :
      (c : TransitionCommand) (now : ℕ) (s : StoreState) → SameJournal s (transition c now s).1
  unfolding transition
  transition_keeps c now s = ground arith

  pub acquire_lease_keeps :
      (id owner : String) (ttl now later : ℕ) (s : StoreState)
      → SameJournal s (acquire_lease id owner ttl now later s).1
  unfolding acquire_lease
  acquire_lease_keeps id owner ttl now later s = ground arith

  pub renew_lease_keeps :
      (id owner : String) (token ttl now later : ℕ) (s : StoreState)
      → SameJournal s (renew_lease id owner token ttl now later s).1
  unfolding renew_lease
  renew_lease_keeps id owner token ttl now later s = ground arith

  pub record_audit_event_keeps :
      (e : TraceEvent) (s : StoreState) → SameJournal s (record_audit_event e s).1
  unfolding record_audit_event
  record_audit_event_keeps e s = ground arith

  pub record_approval_keeps :
      (r : ApprovalRequest) (s : StoreState) → SameJournal s (record_approval r s).1
  unfolding record_approval
  record_approval_keeps r s = (refl, refl)

  pub begin_task_attempt_keeps :
      (event_id : String) (now : ℕ) (c : TaskAttemptCommand) (s : StoreState)
      → SameJournal s (begin_task_attempt p limit event_id now c s).1
  unfolding begin_task_attempt answer_attempt terminalize_attempt_rejection grant_attempt
  begin_task_attempt_keeps event_id now c s = ground arith

  pub schedule_retry_keeps :
      (now : ℕ) (c : RetryCommand) (s : StoreState) → SameJournal s (schedule_retry p now c s).1
  unfolding schedule_retry
  schedule_retry_keeps now c s = ground arith
