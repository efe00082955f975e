-- ===== src/Store/Calls.antt =====
-- Calls of the task store, and what a sequence of them makes of the state. The lock makes every
-- interleaving of workers such a sequence; the arguments carry each read of the clock and each fresh
-- identifier.
use xiaowei_agent.Store.Submit
use xiaowei_agent.Store.Artifacts
use xiaowei_agent.Store.Lease
use xiaowei_agent.Store.Attempt
use xiaowei_agent.Store.Steps
use xiaowei_agent.Contracts.Commands.{
  TaskAttemptGrant, TransitionCommand, TaskAttemptCommand, RetryCommand, StepAttemptCommand,
  StepCommitCommand, SqlQuerySubmitCommand,
}
use xiaowei_agent.Contracts.Platform.{Platform}
use xiaowei_agent.Contracts.Steps.{TraceEvent, ApprovalRequest}
use xiaowei_agent.Contracts.Submission.{ConversationSubmission}
use xiaowei_agent.Prelude.{ℕ, String, List, [], ◌∷◌}
use xiaowei_agent.Store.State.{StoreState}

pub data Call : Type 0 where
  create_task : String → ConversationSubmission → Call
  create_clarification_child : String → ℕ → ConversationSubmission → String → Call
  submit_sql_query : String → String → ℕ → SqlQuerySubmitCommand → Call
  load_sql_for_execution : TaskAttemptGrant → String → String → ℕ → Call
  transition : TransitionCommand → ℕ → Call
  acquire_lease : String → String → ℕ → ℕ → ℕ → Call
  renew_lease : String → String → ℕ → ℕ → ℕ → ℕ → Call
  record_approval : ApprovalRequest → Call
  record_audit_event : TraceEvent → Call
  begin_task_attempt : String → ℕ → TaskAttemptCommand → Call
  schedule_retry : ℕ → RetryCommand → Call
  begin_step_attempt : StepAttemptCommand → ℕ → ℕ → Call
  commit_step_result : StepCommitCommand → ℕ → ℕ → Call

module _ (p : Platform) (limit : ℕ) where
  -- the state that a call leaves, whether it returns or raises
  unfoldable pub after : Call → StoreState → StoreState
  after (Call.create_task id m) s = (Submit.create_task p id m s).1
  after (Call.create_clarification_child id now m owner) s =
      (Submit.create_clarification_child p id now m owner s).1
  after (Call.submit_sql_query id ref now c) s = (Submit.submit_sql_query p id ref now c s).1
  after (Call.load_sql_for_execution g ref hash now) s =
      (Artifacts.load_sql_for_execution g ref hash now s).1
  after (Call.transition c now) s = (Lease.transition c now s).1
  after (Call.acquire_lease id owner ttl now later) s =
      (Lease.acquire_lease id owner ttl now later s).1
  after (Call.renew_lease id owner token ttl now later) s =
      (Lease.renew_lease id owner token ttl now later s).1
  after (Call.record_approval r) s = (Lease.record_approval r s).1
  after (Call.record_audit_event e) s = (Lease.record_audit_event e s).1
  after (Call.begin_task_attempt event_id now c) s =
      (Attempt.begin_task_attempt p limit event_id now c s).1
  after (Call.schedule_retry now c) s = (Attempt.schedule_retry p now c s).1
  after (Call.begin_step_attempt c now started) s = (Steps.begin_step_attempt c now started s).1
  after (Call.commit_step_result c now committed) s =
      (Steps.commit_step_result p c now committed s).1

  unfoldable pub run : List Call → StoreState → StoreState
  run [] s = s
  run (c ∷ cs) s = run cs (after c s)
