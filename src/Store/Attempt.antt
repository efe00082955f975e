-- ===== src/Store/Attempt.antt =====
-- `begin_task_attempt` and `schedule_retry` of persistence/fake.py. `event_id` is the `uuid4()` of
-- `attempt_terminal_event`; `limit` is the store's `task_failure_limit`.
use xiaowei_agent.Contracts.Commands.{
  TaskAttemptGrant, TaskAttemptCommand, TaskAttemptResult, RetryCommand, RetryResult, ok,
}
use xiaowei_agent.Contracts.Enums.{
  TaskStatus, TaskAttemptRejection, RetryDecision, PipelineStage, StageOutcome, is_terminal,
  is_dispatch_status, attempt_rejection_value,
}
use xiaowei_agent.Contracts.Json.{seconds, obj, end}
use xiaowei_agent.Contracts.Platform.{Platform}
use xiaowei_agent.Contracts.Steps.{TraceEvent}
use xiaowei_agent.Contracts.Submission.{TaskSubmission}
use xiaowei_agent.Contracts.Task.{TaskRecord, LeaseGrant}
use xiaowei_agent.Decisions.Attempt.{classify_task_attempt}
use xiaowei_agent.Decisions.Lease.{grant_is_current}
use xiaowei_agent.Dict.{lookup, insert}
use xiaowei_agent.Digests.{submission_matches_record, retry_command_digest}
use xiaowei_agent.Prelude.{
  string_eq, nat_eq, if◌then◌else◌, ◌==◌, ◌is_some_eq◌, ℕ, ◌+◌, String, Bool, true, false, ◌&&◌,
  Option, none, some, [], ◌∷◌,
}
use xiaowei_agent.Store.State.{StoreState, StoreResult, append_entry, append_all, with_task}

-- `attempt_terminal_event` of persistence/store.py
unfoldable pub attempt_terminal_event : String → TaskAttemptCommand → TaskRecord → ℕ → TraceEvent
attempt_terminal_event event_id command winner now = record {
  event_id = event_id;
  trace_id = command.trace_id;
  task_id = some winner.task_id;
  stage = PipelineStage.lifecycle;
  outcome = StageOutcome.failed;
  occurred_at = now;
  capability_id = none;
  step_id = none;
  policy_revision = none;
  attempt_number = some winner.attempt_number;
  error = none;
  detail = obj end;
  model_call = none;
}

abbrev pub failed_record : TaskRecord → TaskAttemptRejection → TaskRecord
failed_record r rejection = record r {
  status = TaskStatus.failed;
  version = r.version + 1;
  terminal_reason = some (attempt_rejection_value rejection);
}

unfoldable pub terminalize_attempt_rejection :
    String
    → TaskRecord
    → TaskAttemptCommand
    → TaskAttemptRejection
    → ℕ
    → StoreState
    → StoreResult TaskAttemptResult
terminalize_attempt_rejection event_id current command rejection now s =
    let winner = failed_record current rejection in
    let event = attempt_terminal_event event_id command winner now in
    (
      ok (record {
        applied = false;
        winner = winner;
        grant = none;
        submission = none;
        rejection = some rejection;
        committed_audit_events = event ∷ [];
      }),
      record s {
        tasks = insert current.task_id winner s.tasks;
        audit_events = append_entry s.audit_events current.task_id event;
      },
    )

abbrev pub attempted : TaskRecord → String → ℕ → ℕ → TaskRecord
attempted r owner expires token = record r {
  attempt_number = r.attempt_number + 1;
  next_attempt_at = none;
  lease_owner = some owner;
  lease_expires_at = some expires;
  fencing_token = some token;
}

unfoldable pub grant_attempt :
    TaskRecord
    → TaskAttemptCommand
    → TaskSubmission
    → ℕ
    → StoreState
    → StoreResult TaskAttemptResult
grant_attempt current command submission now s =
    let token = s.next_fencing_token in
    let expires_at = now + seconds command.ttl_seconds in
    let winner = attempted current command.owner expires_at token in
    let lease : LeaseGrant = record {
      task_id = current.task_id;
      owner = command.owner;
      expires_at = expires_at;
      fencing_token = token;
    } in
    (
      ok (record {
        applied = true;
        winner = winner;
        grant = some (record { lease = lease; attempt_number = winner.attempt_number });
        submission = some submission;
        rejection = none;
        committed_audit_events = [];
      }),
      record s {
        tasks = insert current.task_id winner s.tasks;
        next_fencing_token = s.next_fencing_token + 1;
      },
    )

-- the submission of a task, if it is stored and still matches the record
unfoldable pub intact_submission : Platform → TaskRecord → StoreState → Option TaskSubmission
intact_submission p current s = elim (lookup current.task_id s.submissions) [
  | none ↦ none
  | some submission ↦ elim (lookup current.task_id s.submission_digests) [
    | none ↦ none
    | some stored_digest ↦
        if submission_matches_record p current submission stored_digest
        then some submission
        else none
  ]
]

abbrev pub attempt_rejected : TaskRecord → TaskAttemptRejection → TaskAttemptResult
attempt_rejected current rejection = record {
  applied = false;
  winner = current;
  grant = none;
  submission = none;
  rejection = some rejection;
  committed_audit_events = [];
}

-- `classify_task_attempt` has answered
unfoldable pub answer_attempt :
    Platform
    → String
    → TaskRecord
    → TaskAttemptCommand
    → ℕ
    → StoreState
    → Option TaskAttemptRejection
    → StoreResult TaskAttemptResult
unfolding terminalize_attempt_rejection grant_attempt
answer_attempt p event_id current command now s (some TaskAttemptRejection.retry_exhausted) =
    terminalize_attempt_rejection event_id current command TaskAttemptRejection.retry_exhausted now
      s
answer_attempt p event_id current command now s (some rejection) =
    (ok (attempt_rejected current rejection), s)
answer_attempt p event_id current command now s none = elim (intact_submission p current s) [
  | none ↦
      terminalize_attempt_rejection event_id current command
        TaskAttemptRejection.submission_invariant_violation now s
  | some submission ↦ grant_attempt current command submission now s
]

unfoldable pub begin_task_attempt :
    Platform → ℕ → String → ℕ → TaskAttemptCommand → StoreState → StoreResult TaskAttemptResult
unfolding answer_attempt
begin_task_attempt p limit event_id now command s = with_task command.task_id s λ current.
    answer_attempt p event_id current command now s
      (classify_task_attempt current command.intent now limit)

abbrev pub retried : TaskRecord → RetryCommand → String → ℕ → TaskRecord
retried r command digest token = record r {
  version = r.version + 1;
  task_failure_count = r.task_failure_count + 1;
  next_attempt_at = some command.next_attempt_at;
  retry_scheduled_by_attempt = some command.grant.attempt_number;
  retry_command_digest = some digest;
  lease_expires_at = some command.next_attempt_at;
  fencing_token = some token;
}

abbrev answered : RetryDecision → TaskRecord → StoreState → StoreResult RetryResult
answered decision winner s = (ok (record { decision = decision; winner = winner }), s)

-- this attempt has already scheduled its retry
abbrev pub is_marked : TaskRecord → TaskAttemptGrant → Bool
is_marked r grant =
    ◌is_some_eq◌ r.retry_scheduled_by_attempt grant.attempt_number
    && r.attempt_number == grant.attempt_number

unfoldable pub schedule_retry : Platform → ℕ → RetryCommand → StoreState → StoreResult RetryResult
schedule_retry p now command s =
    let digest = retry_command_digest p command in
    with_task command.grant.task_id s λ current.
      if is_terminal current.status
      then answered RetryDecision.terminal_protected current s
      else if is_marked current command.grant
      then answered
          (if ◌is_some_eq◌ current.retry_command_digest digest
            then RetryDecision.already_scheduled
            else RetryDecision.command_mismatch)
          current s
      else elim (grant_is_current current command.grant now is_dispatch_status) [
        | some rejection ↦ answered RetryDecision.stale_fencing current s
        | none ↦
            let token = s.next_fencing_token in
            let winner = retried current command digest token in
            answered RetryDecision.scheduled winner (record s {
              tasks = insert current.task_id winner s.tasks;
              next_fencing_token = s.next_fencing_token + 1;
              audit_events = append_all s.audit_events current.task_id command.audit_events;
            })
      ]
