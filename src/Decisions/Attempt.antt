-- ===== src/Decisions/Attempt.antt =====
-- persistence/decisions.py: the shared order of refusals before a task attempt is granted.
use xiaowei_agent.Contracts.Enums.{
  TaskStatus, AttemptIntent, TaskAttemptRejection, is_terminal, is_dispatch_status,
  is_approval_resume_status,
}
use xiaowei_agent.Contracts.Task.{TaskRecord}
use xiaowei_agent.Decisions.Lease.{lease_is_live, is_after}
use xiaowei_agent.Prelude.{ℕ, Option, none, some, Bool, not, leb, if◌then◌else◌}

abbrev pub attempt_statuses : AttemptIntent → TaskStatus → Bool
attempt_statuses AttemptIntent.dispatch status = is_dispatch_status status
attempt_statuses AttemptIntent.approval_resume status = is_approval_resume_status status

unfoldable pub classify_task_attempt :
    TaskRecord → AttemptIntent → ℕ → ℕ → Option TaskAttemptRejection
classify_task_attempt r intent now task_failure_limit =
    if is_terminal r.status
    then some TaskAttemptRejection.terminal_protected
    else if not (attempt_statuses intent r.status)
    then some TaskAttemptRejection.not_dispatchable
    else if is_after r.next_attempt_at now
    then some TaskAttemptRejection.retry_not_due
    else if lease_is_live r now
    then some TaskAttemptRejection.live_lease
    else if leb task_failure_limit r.task_failure_count
    then some TaskAttemptRejection.retry_exhausted
    else none
