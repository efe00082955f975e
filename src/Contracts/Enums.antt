-- ===== src/Contracts/Enums.antt =====
-- contracts/enums.py, and the status sets and the transition table of contracts/task.py.
-- A frozenset of statuses is its membership test.
use xiaowei_agent.Prelude.{Bool, true, false, String}

pub data TaskStatus : Type 0 where
  created planning running awaiting_approval clarification_required : TaskStatus
  succeeded failed rejected canceled indeterminate : TaskStatus

pub data AttemptIntent : Type 0 where
  dispatch approval_resume : AttemptIntent

pub data TaskAttemptRejection : Type 0 where
  live_lease not_dispatchable retry_not_due terminal_protected : TaskAttemptRejection
  retry_exhausted submission_invariant_violation : TaskAttemptRejection

pub data GrantRejection : Type 0 where
  terminal_protected status_not_allowed lease_not_held stale_fencing : GrantRejection

pub data TransitionRejection : Type 0 where
  version_mismatch illegal_transition terminal_protected : TransitionRejection
  stale_fencing_token lease_not_held : TransitionRejection

pub data RetryDecision : Type 0 where
  scheduled already_scheduled command_mismatch stale_fencing terminal_protected : RetryDecision

pub data RetryReason : Type 0 where
  unclassified_error : RetryReason

pub data StepAttemptDecision : Type 0 where
  proceed already_committed stale_fencing not_runnable unknown_step : StepAttemptDecision
  budget_exhausted : StepAttemptDecision

pub data StepCommitRejection : Type 0 where
  stale_fencing not_runnable already_committed_different no_attempt_in_flight : StepCommitRejection

pub data StepOutcomeKind : Type 0 where
  tool_result malformed_adapter : StepOutcomeKind

pub data StepResultStatus : Type 0 where
  ok failed timeout skipped : StepResultStatus

pub data Channel : Type 0 where
  api cli web feishu : Channel

pub data PipelineStage : Type 0 where
  intent model resolver planner disclosure admission gateway evidence : PipelineStage
  reflection rendering lifecycle : PipelineStage

pub data StageOutcome : Type 0 where
  ok rejected failed skipped : StageOutcome

-- TERMINAL_STATUSES
abbrev pub is_terminal : TaskStatus → Bool
is_terminal TaskStatus.succeeded = true
is_terminal TaskStatus.failed = true
is_terminal TaskStatus.rejected = true
is_terminal TaskStatus.canceled = true
is_terminal TaskStatus.indeterminate = true
is_terminal TaskStatus.clarification_required = true
is_terminal _ = false

-- ALLOWED_TRANSITIONS: `to in ALLOWED_TRANSITIONS[status]`
unfoldable pub allowed_transition : TaskStatus → TaskStatus → Bool
allowed_transition TaskStatus.created TaskStatus.planning = true
allowed_transition TaskStatus.created TaskStatus.canceled = true
allowed_transition TaskStatus.created TaskStatus.failed = true
allowed_transition TaskStatus.created TaskStatus.rejected = true
allowed_transition TaskStatus.created TaskStatus.clarification_required = true
allowed_transition TaskStatus.planning TaskStatus.running = true
allowed_transition TaskStatus.planning TaskStatus.failed = true
allowed_transition TaskStatus.planning TaskStatus.canceled = true
allowed_transition TaskStatus.planning TaskStatus.rejected = true
allowed_transition TaskStatus.planning TaskStatus.clarification_required = true
allowed_transition TaskStatus.running TaskStatus.awaiting_approval = true
allowed_transition TaskStatus.running TaskStatus.succeeded = true
allowed_transition TaskStatus.running TaskStatus.failed = true
allowed_transition TaskStatus.running TaskStatus.canceled = true
allowed_transition TaskStatus.running TaskStatus.indeterminate = true
allowed_transition TaskStatus.running TaskStatus.rejected = true
allowed_transition TaskStatus.awaiting_approval TaskStatus.running = true
allowed_transition TaskStatus.awaiting_approval TaskStatus.rejected = true
allowed_transition TaskStatus.awaiting_approval TaskStatus.canceled = true
allowed_transition TaskStatus.awaiting_approval TaskStatus.failed = true
allowed_transition _ _ = false

-- `status in _DISPATCH_STATUSES`
abbrev pub is_dispatch_status : TaskStatus → Bool
is_dispatch_status TaskStatus.created = true
is_dispatch_status TaskStatus.planning = true
is_dispatch_status TaskStatus.running = true
is_dispatch_status _ = false

-- `status in _APPROVAL_RESUME_STATUSES`
abbrev pub is_approval_resume_status : TaskStatus → Bool
is_approval_resume_status TaskStatus.awaiting_approval = true
is_approval_resume_status _ = false

-- `status in {TaskStatus.RUNNING}`
abbrev pub is_running : TaskStatus → Bool
is_running TaskStatus.running = true
is_running _ = false

abbrev pub is_clarification_required : TaskStatus → Bool
is_clarification_required TaskStatus.clarification_required = true
is_clarification_required _ = false

-- `TaskAttemptRejection.value`
abbrev pub attempt_rejection_value : TaskAttemptRejection → String
attempt_rejection_value TaskAttemptRejection.live_lease = "live_lease"
attempt_rejection_value TaskAttemptRejection.not_dispatchable = "not_dispatchable"
attempt_rejection_value TaskAttemptRejection.retry_not_due = "retry_not_due"
attempt_rejection_value TaskAttemptRejection.terminal_protected = "terminal_protected"
attempt_rejection_value TaskAttemptRejection.retry_exhausted = "retry_exhausted"
attempt_rejection_value TaskAttemptRejection.submission_invariant_violation =
    "submission_invariant_violation"

-- `StepResultStatus.value`
abbrev pub result_status_value : StepResultStatus → String
result_status_value StepResultStatus.ok = "step_ok"
result_status_value StepResultStatus.failed = "step_failed"
result_status_value StepResultStatus.timeout = "step_timeout"
result_status_value StepResultStatus.skipped = "step_skipped"

-- `StepOutcomeKind.value`
abbrev pub outcome_kind_value : StepOutcomeKind → String
outcome_kind_value StepOutcomeKind.tool_result = "tool_result"
outcome_kind_value StepOutcomeKind.malformed_adapter = "malformed_adapter"

-- `RetryReason.value`
abbrev pub retry_reason_value : RetryReason → String
retry_reason_value RetryReason.unclassified_error = "unclassified_error"

-- `Channel.value`
abbrev pub channel_value : Channel → String
channel_value Channel.api = "api"
channel_value Channel.cli = "cli"
channel_value Channel.web = "web"
channel_value Channel.feishu = "feishu"
