-- ===== src/Contracts/Task.antt =====
-- The records and results of contracts/task.py that the task store keeps and returns.
-- A validator of a contract is a Boolean function beside it.
use xiaowei_agent.Contracts.Enums.{TaskStatus, TransitionRejection}
use xiaowei_agent.Contracts.Submission.{TaskSubmission}
use xiaowei_agent.Prelude.{ℕ, String, Option, none, some, Bool, true, false, ◌&&◌, List, leb}

pub record TaskRecord : Type 0 where
  pub task_id : String
  pub tenant_id : String
  pub environment_id : String
  pub actor : String
  pub idempotency_key : String
  pub request_digest : String
  pub status : TaskStatus
  pub version : ℕ
  pub created_seq : ℕ
  pub attempt_number : ℕ
  pub task_failure_count : ℕ
  pub next_attempt_at : Option ℕ
  pub retry_scheduled_by_attempt : Option ℕ
  pub retry_command_digest : Option String
  pub lease_owner : Option String
  pub lease_expires_at : Option ℕ
  pub fencing_token : Option ℕ
  pub terminal_reason : Option String

-- `value is not None`
abbrev pub is_set {ℓ} : {A : Type ℓ} → Option A → Bool
is_set none = false
is_set (some a) = true

abbrev pub both_or_neither : Bool → Bool → Bool
both_or_neither true b = b
both_or_neither false true = false
both_or_neither false false = true

-- TaskRecord._lease_fields_are_consistent
abbrev pub lease_fields_are_consistent : TaskRecord → Bool
lease_fields_are_consistent r =
    both_or_neither (is_set r.lease_owner) (is_set r.lease_expires_at)
    && both_or_neither (is_set r.lease_owner) (is_set r.fencing_token)

abbrev pub not_future : Option ℕ → ℕ → Bool
not_future none n = true
not_future (some a) n = leb a n

-- TaskRecord._retry_marker_fields_are_consistent
abbrev pub retry_marker_fields_are_consistent : TaskRecord → Bool
retry_marker_fields_are_consistent r =
    both_or_neither (is_set r.retry_scheduled_by_attempt) (is_set r.retry_command_digest)
    && not_future r.retry_scheduled_by_attempt r.attempt_number

pub record LeaseGrant : Type 0 where
  pub task_id : String
  pub owner : String
  pub expires_at : ℕ
  pub fencing_token : ℕ

pub record TransitionResult : Type 0 where
  pub applied : Bool
  pub winner : TaskRecord
  pub rejection : Option TransitionRejection

pub record StoredTaskRead : Type 0 where
  pub record_ : TaskRecord
  pub submission : TaskSubmission

pub record StoredTaskPage : Type 0 where
  pub items : List StoredTaskRead
  pub next_created_seq : Option ℕ

pub record TaskLookup : Type 0 where
  pub task_id : String
  pub tenant_id : String
  pub environment_id : String

-- ActorTaskPageQuery; ScopeTaskPageQuery is the one without an actor
pub record TaskPageQuery : Type 0 where
  pub tenant_id : String
  pub environment_id : String
  pub actor : Option String
  pub before_created_seq : Option ℕ
  pub limit : ℕ
