-- ===== src/Channel/Contracts.antt =====
-- The subscription of a projection, and the commands on it (persistence/channel.py).
use xiaowei_agent.Contracts.Task.{is_set}
use xiaowei_agent.Prelude.{
  string_eq, nat_eq, ltb, ℕ, String, Bool, true, false, not, ◌&&◌, ◌||◌, Option,
}

pub data DestinationKind : Type 0 where
  feishu_message_card feishu_private_notice : DestinationKind

pub data ProjectionState : Type 0 where
  pending_initial waiting_terminal delivering_terminal completed dead_letter : ProjectionState

pub data ProjectionErrorCode : Type 0 where
  provider_rate_limited provider_timeout provider_unavailable provider_unauthorized :
      ProjectionErrorCode
  provider_forbidden provider_invalid_payload provider_internal : ProjectionErrorCode

abbrev pub state_equals : ProjectionState → ProjectionState → Bool
state_equals ProjectionState.pending_initial ProjectionState.pending_initial = true
state_equals ProjectionState.waiting_terminal ProjectionState.waiting_terminal = true
state_equals ProjectionState.delivering_terminal ProjectionState.delivering_terminal = true
state_equals ProjectionState.completed ProjectionState.completed = true
state_equals ProjectionState.dead_letter ProjectionState.dead_letter = true
state_equals _ _ = false

pub record ProjectionSubscription : Type 0 where
  pub subscription_id : String
  pub task_id : String
  pub destination_kind : DestinationKind
  pub destination_ref : String
  pub source_message_ref : Option String
  pub state : ProjectionState
  pub last_projected_task_version : Option ℕ
  pub attempt_number : ℕ
  pub claim_owner : Option String
  pub claim_expires_at : Option ℕ
  pub fencing_token : Option ℕ
  pub next_attempt_at : ℕ
  pub provider_failure_count : ℕ
  pub last_error_code : Option ProjectionErrorCode
  pub payload_digest : Option String

-- COMPLETED or DEAD_LETTER
abbrev pub is_final : ProjectionState → Bool
is_final ProjectionState.completed = true
is_final ProjectionState.dead_letter = true
is_final _ = false

abbrev same : Bool → Bool → Bool
same true b = b
same false b = not b

abbrev is_complete : ProjectionState → Bool
is_complete ProjectionState.completed = true
is_complete _ = false

-- `_fields_are_consistent`
unfoldable pub fields_are_consistent : ProjectionSubscription → Bool
fields_are_consistent r =
    let claimed = is_set r.claim_owner in
    let projected = is_set r.last_projected_task_version in
    same claimed (is_set r.claim_expires_at)
    && same claimed (is_set r.fencing_token)
    && not (is_final r.state && claimed)
    && same projected (is_set r.payload_digest)
    && same (ltb 0 r.provider_failure_count) (is_set r.last_error_code)
    && not (is_complete r.state && (not projected || not (is_set r.source_message_ref)))

pub record CreateProjectionSubscriptionCommand : Type 0 where
  pub task_id : String
  pub destination_kind : DestinationKind
  pub destination_ref : String
  pub initial_state : ProjectionState
  pub next_attempt_at : ℕ

pub record ClaimProjectionCommand : Type 0 where
  pub subscription_id : String
  pub claim_owner : String
  pub ttl_seconds : ℕ
  pub expected_state : ProjectionState

pub record ProjectionClaimMutation : Type 0 where
  pub subscription_id : String
  pub claim_owner : String
  pub fencing_token : ℕ
  pub expected_state : ProjectionState

pub record RecordInitialProjectionCommand : Type 0 where
  pub claim : ProjectionClaimMutation
  pub source_message_ref : String
  pub task_version : ℕ
  pub payload_digest : String
  pub task_terminal : Bool
  pub next_attempt_at : ℕ

pub record RenewProjectionClaimCommand : Type 0 where
  pub claim : ProjectionClaimMutation
  pub ttl_seconds : ℕ

pub record ScheduleTaskRecheckCommand : Type 0 where
  pub claim : ProjectionClaimMutation
  pub next_attempt_at : ℕ

pub record ScheduleProviderRetryCommand : Type 0 where
  pub claim : ProjectionClaimMutation
  pub next_attempt_at : ℕ
  pub error_code : ProjectionErrorCode

pub record CompleteProjectionCommand : Type 0 where
  pub claim : ProjectionClaimMutation
  pub source_message_ref : String
  pub task_version : ℕ
  pub payload_digest : String

pub record DeadLetterProjectionCommand : Type 0 where
  pub claim : ProjectionClaimMutation
  pub error_code : ProjectionErrorCode

pub record ProjectionUpdateResult : Type 0 where
  pub applied : Bool
  pub winner : ProjectionSubscription
