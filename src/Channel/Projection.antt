-- ===== src/Channel/Projection.antt =====
-- The decisions on a projection: the functions of persistence/channel.py.
use xiaowei_agent.Channel.Contracts.{
  ProjectionState, state_equals, ProjectionSubscription, is_final, ClaimProjectionCommand,
  ProjectionClaimMutation, RecordInitialProjectionCommand, RenewProjectionClaimCommand,
  ScheduleTaskRecheckCommand, ScheduleProviderRetryCommand, CompleteProjectionCommand,
  DeadLetterProjectionCommand, ProjectionUpdateResult,
}
use xiaowei_agent.Contracts.Json.{seconds}
use xiaowei_agent.Contracts.Task.{is_set}
use xiaowei_agent.Decisions.Lease.{is_after}
use xiaowei_agent.Prelude.{
  string_eq, nat_eq, ltb, if◌then◌else◌, ◌is_some_eq◌, ℕ, ◌+◌, max, Bool, true, false, not, ◌&&◌,
  ◌||◌, Option, none, some,
}

abbrev unapplied : ProjectionSubscription → ProjectionUpdateResult
unapplied current = record { applied = false; winner = current }

abbrev applied_to : ProjectionSubscription → ProjectionUpdateResult
applied_to winner = record { applied = true; winner = winner }

-- `claim_owner is not None and claim_expires_at is not None and claim_expires_at > now`
unfoldable pub has_live_claim : ProjectionSubscription → ℕ → Bool
has_live_claim current now = is_set current.claim_owner && is_after current.claim_expires_at now

-- a claimed wait becomes a delivery
unfoldable pub claimed_state : ProjectionState → ProjectionState
claimed_state ProjectionState.waiting_terminal = ProjectionState.delivering_terminal
claimed_state state = state

unfoldable pub claim_projection :
    ProjectionSubscription → ClaimProjectionCommand → ℕ → ℕ → ProjectionUpdateResult
claim_projection current command now fencing_token =
    if is_final current.state
      || not (state_equals current.state command.expected_state)
      || ltb now current.next_attempt_at
      || has_live_claim current now
    then unapplied current
    else applied_to (record current {
      state = claimed_state current.state;
      attempt_number = current.attempt_number + 1;
      claim_owner = some command.claim_owner;
      claim_expires_at = some (now + seconds command.ttl_seconds);
      fencing_token = some fencing_token;
    })

unfoldable pub claim_matches : ProjectionSubscription → ProjectionClaimMutation → ℕ → Bool
claim_matches current command now =
    state_equals current.state command.expected_state
    && ◌is_some_eq◌ current.claim_owner command.claim_owner
    && ◌is_some_eq◌ current.fencing_token command.fencing_token
    && is_after current.claim_expires_at now

abbrev latest : Option ℕ → ℕ → ℕ
latest none t = t
latest (some u) t = max u t

unfoldable pub renew_projection_claim :
    ProjectionSubscription → RenewProjectionClaimCommand → ℕ → ProjectionUpdateResult
renew_projection_claim current command now =
    if not (claim_matches current command.claim now) || not (is_set current.claim_expires_at)
    then unapplied current
    else applied_to (record current {
      claim_expires_at = some (latest current.claim_expires_at (now + seconds command.ttl_seconds));
    })

-- the claim is given back
unfoldable pub released : ProjectionSubscription → ProjectionSubscription
released r = record r { claim_owner = none; claim_expires_at = none; fencing_token = none }

unfoldable pub record_initial_projection :
    ProjectionSubscription → RecordInitialProjectionCommand → ℕ → ProjectionUpdateResult
record_initial_projection current command now =
    if not (state_equals current.state ProjectionState.pending_initial)
      || not (claim_matches current command.claim now)
    then unapplied current
    else applied_to (
        released (record current {
          state =
              if command.task_terminal
              then ProjectionState.completed
              else ProjectionState.waiting_terminal;
          source_message_ref = some command.source_message_ref;
          last_projected_task_version = some command.task_version;
          payload_digest = some command.payload_digest;
          next_attempt_at = command.next_attempt_at;
        }))

unfoldable pub schedule_task_recheck :
    ProjectionSubscription → ScheduleTaskRecheckCommand → ℕ → ProjectionUpdateResult
schedule_task_recheck current command now =
    if not (state_equals current.state ProjectionState.delivering_terminal)
      || not (claim_matches current command.claim now)
    then unapplied current
    else applied_to (
        released (record current {
          state = ProjectionState.waiting_terminal;
          next_attempt_at = command.next_attempt_at;
        }))

-- PENDING_INITIAL or DELIVERING_TERMINAL
unfoldable pub is_deliverable : ProjectionState → Bool
is_deliverable ProjectionState.pending_initial = true
is_deliverable ProjectionState.delivering_terminal = true
is_deliverable _ = false

unfoldable pub schedule_provider_retry :
    ProjectionSubscription → ScheduleProviderRetryCommand → ℕ → ProjectionUpdateResult
schedule_provider_retry current command now =
    if not (is_deliverable current.state) || not (claim_matches current command.claim now)
    then unapplied current
    else applied_to (
        released (record current {
          next_attempt_at = command.next_attempt_at;
          provider_failure_count = current.provider_failure_count + 1;
          last_error_code = some command.error_code;
        }))

unfoldable pub complete_projection :
    ProjectionSubscription → CompleteProjectionCommand → ℕ → ProjectionUpdateResult
complete_projection current command now =
    if not (is_deliverable current.state) || not (claim_matches current command.claim now)
    then unapplied current
    else applied_to (
        released (record current {
          state = ProjectionState.completed;
          source_message_ref = some command.source_message_ref;
          last_projected_task_version = some command.task_version;
          payload_digest = some command.payload_digest;
        }))

unfoldable pub dead_letter_projection :
    ProjectionSubscription → DeadLetterProjectionCommand → ℕ → ProjectionUpdateResult
dead_letter_projection current command now =
    if not (is_deliverable current.state) || not (claim_matches current command.claim now)
    then unapplied current
    else applied_to (
        released (record current {
          state = ProjectionState.dead_letter;
          provider_failure_count = current.provider_failure_count + 1;
          last_error_code = some command.error_code;
        }))
