-- ===== src/Contracts/Commands.antt =====
-- The command and result contracts of persistence/store.py, and its closed set of errors.
use xiaowei_agent.Contracts.Enums.{
  TaskStatus, AttemptIntent, TaskAttemptRejection, GrantRejection, RetryDecision, RetryReason,
  StepAttemptDecision, StepCommitRejection, StepOutcomeKind, StepResultStatus,
}
use xiaowei_agent.Contracts.Steps.{TraceEvent, EvidenceEnvelope, StepExecutionRecord}
use xiaowei_agent.Contracts.Submission.{TaskSubmission, RequestContext}
use xiaowei_agent.Contracts.Task.{TaskRecord, LeaseGrant}
use xiaowei_agent.Prelude.{ℕ, String, Option, List, Bool, ◌≡◌, refl, ◌⊎◌, inl, inr}

pub data SqlArtifactUnavailableReason : Type 0 where
  not_found scope_mismatch hash_mismatch : SqlArtifactUnavailableReason

-- The exceptions that an operation of the store raises.
pub data StoreError : Type 0 where
  task_not_found : String → StoreError
  idempotency_conflict context_mismatch clarification_parent_required : StoreError
  unscoped_audit_event : StoreError
  grant_not_current : GrantRejection → StoreError
  sql_artifact_unavailable : SqlArtifactUnavailableReason → StoreError
  sql_artifact_expired : StoreError
  step_commit_has_no_stored_plan evidence_does_not_match_plan : StoreError
  different_evidence_exists key_error stale_lease_sort_key_requires_lease : StoreError

pub data Result {ℓ} (A : Type ℓ) : Type ℓ where
  ok : A → Result A
  err : StoreError → Result A

pub Result-cases {ℓ} :
    {A : Type ℓ} (r : Result A) → ((e : StoreError) × (r ≡ err e)) ⊎ ((a : A) × (r ≡ ok a))
Result-cases (ok a) = inr (a, refl)
Result-cases (err e) = inl (e, refl)

pub record TaskAttemptGrant : Type 0 where
  pub lease : LeaseGrant
  pub open lease use {task_id, fencing_token}
  pub attempt_number : ℕ

pub record TransitionCommand : Type 0 where
  pub task_id : String
  pub expected_version : ℕ
  pub to_status : TaskStatus
  pub fencing_token : Option ℕ
  pub terminal_reason : Option String
  pub audit_events : List TraceEvent

pub record DispatchQuery : Type 0 where
  pub tenant_id : String
  pub environment_id : String
  pub limit : ℕ

pub record TaskAttemptCommand : Type 0 where
  pub task_id : String
  pub intent : AttemptIntent
  pub owner : String
  pub ttl_seconds : ℕ
  pub trace_id : String

pub record TaskAttemptResult : Type 0 where
  pub applied : Bool
  pub winner : TaskRecord
  pub grant : Option TaskAttemptGrant
  pub submission : Option TaskSubmission
  pub rejection : Option TaskAttemptRejection
  pub committed_audit_events : List TraceEvent

pub record RetryCommand : Type 0 where
  pub grant : TaskAttemptGrant
  pub next_attempt_at : ℕ
  pub reason : RetryReason
  pub audit_events : List TraceEvent

pub record RetryResult : Type 0 where
  pub decision : RetryDecision
  pub winner : TaskRecord

pub record StepAttemptCommand : Type 0 where
  pub grant : TaskAttemptGrant
  pub step_id : String

pub record StepAttemptResult : Type 0 where
  pub decision : StepAttemptDecision
  pub winner : TaskRecord
  pub record_ : Option StepExecutionRecord
  pub attempts_used : ℕ

pub record StepCommitCommand : Type 0 where
  pub grant : TaskAttemptGrant
  pub step_id : String
  pub kind : StepOutcomeKind
  pub status : StepResultStatus
  pub evidence : Option EvidenceEnvelope
  pub audit_events : List TraceEvent

pub record StepCommitResult : Type 0 where
  pub committed : Bool
  pub winner : TaskRecord
  pub record_ : Option StepExecutionRecord
  pub rejection : Option StepCommitRejection

pub record SqlArtifactRecord : Type 0 where
  pub sql_ref : String
  pub sql_hash : String
  pub sql_bytes : Option String
  pub requester : String
  pub tenant_id : String
  pub environment_id : String
  pub created_at : ℕ
  pub expires_at : ℕ
  pub purged_at : Option ℕ

pub record SqlArtifactRef : Type 0 where
  pub sql_ref : String
  pub sql_hash : String

pub data SqlSubmitOutcome : Type 0 where
  created replayed idempotency_conflict : SqlSubmitOutcome

pub record SqlQuerySubmitCommand : Type 0 where
  pub context : RequestContext
  pub sql_bytes : String
  pub idempotency_key : String
  pub as_of : ℕ

pub record SqlQuerySubmitResult : Type 0 where
  pub outcome : SqlSubmitOutcome
  pub task : Option TaskRecord
