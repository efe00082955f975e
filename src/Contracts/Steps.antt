-- ===== src/Contracts/Steps.antt =====
-- The step journal, evidence, plans, approvals and audit events that the task store keeps.
-- Fields that no modelled code reads are carried as JSON.
use xiaowei_agent.Contracts.Enums.{StepResultStatus, StepOutcomeKind, PipelineStage, StageOutcome}
use xiaowei_agent.Contracts.Json.{Json}
use xiaowei_agent.Prelude.{ℕ, String, Option, List}

pub record TraceEvent : Type 0 where
  pub event_id : String
  pub trace_id : String
  pub task_id : Option String
  pub stage : PipelineStage
  pub outcome : StageOutcome
  pub occurred_at : ℕ
  pub capability_id : Option String
  pub step_id : Option String
  pub policy_revision : Option String
  pub attempt_number : Option ℕ
  pub error : Option Json
  pub detail : Json
  pub model_call : Option Json

-- `body` is the dump of the fields that no modelled code reads.
pub record EvidenceEnvelope : Type 0 where
  pub evidence_id : String
  pub capability_id : String
  pub capability_version : String
  pub body : String

pub record PlanBudget : Type 0 where
  pub max_steps : ℕ
  pub max_tool_calls : ℕ
  pub max_model_tokens : ℕ

-- A stored plan as the step journal reads it: `step_ids` are those of `plan.steps`.
pub record StoredPlan : Type 0 where
  pub capability_id : String
  pub capability_version : String
  pub step_ids : List String
  pub budget : PlanBudget

pub record ApprovalRequest : Type 0 where
  pub task_id : String
  pub step_id : String
  pub plan_hash : String
  pub target_fingerprint : String
  pub policy_revision : String
  pub subject : String
  pub expires_at : ℕ
  pub state : String

pub record StepExecutionRecord : Type 0 where
  pub task_id : String
  pub step_id : String
  pub attempt_count : ℕ
  pub last_fencing_token : ℕ
  pub result_status : Option StepResultStatus
  pub kind : Option StepOutcomeKind
  pub evidence_id : Option String
  pub commit_digest : Option String
  pub started_at : ℕ
  pub committed_at : Option ℕ
