-- ===== src/Contracts/Submission.antt =====
-- contracts/request.py, and the submissions of contracts/task.py.
use xiaowei_agent.Contracts.Enums.{Channel}
use xiaowei_agent.Prelude.{ℕ, String, Option}

pub record RequestEnvelope : Type 0 where
  pub request_id : String
  pub tenant_id : String
  pub actor : String
  pub channel : Channel
  pub text : String
  pub idempotency_key : String
  pub environment_id : Option String

pub record RequestContext : Type 0 where
  pub tenant_id : String
  pub actor : String
  pub environment_id : String
  pub trace_id : String
  pub policy_revision : String

pub record ConversationSubmission : Type 0 where
  pub envelope : RequestEnvelope
  pub context : RequestContext
  pub as_of : ℕ
  pub clarification_parent_task_id : Option String

pub record ArtifactSubmission : Type 0 where
  pub context : RequestContext
  pub as_of : ℕ
  pub sql_ref : String
  pub sql_hash : String

-- The union is told apart by `input_kind`.
pub data TaskSubmission : Type 0 where
  conversation : ConversationSubmission → TaskSubmission
  sql_artifact : ArtifactSubmission → TaskSubmission

-- `submission.context`
abbrev pub context_of : TaskSubmission → RequestContext
context_of (conversation s) = s.context
context_of (sql_artifact s) = s.context
