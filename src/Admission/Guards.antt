-- ===== src/Admission/Guards.antt =====
-- What the admission of a step calls and this development does not model: the hashes of planning/ (SHA-256
-- over canonical JSON) and the query guards of governance/ (which stand on the sqlglot parser). Nothing is
-- assumed of them but what a theorem names. A guard answers with the error that it raises.
use xiaowei_agent.Admission.Contracts.{
  AdmissionError, Scalar, ExecutionPlan, ToolCall, ResolvedTarget,
}
use xiaowei_agent.Dict.{Dict}
use xiaowei_agent.Prelude.{string_eq, nat_eq, String, Option}

pub record Guards : Type 1 where
  pub SqlSurface : Type 0
  pub PromqlSurface : Type 0
  pub ReadonlyPolicy : Type 0
  pub compute_plan_hash : ExecutionPlan → String
  pub compute_target_fingerprint : ResolvedTarget → String
  pub compute_tool_call_hash : ToolCall → String
  -- the typed arguments, the surface, the template's id and the text
  pub verify_sql : Dict String Scalar → SqlSurface → String → String → Option AdmissionError
  pub verify_promql : Dict String Scalar → PromqlSurface → String → String → Option AdmissionError
  -- the text, the hash expected of it and the policy
  pub verify_confirmed_readonly : String → String → ReadonlyPolicy → Option AdmissionError
