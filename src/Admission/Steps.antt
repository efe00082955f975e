-- ===== src/Admission/Steps.antt =====
-- `admit_step` of governance/step_admission.py.
use xiaowei_agent.Admission.Binding.{
  Admit, verify_policy_revision, require, issue_admission_certificate, gives, fails,
}
use xiaowei_agent.Admission.Contracts.{
  AdmissionError, PlanStep, ExecutionPlan, OperationSpec, CapabilitySpec, PolicyProfile,
  PolicySnapshot, PolicyDecision, ToolCall, ResolvedTarget, HydratedQuery, AdmissionCertificate,
}
use xiaowei_agent.Admission.Effects.{derive_effect, verify_plan_effects}
use xiaowei_agent.Admission.Guards.{Guards}
use xiaowei_agent.Admission.Policy.{evaluate_tool_policy}
use xiaowei_agent.Admission.Query.{verify_step_query}
use xiaowei_agent.Contracts.Steps.{ApprovalRequest}
use xiaowei_agent.Contracts.Submission.{RequestContext}
use xiaowei_agent.Prelude.{
  string_eq, nat_eq, if◌then◌else◌, ◌==◌, ℕ, String, not, Option, none, some, List, Bool, true,
  false,
}

-- The arguments of `admit_step` that do not change from step to step of a run, and those of one step.
pub record Admission (guards : Guards) : Type 0 where
  pub step : PlanStep
  pub plan : ExecutionPlan
  pub call : ToolCall
  pub context : RequestContext
  pub target : ResolvedTarget
  pub snapshot : List CapabilitySpec
  pub policy_snapshot : PolicySnapshot
  pub profile : PolicyProfile
  pub sql_surface : Option guards.SqlSurface
  pub promql_surface : Option guards.PromqlSurface
  pub task_id : String
  pub now : ℕ
  pub approval : Option ApprovalRequest
  pub hydrated_query : Option HydratedQuery
  pub readonly_policy : Option guards.ReadonlyPolicy

-- the rest of a function, once a check has passed
unfoldable pub after_passing {ℓ} : {A : Type ℓ} → Option AdmissionError → Admit A → Admit A
after_passing none next = next
after_passing (some e) next = fails e

module _ (guards : Guards) where
  unfoldable pub decision_of : Admission guards → OperationSpec → PolicyDecision
  decision_of a declared =
      evaluate_tool_policy a.profile a.plan a.call a.context a.target declared.effect_class
        declared.read_class

  -- `approval_gate.require(...)`, of a side effect only
  unfoldable pub approval_for : Admission guards → Bool → Admit (Option String)
  approval_for a false = gives none
  approval_for a true = elim (require guards a.task_id a.step a.plan a.target a.approval a.now) [
    | fails e ↦ fails e
    | gives reference ↦ gives (some reference)
  ]

  unfoldable pub certify : Admission guards → OperationSpec → Admit AdmissionCertificate
  certify a declared = elim (approval_for a declared.side_effect) [
    | fails e ↦ fails e
    | gives approval ↦
        issue_admission_certificate guards a.call a.context (decision_of a declared)
          declared.effect_class (guards.compute_plan_hash a.plan)
          (guards.compute_target_fingerprint a.target) approval
  ]

  -- what follows once the operation of the step is found
  unfoldable pub admit_declared : Admission guards → OperationSpec → Admit AdmissionCertificate
  admit_declared a declared =
      if not (a.call.gateway == declared.gateway)
      then fails AdmissionError.spec_resolution
      else if not (decision_of a declared).allow
      then fails (AdmissionError.policy_denied (decision_of a declared).reason_code)
      else after_passing
          (verify_step_query guards a.step a.call a.target declared.query_requirement a.sql_surface
            a.promql_surface a.hydrated_query a.readonly_policy)
          (certify a declared)

  unfoldable pub admit_step : Admission guards → Admit AdmissionCertificate
  admit_step a = after_passing (verify_policy_revision a.policy_snapshot a.plan) (
      after_passing (verify_plan_effects a.snapshot a.plan)
        (elim (derive_effect a.snapshot a.plan.capability_id a.plan.capability_version
          a.step.operation) [
            | none ↦ fails AdmissionError.spec_resolution
            | some declared ↦ admit_declared a declared
          ]))
