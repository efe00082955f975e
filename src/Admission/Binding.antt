-- ===== src/Admission/Binding.antt =====
-- governance/binding.py, governance/approval.py and governance/admission.py. A check answers with the error
-- that it raises.
use Prim.Native.String.{◌++◌}
use xiaowei_agent.Admission.Contracts.{
  EffectClass, BindingRejection, AdmissionError, PlanStep, ExecutionPlan, PolicySnapshot,
  PolicyDecision, ToolCall, ResolvedTarget, AdmissionCertificate,
}
use xiaowei_agent.Admission.Guards.{Guards}
use xiaowei_agent.Admission.Policy.{is_in}
use xiaowei_agent.Contracts.Steps.{ApprovalRequest}
use xiaowei_agent.Contracts.Submission.{RequestContext}
use xiaowei_agent.Prelude.{
  string_eq, nat_eq, leb, if◌then◌else◌, ◌==◌, ℕ, String, not, ◌||◌, Option, none, some,
}

pub data Admit {ℓ} (A : Type ℓ) : Type ℓ where
  gives : A → Admit A
  fails : AdmissionError → Admit A

unfoldable pub verify_policy_revision : PolicySnapshot → ExecutionPlan → Option AdmissionError
verify_policy_revision snapshot plan =
    if not (plan.policy_revision == snapshot.policy_revision)
    then some (AdmissionError.binding BindingRejection.policy_revision_drift)
    else if not (is_in plan.policy_profile snapshot.profiles)
    then some (AdmissionError.binding BindingRejection.policy_revision_drift)
    else none

unfoldable pub approval_ref : String → String → String
approval_ref task_id step_id = task_id ++ ":" ++ step_id

module _ (guards : Guards) where
  -- `now` has a time zone, as every clock of the program gives
  unfoldable pub verify_approval_binding :
      ApprovalRequest → ExecutionPlan → ResolvedTarget → ℕ → Option AdmissionError
  verify_approval_binding approval plan target now =
      if leb approval.expires_at now
      then some (AdmissionError.binding BindingRejection.approval_expired)
      else if not (approval.state == "granted")
      then some (AdmissionError.binding BindingRejection.approval_not_granted)
      else if not (approval.policy_revision == plan.policy_revision)
      then some (AdmissionError.binding BindingRejection.policy_revision_drift)
      else if not (approval.plan_hash == guards.compute_plan_hash plan)
      then some (AdmissionError.binding BindingRejection.plan_drift)
      else if not (approval.target_fingerprint == guards.compute_target_fingerprint target)
      then some (AdmissionError.binding BindingRejection.target_drift)
      else none

  -- `NeverGrantingApprovalGate.require`
  unfoldable pub require :
      String → PlanStep → ExecutionPlan → ResolvedTarget → Option ApprovalRequest → ℕ → Admit String
  require task_id step plan target none now = fails (AdmissionError.approval_required step.step_id)
  require task_id step plan target (some approval) now =
      if not (approval.task_id == task_id) || not (approval.step_id == step.step_id)
      then fails (AdmissionError.binding BindingRejection.plan_drift)
      else elim (verify_approval_binding approval plan target now) [
        | some e ↦ fails e
        | none ↦ gives (approval_ref approval.task_id approval.step_id)
      ]

  unfoldable pub issue_admission_certificate :
      ToolCall
      → RequestContext
      → PolicyDecision
      → EffectClass
      → String
      → String
      → Option String
      → Admit AdmissionCertificate
  issue_admission_certificate call context decision effect_class plan_hash target_fingerprint
        approval =
      if not (decision.policy_revision == context.policy_revision)
      then fails (AdmissionError.binding BindingRejection.policy_revision_drift)
      else gives (record {
        step_id = call.step_id;
        operation = call.operation;
        effect_class = effect_class;
        policy_decision = decision;
        approval_ref = approval;
        plan_hash = plan_hash;
        target_fingerprint = target_fingerprint;
        tool_call_hash = guards.compute_tool_call_hash call;
      })
