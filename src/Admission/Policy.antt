-- ===== src/Admission/Policy.antt =====
-- `evaluate_tool_policy` of governance/policy.py.
use xiaowei_agent.Admission.Contracts.{
  effect_eq, read_eq, EffectClass, ReadClass, PolicyReason, ExecutionPlan, PolicyProfile,
  PolicyDecision, ToolCall, ResolvedTarget,
}
use xiaowei_agent.Contracts.Submission.{RequestContext}
use xiaowei_agent.Contracts.Task.{is_set}
use xiaowei_agent.Prelude.{
  string_eq, nat_eq, ltb, if◌then◌else◌, Comparable, ◌==◌, String, Bool, true, false, not, ◌||◌,
  Option, none, some, List, [], ◌∷◌,
}

-- `x in xs`
abbrev pub is_in {ℓ} : {A : Type ℓ} ⦃cmp : Comparable A⦄ → A → List A → Bool
is_in x [] = false
is_in x (y ∷ ys) = (y == x) || is_in x ys

unfoldable pub is_allowed : PolicyReason → Bool
is_allowed PolicyReason.allowed = true
is_allowed _ = false

unfoldable pub decide : PolicyProfile → PolicyReason → String → PolicyDecision
decide profile reason revision = record {
  allow = is_allowed reason;
  reason_code = reason;
  risk = profile.risk;
  policy_revision = revision;
}

-- `read_class in profile.allowed_read_classes`
unfoldable pub read_class_in : Option ReadClass → List ReadClass → Bool
read_class_in none classes = false
read_class_in (some c) classes = is_in c classes

-- whether the read class is refused: one that is not allowed of a read, and any of another effect
unfoldable pub read_class_refused : EffectClass → Option ReadClass → PolicyProfile → Bool
read_class_refused effect_class read_class profile =
    if effect_class == EffectClass.read
    then not (read_class_in read_class profile.allowed_read_classes)
    else is_set read_class

unfoldable pub policy_reason :
    PolicyProfile
    → ExecutionPlan
    → ToolCall
    → RequestContext
    → ResolvedTarget
    → EffectClass
    → Option ReadClass
    → PolicyReason
policy_reason profile plan call context target effect_class read_class =
    if not (plan.policy_profile == profile.profile_id)
    then PolicyReason.profile_mismatch
    else if not (target.tenant_id == context.tenant_id)
    then PolicyReason.tenant_mismatch
    else if not (target.environment_id == context.environment_id)
    then PolicyReason.environment_mismatch
    else if not (is_in call.operation profile.allowed_operations)
    then PolicyReason.operation_not_allowed
    else if not (is_in effect_class profile.allowed_effect_classes)
    then PolicyReason.effect_class_not_allowed
    else if read_class_refused effect_class read_class profile
    then PolicyReason.read_class_not_allowed
    else if not (is_in context.environment_id profile.allowed_environment_ids)
    then PolicyReason.environment_not_allowed
    else if ltb profile.max_timeout_seconds call.timeout_seconds
    then PolicyReason.timeout_exceeds_profile
    else PolicyReason.allowed

unfoldable pub evaluate_tool_policy :
    PolicyProfile
    → ExecutionPlan
    → ToolCall
    → RequestContext
    → ResolvedTarget
    → EffectClass
    → Option ReadClass
    → PolicyDecision
evaluate_tool_policy profile plan call context target effect_class read_class =
    decide profile (policy_reason profile plan call context target effect_class read_class)
      context.policy_revision
