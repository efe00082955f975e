-- ===== src/Admission/Conditions.antt =====
-- What the checks of the admission ask for.
use xiaowei_agent.Admission.Binding.{
  verify_policy_revision, approval_ref, require, gives, verify_approval_binding,
}
use xiaowei_agent.Admission.Contracts.{
  effect_eq, read_eq, EffectClass, ReadClass, PlanStep, ExecutionPlan, PolicyProfile,
  PolicySnapshot, ToolCall, ResolvedTarget, OperationSpec, CapabilitySpec, effect_equals_iff,
  read_equals_iff,
}
use xiaowei_agent.Admission.Effects.{
  same_read_class, same_flag, derive_effect, step_matches, verify_steps,
}
use xiaowei_agent.Admission.Guards.{Guards}
use xiaowei_agent.Admission.Policy.{
  is_in, is_allowed, decide, read_class_refused, policy_reason, evaluate_tool_policy,
}
use xiaowei_agent.Contracts.Steps.{ApprovalRequest}
use xiaowei_agent.Contracts.Submission.{RequestContext}
use xiaowei_agent.Prelude.{
  string_eq, nat_eq, ℕ, ◌≤◌, ◌<◌, String, ◌≡◌, ◌↔◌, true, false, Option, none, some, arith, eq_iff,
  refl, Option-cases, inl, inr, Bool, List, [], ◌∷◌,
}

-- the plan stands under the active revision, with a profile that is registered
pub record IsActive (snapshot : PolicySnapshot) (plan : ExecutionPlan) : Type 0 where
  pub revision : plan.policy_revision ≡ snapshot.policy_revision
  pub registered : is_in plan.policy_profile snapshot.profiles ≡ true

pub verify_policy_revision-IsActive :
    (snapshot : PolicySnapshot) (plan : ExecutionPlan)
    → (verify_policy_revision snapshot plan ≡ none) ↔ IsActive snapshot plan
unfolding verify_policy_revision
verify_policy_revision-IsActive snapshot plan =
    let same = eq_iff plan.policy_revision snapshot.policy_revision in
    (
      λ h. record { revision = ground (arith, same, h); registered = ground (arith, same, h) },
      λ a. ground (arith, same, a.revision, a.registered),
    )

same_flag_iff : (x y : Bool) → (same_flag x y ≡ true) ↔ (x ≡ y)
unfolding same_flag
same_flag_iff true y = ground arith
same_flag_iff false y = ground arith

same_read_class_iff : (x y : Option ReadClass) → (same_read_class x y ≡ true) ↔ (x ≡ y)
unfolding same_read_class
same_read_class_iff none none = ground arith
same_read_class_iff none (some y) = ground arith
same_read_class_iff (some x) none = ground arith
same_read_class_iff (some x) (some y) = ground (arith, read_equals_iff x y)

-- the classes of every step are those that the snapshot declares of its operation
abbrev pub IsClassified : List CapabilitySpec → ExecutionPlan → List PlanStep → Type 0
IsClassified snapshot plan [] = Unit
IsClassified snapshot plan (step ∷ steps) =
    ((declared : OperationSpec) × (derive_effect snapshot plan.capability_id plan.capability_version
          step.operation
        ≡ some declared)
      × (step.effect_class ≡ declared.effect_class)
      × (step.side_effect ≡ declared.side_effect)
      × (step.read_class ≡ declared.read_class))
    × IsClassified snapshot plan steps

pub verify_steps-IsClassified :
    (snapshot : List CapabilitySpec) (plan : ExecutionPlan) (steps : List PlanStep)
    → (verify_steps snapshot plan steps ≡ true) ↔ IsClassified snapshot plan steps
unfolding verify_steps step_matches
verify_steps-IsClassified snapshot plan [] = (λ h. tt, λ h. refl)
verify_steps-IsClassified snapshot plan (step ∷ steps) =
    let rest = verify_steps-IsClassified snapshot plan steps in
    elim (Option-cases
      (derive_effect snapshot plan.capability_id plan.capability_version step.operation)) [
        | inl e ↦ (
          λ h. absurd (ground (arith, h, e)),
          λ ((declared, found, x, y, z), more). absurd (ground (arith, found, e)),
        )
        | inr (declared, e) ↦
            let effect = effect_equals_iff step.effect_class declared.effect_class in
            let flag = same_flag_iff step.side_effect declared.side_effect in
            let class = same_read_class_iff step.read_class declared.read_class in
            (
              λ h. (
                (
                  declared,
                  e,
                  ground (arith, h, e, effect),
                  ground (arith, h, e, flag),
                  ground (arith, h, e, class),
                ),
                rest.0 (ground (arith, h, e)),
              ),
              λ ((other, found, x, y, z), more).
                  let same : other ≡ declared = ground (arith, found, e) in
                  ground (arith, e, rest.1 more, effect, flag, class, x, y, z, same),
            )
      ]

-- the profile allows the call
pub record IsPermitted (profile : PolicyProfile) (plan : ExecutionPlan) (call : ToolCall)
    (context : RequestContext) (target : ResolvedTarget) (effect_class : EffectClass)
    (read_class : Option ReadClass) : Type 0 where
  pub profile_id : plan.policy_profile ≡ profile.profile_id
  pub tenant : target.tenant_id ≡ context.tenant_id
  pub environment : target.environment_id ≡ context.environment_id
  pub operation : is_in call.operation profile.allowed_operations ≡ true
  pub effect : is_in effect_class profile.allowed_effect_classes ≡ true
  pub reads : read_class_refused effect_class read_class profile ≡ false
  pub environment_allowed : is_in context.environment_id profile.allowed_environment_ids ≡ true
  pub timeout : call.timeout_seconds ≤ profile.max_timeout_seconds

pub evaluate_tool_policy-IsPermitted :
    (profile : PolicyProfile) (plan : ExecutionPlan) (call : ToolCall) (context : RequestContext)
    (target : ResolvedTarget) (effect_class : EffectClass) (read_class : Option ReadClass)
    → ((evaluate_tool_policy profile plan call context target effect_class read_class).allow ≡ true)
      ↔ IsPermitted profile plan call context target effect_class read_class
unfolding evaluate_tool_policy decide policy_reason is_allowed
evaluate_tool_policy-IsPermitted profile plan call context target effect_class read_class =
    let p = eq_iff plan.policy_profile profile.profile_id in
    let t = eq_iff target.tenant_id context.tenant_id in
    let e = eq_iff target.environment_id context.environment_id in
    (
      λ h. record {
        profile_id = ground (arith, p, h);
        tenant = ground (arith, t, h);
        environment = ground (arith, e, h);
        operation = ground (arith, h);
        effect = ground (arith, h);
        reads = ground (arith, h);
        environment_allowed = ground (arith, h);
        timeout = ground (arith, h);
      },
      λ a. ground (
        arith, p, t, e, a.profile_id, a.tenant, a.environment, a.operation, a.effect, a.reads,
        a.environment_allowed, a.timeout,
      ),
    )

module _ (guards : Guards) where
  -- the approval is for this step of this task, granted, not expired, and given for this plan, target and
  -- revision
  pub record IsBound (task_id : String) (step : PlanStep) (plan : ExecutionPlan)
      (target : ResolvedTarget) (now : ℕ) (approval : ApprovalRequest) : Type 0 where
    pub task : approval.task_id ≡ task_id
    pub step_id : approval.step_id ≡ step.step_id
    pub current : now < approval.expires_at
    pub state : approval.state ≡ "granted"
    pub revision : approval.policy_revision ≡ plan.policy_revision
    pub plan_hash : approval.plan_hash ≡ guards.compute_plan_hash plan
    pub target_fingerprint : approval.target_fingerprint ≡ guards.compute_target_fingerprint target

  pub require-IsBound :
      (task_id : String) (step : PlanStep) (plan : ExecutionPlan) (target : ResolvedTarget)
      (now : ℕ) (approval : Option ApprovalRequest) (reference : String)
      → (require guards task_id step plan target approval now ≡ gives reference) ↔ (
          (granted : ApprovalRequest) × (approval ≡ some granted)
          × IsBound task_id step plan target now granted
          × (reference ≡ approval_ref task_id step.step_id))
  unfolding require verify_approval_binding
  require-IsBound task_id step plan target now none reference =
      (λ h. absurd (ground (arith, h)), λ (g, e, b, r). absurd (ground (arith, e)))
  require-IsBound task_id step plan target now (some approval) reference =
      let t = eq_iff approval.task_id task_id in
      let i = eq_iff approval.step_id step.step_id in
      let s = eq_iff approval.state "granted" in
      let v = eq_iff approval.policy_revision plan.policy_revision in
      let p = eq_iff approval.plan_hash (guards.compute_plan_hash plan) in
      let f = eq_iff approval.target_fingerprint (guards.compute_target_fingerprint target) in
      (
        λ h.
            let b : IsBound task_id step plan target now approval = record {
              task = ground (arith, h, t);
              step_id = ground (arith, h, i);
              current = ground (arith, h);
              state = ground (arith, h, s);
              revision = ground (arith, h, v);
              plan_hash = ground (arith, h, p);
              target_fingerprint = ground (arith, h, f);
            } in
            (approval, refl, b, ground (arith, h, b.task, b.step_id)),
        λ (g, e, b, r). rw r (
            ground (
              arith, e, b.task, b.step_id, b.current, b.state, b.revision, b.plan_hash,
              b.target_fingerprint, t, i, s, v, p, f,
            )),
      )
