-- ===== src/Admission/Effects.antt =====
-- `derive_effect` and `verify_plan_effects` of capabilities/effect.py. A snapshot is its specs; `none` is
-- SpecResolutionError.
use xiaowei_agent.Admission.Contracts.{
  effect_eq, read_eq, ReadClass, AdmissionError, PlanStep, ExecutionPlan, OperationSpec,
  CapabilitySpec,
}
use xiaowei_agent.Prelude.{
  string_eq, nat_eq, if◌then◌else◌, ◌==◌, String, Bool, true, false, not, ◌&&◌, ◌||◌, Option, none,
  some, List, [], ◌∷◌,
}

-- `read_class is not declared.read_class`, where either may be None
unfoldable pub same_read_class : Option ReadClass → Option ReadClass → Bool
same_read_class none none = true
same_read_class (some x) (some y) = x == y
same_read_class _ _ = false

unfoldable pub same_flag : Bool → Bool → Bool
same_flag true b = b
same_flag false b = not b

unfoldable pub find_operation : List OperationSpec → String → Option OperationSpec
find_operation [] operation = none
find_operation (op ∷ ops) operation =
    let rest = find_operation ops operation in if op.operation == operation then some op else rest

unfoldable pub derive_effect : List CapabilitySpec → String → String → String → Option OperationSpec
derive_effect [] capability_id capability_version operation = none
derive_effect (spec ∷ specs) capability_id capability_version operation =
    let rest = derive_effect specs capability_id capability_version operation in
    if not (spec.capability_id == capability_id) || not (spec.version == capability_version)
    then rest
    else find_operation spec.operations operation

-- the classes of the step are those declared
unfoldable pub step_matches : PlanStep → OperationSpec → Bool
step_matches step declared =
    (step.effect_class == declared.effect_class)
    && same_flag step.side_effect declared.side_effect
    && same_read_class step.read_class declared.read_class

-- the loop over `plan.steps`
unfoldable pub verify_steps : List CapabilitySpec → ExecutionPlan → List PlanStep → Bool
verify_steps snapshot plan [] = true
verify_steps snapshot plan (step ∷ steps) =
    let rest = verify_steps snapshot plan steps in
    elim (derive_effect snapshot plan.capability_id plan.capability_version step.operation) [
      | none ↦ false
      | some declared ↦ if step_matches step declared then rest else false
    ]

unfoldable pub verify_plan_effects : List CapabilitySpec → ExecutionPlan → Option AdmissionError
verify_plan_effects snapshot plan =
    if verify_steps snapshot plan plan.steps then none else some AdmissionError.spec_resolution
