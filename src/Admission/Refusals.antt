-- ===== src/Admission/Refusals.antt =====
-- The refusal of the admission that asks for an approval, apart from every other refusal.
use xiaowei_agent.Admission.Binding.{
  verify_policy_revision, require, issue_admission_certificate, fails,
}
use xiaowei_agent.Admission.Conditions.{
  IsActive, verify_policy_revision-IsActive, IsClassified, verify_steps-IsClassified, IsPermitted,
  evaluate_tool_policy-IsPermitted,
}
use xiaowei_agent.Admission.Contracts.{AdmissionError, OperationSpec}
use xiaowei_agent.Admission.Effects.{derive_effect, verify_steps, verify_plan_effects}
use xiaowei_agent.Admission.Guards.{Guards}
use xiaowei_agent.Admission.Query.{verify_step_query}
use xiaowei_agent.Admission.Quiet.{
  RaisesQueryErrors, revision_asks_nothing, query_asks_nothing, binding_asks_nothing,
}
use xiaowei_agent.Admission.Steps.{
  Admission, after_passing, decision_of, approval_for, certify, admit_declared, admit_step,
}
use xiaowei_agent.Prelude.{
  string_eq, nat_eq, Bool-cases, Option-cases, String, ◌≡◌, ◌↔◌, inl, inr, true, none, some, arith,
  eq_iff,
}

module _ (guards : Guards) where
  -- all that a certificate needs holds, but for the approval of a side effect, of which there is none
  pub record IsUnapproved (a : Admission guards) (asked : String) : Type 0 where
    pub active : IsActive a.policy_snapshot a.plan
    pub classified : IsClassified a.snapshot a.plan a.plan.steps
    pub declared : OperationSpec
    pub found :
        derive_effect a.snapshot a.plan.capability_id a.plan.capability_version a.step.operation
        ≡ some declared
    pub gateway : a.call.gateway ≡ declared.gateway
    pub permitted :
        IsPermitted a.profile a.plan a.call a.context a.target declared.effect_class
          declared.read_class
    pub query :
        verify_step_query guards a.step a.call a.target declared.query_requirement a.sql_surface
          a.promql_surface a.hydrated_query a.readonly_policy
        ≡ none
    pub side_effect : declared.side_effect ≡ true
    pub unapproved : a.approval ≡ none
    pub names_step : asked ≡ a.step.step_id

module _ (guards : Guards) (raises_own : RaisesQueryErrors guards) where
  -- the only failure of the last part that asks is that of a side effect with no approval
  certify-asks :
      (a : Admission guards) (declared : OperationSpec) (asked : String)
      → certify guards a declared ≡ fails (AdmissionError.approval_required asked)
      → (declared.side_effect ≡ true) × (a.approval ≡ none) × (asked ≡ a.step.step_id)
  unfolding certify approval_for require issue_admission_certificate
  certify-asks a declared asked h = elim (Bool-cases declared.side_effect) [
    | inr e ↦ absurd (ground (arith, h, e))
    | inl e ↦ elim (Option-cases a.approval) [
      | inl f ↦ (e, f, ground (arith, h, e, f))
      | inr (granted, f) ↦ absurd (
          ground
            (arith, h, e, f, binding_asks_nothing guards raises_own granted a.plan a.target a.now))
    ]
  ]

  admit_declared-asks :
      (a : Admission guards) (declared : OperationSpec) (asked : String)
      → admit_declared guards a declared ≡ fails (AdmissionError.approval_required asked)
      → (a.call.gateway ≡ declared.gateway)
        × ((decision_of guards a declared).allow ≡ true)
        × (verify_step_query guards a.step a.call a.target declared.query_requirement a.sql_surface
              a.promql_surface a.hydrated_query a.readonly_policy
            ≡ none)
        × (certify guards a declared ≡ fails (AdmissionError.approval_required asked))
  unfolding admit_declared after_passing
  admit_declared-asks a declared asked h =
      let quiet =
        query_asks_nothing guards raises_own a.step a.call a.target declared.query_requirement
          a.sql_surface a.promql_surface a.hydrated_query a.readonly_policy in
      (
        ground (arith, h, eq_iff a.call.gateway declared.gateway),
        ground (arith, h),
        ground (arith, h, quiet),
        ground (arith, h, quiet),
      )

  admit_step-asks :
      (a : Admission guards) (asked : String)
      → admit_step guards a ≡ fails (AdmissionError.approval_required asked)
      → (verify_policy_revision a.policy_snapshot a.plan ≡ none)
        × (verify_steps a.snapshot a.plan a.plan.steps ≡ true)
        × ((declared : OperationSpec) × (derive_effect a.snapshot a.plan.capability_id
                a.plan.capability_version a.step.operation
              ≡ some declared)
            × (admit_declared guards a declared ≡ fails (AdmissionError.approval_required asked)))
  unfolding admit_step verify_plan_effects after_passing
  admit_step-asks a asked h =
      let quiet = revision_asks_nothing a.policy_snapshot a.plan in
      elim (Option-cases (
        derive_effect a.snapshot a.plan.capability_id a.plan.capability_version a.step.operation)) [
          | inl e ↦ absurd (ground (arith, h, e, quiet))
          | inr (declared, e) ↦ (
            ground (arith, h, quiet),
            ground (arith, h, quiet),
            (declared, e, ground (arith, h, e, quiet)),
          )
        ]

  unapproved-asks :
      (a : Admission guards) (asked : String)
      → IsUnapproved guards a asked
      → admit_step guards a ≡ fails (AdmissionError.approval_required asked)
  unfolding admit_step verify_plan_effects after_passing admit_declared certify approval_for require
      decision_of
  unapproved-asks a asked w = ground (
    arith,
    (verify_policy_revision-IsActive a.policy_snapshot a.plan).1 w.active,
    (verify_steps-IsClassified a.snapshot a.plan a.plan.steps).1 w.classified,
    w.found,
    w.gateway,
    eq_iff a.call.gateway w.declared.gateway,
    (evaluate_tool_policy-IsPermitted a.profile a.plan a.call a.context a.target
          w.declared.effect_class w.declared.read_class).1
        w.permitted,
    w.query,
    w.side_effect,
    w.unapproved,
    w.names_step,
  )

  -- With query guards that raise only errors of their own, the admission asks for an approval exactly when
  -- the plan is active and classified as declared, the call goes to the declared gateway, the profile permits
  -- it, the query check passes, the operation has a side effect and there is no approval at all; it names
  -- the step.
  pub admit_step-IsUnapproved :
      (a : Admission guards) (asked : String)
      → (admit_step guards a ≡ fails (AdmissionError.approval_required asked))
        ↔ IsUnapproved guards a asked
  unfolding decision_of
  admit_step-IsUnapproved a asked = (
    λ h.
        let (revision, steps, (declared, found, rest)) = admit_step-asks a asked h in
        let (gateway, allow, query, last) = admit_declared-asks a declared asked rest in
        let (side, unapproved, name) = certify-asks a declared asked last in
        record {
          active = (verify_policy_revision-IsActive a.policy_snapshot a.plan).0 revision;
          classified = (verify_steps-IsClassified a.snapshot a.plan a.plan.steps).0 steps;
          declared = declared;
          found = found;
          gateway = gateway;
          permitted =
              (evaluate_tool_policy-IsPermitted a.profile a.plan a.call a.context a.target
                  declared.effect_class declared.read_class).0
                allow;
          query = query;
          side_effect = side;
          unapproved = unapproved;
          names_step = name;
        },
    unapproved-asks a asked,
  )
