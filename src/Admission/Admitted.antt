-- ===== src/Admission/Admitted.antt =====
-- What the admission of a step says of the step, and the order of its refusals.
use xiaowei_agent.Admission.Binding.{
  Admit, approval_ref, issue_admission_certificate, gives, require, fails, verify_policy_revision,
}
use xiaowei_agent.Admission.Conditions.{
  IsActive, IsPermitted, IsBound, require-IsBound, verify_policy_revision-IsActive, IsClassified,
  verify_steps-IsClassified, evaluate_tool_policy-IsPermitted,
}
use xiaowei_agent.Admission.Contracts.{
  effect_eq, read_eq, AdmissionError, OperationSpec, AdmissionCertificate,
}
use xiaowei_agent.Admission.Effects.{derive_effect, verify_steps, verify_plan_effects}
use xiaowei_agent.Admission.Guards.{Guards}
use xiaowei_agent.Admission.Policy.{decide, evaluate_tool_policy}
use xiaowei_agent.Admission.Query.{verify_step_query}
use xiaowei_agent.Admission.Steps.{
  Admission, after_passing, decision_of, certify, approval_for, admit_declared, admit_step,
}
use xiaowei_agent.Contracts.Steps.{ApprovalRequest}
use xiaowei_agent.Prelude.{
  string_eq, nat_eq, String, ◌≡◌, ◌↔◌, Bool, true, false, Option, none, some, arith, refl, ap, ◌∙◌,
  ◌⊎◌, inl, inr, eq_iff, Option-cases, subst,
}

Admit-cases :
    {A : Type 0} (r : Admit A) → ((e : AdmissionError) × (r ≡ fails e)) ⊎ ((x : A) × (r ≡ gives x))
Admit-cases (fails e) = inl (e, refl)
Admit-cases (gives x) = inr (x, refl)

module _ (guards : Guards) where
  -- The certificate of the admission binds the call, the plan, the target and the approval.
  abbrev pub certificate_of :
      Admission guards → OperationSpec → Option String → AdmissionCertificate
  certificate_of a declared reference = record {
    step_id = a.call.step_id;
    operation = a.call.operation;
    effect_class = declared.effect_class;
    policy_decision = decision_of guards a declared;
    approval_ref = reference;
    plan_hash = guards.compute_plan_hash a.plan;
    target_fingerprint = guards.compute_target_fingerprint a.target;
    tool_call_hash = guards.compute_tool_call_hash a.call;
  }

  -- the approval that a side effect needs, and its reference
  abbrev pub IsApproved : Admission guards → Bool → Option String → Type 0
  IsApproved a false reference = reference ≡ none
  IsApproved a true reference =
      (granted : ApprovalRequest) × (a.approval ≡ some granted)
      × IsBound guards a.task_id a.step a.plan a.target a.now granted
      × (reference ≡ some (approval_ref a.task_id a.step.step_id))

  pub record IsAdmitted (a : Admission guards) (certificate : AdmissionCertificate) : Type 0 where
    pub active : IsActive a.policy_snapshot a.plan
    pub classified : IsClassified a.snapshot a.plan a.plan.steps
    pub declared : OperationSpec
    pub found :
        derive_effect a.snapshot a.plan.capability_id a.plan.capability_version a.step.operation
        ≡ some declared
    pub gateway : a.call.gateway ≡ declared.gateway
    pub permitted :
        IsPermitted a.profile a.plan a.call a.context a.target declared.effect_class
          declared.read_class
    pub query :
        verify_step_query guards a.step a.call a.target declared.query_requirement a.sql_surface
          a.promql_surface a.hydrated_query a.readonly_policy
        ≡ none
    pub reference : Option String
    pub approved : IsApproved a declared.side_effect reference
    pub binds : certificate ≡ certificate_of a declared reference

  approval_for-IsApproved :
      (a : Admission guards) (side_effect : Bool) (reference : Option String)
      → (approval_for guards a side_effect ≡ gives reference) ↔ IsApproved a side_effect reference
  unfolding approval_for
  approval_for-IsApproved a false reference = ground arith
  approval_for-IsApproved a true reference =
      elim (Admit-cases (require guards a.task_id a.step a.plan a.target a.approval a.now)) [
        | inl (e, r) ↦ (
          λ h. absurd (ground (arith, h, r)),
          λ (g, is, b, same).
              let given =
                (require-IsBound guards a.task_id a.step a.plan a.target a.now a.approval
                    (approval_ref a.task_id a.step.step_id)).1
                  (g, is, b, refl) in
              absurd (ground (arith, given, r)),
        )
        | inr (x, r) ↦
            let iff = require-IsBound guards a.task_id a.step a.plan a.target a.now a.approval x in
            (
              λ h.
                  let same : reference ≡ some x = ground (arith, h, r) in
                  let (g, is, b, name) = iff.0 r in (g, is, b, same ∙ ap some name),
              λ (g, is, b, same).
                  let (g', is', b', name) = iff.0 r in ground (arith, r, same, name),
            )
      ]

  after_passing-gives :
      {A : Type 0} (check : Option AdmissionError) (next : Admit A) (x : A)
      → (after_passing check next ≡ gives x) ↔ ((check ≡ none) × (next ≡ gives x))
  unfolding after_passing
  after_passing-gives none next x = ground arith
  after_passing-gives (some e) next x = ground arith

  certify-gives :
      (a : Admission guards) (declared : OperationSpec) (certificate : AdmissionCertificate)
      → (certify guards a declared ≡ gives certificate) ↔ (
          (reference : Option String) × (approval_for guards a declared.side_effect
            ≡ gives reference)
          × (certificate ≡ certificate_of a declared reference))
  unfolding certify issue_admission_certificate decision_of evaluate_tool_policy decide
  certify-gives a declared certificate =
      elim (Admit-cases (approval_for guards a declared.side_effect)) [
        | inl (e, r) ↦
            (λ h. absurd (ground (arith, h, r)), λ (x, is, b). absurd (ground (arith, is, r)))
        | inr (x, r) ↦
            let same = eq_iff a.context.policy_revision a.context.policy_revision in
            (λ h. (x, r, ground (arith, h, r, same)), λ (y, is, b). ground (arith, r, is, b, same))
      ]

  admit_declared-gives :
      (a : Admission guards) (declared : OperationSpec) (certificate : AdmissionCertificate)
      → (admit_declared guards a declared ≡ gives certificate) ↔ (
          (a.call.gateway ≡ declared.gateway)
          × ((decision_of guards a declared).allow ≡ true)
          × (verify_step_query guards a.step a.call a.target declared.query_requirement
                a.sql_surface a.promql_surface a.hydrated_query a.readonly_policy
              ≡ none)
          × (certify guards a declared ≡ gives certificate))
  unfolding admit_declared
  admit_declared-gives a declared certificate =
      let check =
        verify_step_query guards a.step a.call a.target declared.query_requirement a.sql_surface
          a.promql_surface a.hydrated_query a.readonly_policy in
      let same = eq_iff a.call.gateway declared.gateway in
      let passing = after_passing-gives check (certify guards a declared) certificate in
      (
        λ h. (
          ground (arith, h, same),
          ground (arith, h),
          ground (arith, h, passing),
          ground (arith, h, passing),
        ),
        λ (g, d, q, c). ground (arith, g, d, passing.1 (q, c), same),
      )

  admit_step-found :
      (a : Admission guards) (certificate : AdmissionCertificate)
      → (admit_step guards a ≡ gives certificate) ↔ (
          (verify_policy_revision a.policy_snapshot a.plan ≡ none)
          × (verify_steps a.snapshot a.plan a.plan.steps ≡ true)
          × ((declared : OperationSpec) × (derive_effect a.snapshot a.plan.capability_id
                  a.plan.capability_version a.step.operation
                ≡ some declared)
              × (admit_declared guards a declared ≡ gives certificate)))
  unfolding admit_step verify_plan_effects after_passing
  admit_step-found a certificate =
      elim (Option-cases (
        derive_effect a.snapshot a.plan.capability_id a.plan.capability_version a.step.operation)) [
          | inl e ↦ (
            λ h. absurd (ground (arith, h, e)),
            λ (v, s, (d, f, g)). absurd (ground (arith, f, e)),
          )
          | inr (declared, e) ↦ (
            λ h. (ground (arith, h, e), ground (arith, h, e), (declared, e, ground (arith, h, e))),
            λ (v, s, (d, f, g)).
                let same : d ≡ declared = ground (arith, f, e) in
                ground (
                  arith,
                  v,
                  s,
                  e,
                  subst (λ x. admit_declared guards a x ≡ gives certificate) same g,
                ),
          )
        ]

  -- The admission of a step issues a certificate exactly when the plan stands under the active revision with
  -- a registered profile, every step is classified as the snapshot declares, the call goes to the declared
  -- gateway, the profile permits it, the query guard passes, and a side effect has an approval that is
  -- granted, current and bound to this task, step, plan, target and revision; the certificate binds the call,
  -- the plan, the target and that approval.
  pub admit_step-IsAdmitted :
      (a : Admission guards) (certificate : AdmissionCertificate)
      → (admit_step guards a ≡ gives certificate) ↔ IsAdmitted a certificate
  unfolding decision_of
  admit_step-IsAdmitted a certificate = (
    λ h.
        let (revision, steps, (declared, found, rest)) = (admit_step-found a certificate).0 h in
        let (gateway, allow, query, last) = (admit_declared-gives a declared certificate).0 rest in
        let (reference, given, binds) = (certify-gives a declared certificate).0 last in
        record {
          active = (verify_policy_revision-IsActive a.policy_snapshot a.plan).0 revision;
          classified = (verify_steps-IsClassified a.snapshot a.plan a.plan.steps).0 steps;
          declared = declared;
          found = found;
          gateway = gateway;
          permitted =
              (evaluate_tool_policy-IsPermitted a.profile a.plan a.call a.context a.target
                  declared.effect_class declared.read_class).0
                allow;
          query = query;
          reference = reference;
          approved = (approval_for-IsApproved a declared.side_effect reference).0 given;
          binds = binds;
        },
    λ w. (admit_step-found a certificate).1 (
      (verify_policy_revision-IsActive a.policy_snapshot a.plan).1 w.active,
      (verify_steps-IsClassified a.snapshot a.plan a.plan.steps).1 w.classified,
      (
        w.declared,
        w.found,
        (admit_declared-gives a w.declared certificate).1 (
          w.gateway,
          (evaluate_tool_policy-IsPermitted a.profile a.plan a.call a.context a.target
                w.declared.effect_class w.declared.read_class).1
              w.permitted,
          w.query,
          (certify-gives a w.declared certificate).1 (
            w.reference,
            (approval_for-IsApproved a w.declared.side_effect w.reference).1 w.approved,
            w.binds,
          ),
        ),
      ),
    ),
  )
