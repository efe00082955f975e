-- ===== src/Admission/Confirmed.antt =====
-- What the query check says of a step whose operation runs a confirmed SQL text.
use xiaowei_agent.Admission.Contracts.{
  QueryRequirement, PlanStep, ToolCall, ResolvedTarget, HydratedQuery,
}
use xiaowei_agent.Admission.Guards.{Guards}
use xiaowei_agent.Admission.Query.{
  same_scalars, tool_arguments, has_key, verify_confirmed_artifact, verify_confirmed, is_confirmed,
  verify_step_query,
}
use xiaowei_agent.Prelude.{
  string_eq, nat_eq, list_eq, Bool-cases, list_equals_iff, ◌≡◌, refl, ◌⊎◌, inl, inr, Bool, true,
  false, ◌||◌, Option, none, some, [], ◌∷◌, arith, eq_iff,
}

module _ (guards : Guards) where
  -- the text in the process, the step, the call and the target belong together, and the text was proved to
  -- read only
  pub record IsConfirmed (step : PlanStep) (call : ToolCall) (target : ResolvedTarget)
      (query : HydratedQuery) (policy : guards.ReadonlyPolicy) : Type 0 where
    pub step_arguments : same_scalars step.typed_arguments (tool_arguments query) ≡ true
    pub call_arguments : same_scalars call.typed_args (tool_arguments query) ≡ true
    pub resource : target.resource_ids ≡ query.resource_id ∷ []
    pub fingerprint : guards.compute_target_fingerprint target ≡ query.target_fingerprint
    pub reads_only : guards.verify_confirmed_readonly query.sql_bytes query.sql_hash policy ≡ none

  verify_confirmed_artifact-IsConfirmed :
      (step : PlanStep) (call : ToolCall) (target : ResolvedTarget) (query : HydratedQuery)
      (policy : guards.ReadonlyPolicy)
      → verify_confirmed_artifact guards step call target query policy ≡ none
      → IsConfirmed step call target query policy
  unfolding verify_confirmed_artifact
  verify_confirmed_artifact-IsConfirmed step call target query policy h =
      let r = list_equals_iff target.resource_ids (query.resource_id ∷ []) in
      let f = eq_iff (guards.compute_target_fingerprint target) query.target_fingerprint in
      record {
        step_arguments = ground (arith, h);
        call_arguments = ground (arith, h);
        resource = ground (arith, h, r);
        fingerprint = ground (arith, h, f);
        reads_only = ground (arith, h);
      }

  verify_confirmed-some :
      (step : PlanStep) (call : ToolCall) (target : ResolvedTarget) (has_envelope : Bool)
      (query : Option HydratedQuery) (policy : Option guards.ReadonlyPolicy)
      → verify_confirmed guards step call target has_envelope query policy ≡ none
      → (q : HydratedQuery) × (p : guards.ReadonlyPolicy) × (query ≡ some q)
        × (policy ≡ some p)
        × (has_envelope ≡ false)
        × IsConfirmed step call target q p
  unfolding verify_confirmed
  verify_confirmed-some step call target has_envelope none none h = absurd (ground (arith, h))
  verify_confirmed-some step call target has_envelope none (some p) h = absurd (ground (arith, h))
  verify_confirmed-some step call target has_envelope (some q) none h = absurd (ground (arith, h))
  verify_confirmed-some step call target true (some q) (some p) h = absurd (ground (arith, h))
  verify_confirmed-some step call target false (some q) (some p) h =
      (q, p, refl, refl, refl, verify_confirmed_artifact-IsConfirmed step call target q p h)

  -- When the query check passes, an operation on a confirmed text has that text in the process, bound to the
  -- step, the call and the target and proved to read only, and no query of another kind; any other operation
  -- has no such text.
  pub verify_step_query-IsConfirmed :
      (step : PlanStep) (call : ToolCall) (target : ResolvedTarget) (requirement : QueryRequirement)
      (sql_surface : Option guards.SqlSurface) (promql_surface : Option guards.PromqlSurface)
      (query : Option HydratedQuery) (policy : Option guards.ReadonlyPolicy)
      → verify_step_query guards step call target requirement sql_surface promql_surface query
          policy
        ≡ none
      → ((is_confirmed guards requirement ≡ true)
          × (has_key "sql" step.typed_arguments ≡ false)
          × (has_key "promql" step.typed_arguments ≡ false)
          × ((q : HydratedQuery) × (p : guards.ReadonlyPolicy) × (query ≡ some q)
              × (policy ≡ some p)
              × IsConfirmed step call target q p))
        ⊎ ((is_confirmed guards requirement ≡ false) × (query ≡ none))
  unfolding verify_step_query
  verify_step_query-IsConfirmed step call target requirement sql_surface promql_surface query policy
        h =
      let sql = has_key "sql" step.typed_arguments in
      let sql_template = has_key "sql_template_id" step.typed_arguments in
      let promql = has_key "promql" step.typed_arguments in
      let promql_template = has_key "promql_template_id" step.typed_arguments in
      elim (Bool-cases (is_confirmed guards requirement)) [
        | inl e ↦
            let passed : verify_confirmed guards step call target
                  (sql || sql_template || promql || promql_template) query policy
                ≡ none =
              ground (arith, h, e) in
            let (q, p, is_q, is_p, free, confirmed) =
              verify_confirmed-some step call target
                (sql || sql_template || promql || promql_template) query policy passed in
            inl (e, ground (arith, free), ground (arith, free), (q, p, is_q, is_p, confirmed))
        | inr e ↦ inr (e, ground (arith, h, e))
      ]
