-- ===== src/Admission/Quiet.antt =====
-- The checks of the admission that come before its approval, and that they ask for none.
use xiaowei_agent.Admission.Binding.{verify_policy_revision, verify_approval_binding}
use xiaowei_agent.Admission.Contracts.{
  QueryRequirement, AdmissionError, Scalar, PlanStep, ExecutionPlan, PolicySnapshot, ToolCall,
  ResolvedTarget, HydratedQuery,
}
use xiaowei_agent.Admission.Guards.{Guards}
use xiaowei_agent.Admission.Query.{
  has_key, text_at, verify_confirmed_artifact, verify_sql_envelope, verify_promql_envelope,
  verify_confirmed, verify_step_query,
}
use xiaowei_agent.Contracts.Steps.{ApprovalRequest}
use xiaowei_agent.Dict.{Dict}
use xiaowei_agent.Prelude.{
  string_eq, nat_eq, Option-cases, ℕ, String, ◌≡◌, refl, inl, inr, Bool, true, false, ◌||◌, Option,
  none, some, arith,
}

-- the error asks for an approval
abbrev pub asks : AdmissionError → Bool
asks (AdmissionError.approval_required step_id) = true
asks _ = false

abbrev pub asks_in : Option AdmissionError → Bool
asks_in none = false
asks_in (some e) = asks e

-- What is relied on of the query guards: they raise errors of their own (SqlGuardError, PromqlGuardError), none
-- of which asks for an approval.
pub record RaisesQueryErrors (guards : Guards) : Type 0 where
  pub sql :
      (arguments : Dict String Scalar) (surface : guards.SqlSurface) (template_id text : String)
      → asks_in (guards.verify_sql arguments surface template_id text) ≡ false
  pub promql :
      (arguments : Dict String Scalar) (surface : guards.PromqlSurface) (template_id text : String)
      → asks_in (guards.verify_promql arguments surface template_id text) ≡ false
  pub readonly :
      (text hash : String) (policy : guards.ReadonlyPolicy)
      → asks_in (guards.verify_confirmed_readonly text hash policy) ≡ false

pub revision_asks_nothing :
    (snapshot : PolicySnapshot) (plan : ExecutionPlan)
    → asks_in (verify_policy_revision snapshot plan) ≡ false
unfolding verify_policy_revision
revision_asks_nothing snapshot plan = ground arith

module _ (guards : Guards) (raises_own : RaisesQueryErrors guards) where
  sql_asks_nothing :
      (arguments : Dict String Scalar) (surface : Option guards.SqlSurface)
      → asks_in (verify_sql_envelope guards arguments surface) ≡ false
  unfolding verify_sql_envelope
  sql_asks_nothing arguments surface = elim (Option-cases (text_at "sql" arguments)) [
    | inl e ↦ rw (verify_sql_envelope, e) refl
    | inr (sql, e) ↦ elim (Option-cases (text_at "sql_template_id" arguments)) [
      | inl f ↦ rw (verify_sql_envelope, e) (rw f refl)
      | inr (template_id, f) ↦ elim (Option-cases surface) [
        | inl g ↦ rw (verify_sql_envelope, e) (rw f (rw g refl))
        | inr (known, g) ↦
            rw (verify_sql_envelope, e)
              (rw f (rw g (raises_own.sql arguments known template_id sql)))
      ]
    ]
  ]

  promql_asks_nothing :
      (arguments : Dict String Scalar) (surface : Option guards.PromqlSurface)
      → asks_in (verify_promql_envelope guards arguments surface) ≡ false
  unfolding verify_promql_envelope
  promql_asks_nothing arguments surface = elim (Option-cases (text_at "promql" arguments)) [
    | inl e ↦ rw (verify_promql_envelope, e) refl
    | inr (promql, e) ↦ elim (Option-cases (text_at "promql_template_id" arguments)) [
      | inl f ↦ rw (verify_promql_envelope, e) (rw f refl)
      | inr (template_id, f) ↦ elim (Option-cases surface) [
        | inl g ↦ rw (verify_promql_envelope, e) (rw f (rw g refl))
        | inr (known, g) ↦
            rw (verify_promql_envelope, e)
              (rw f (rw g (raises_own.promql arguments known template_id promql)))
      ]
    ]
  ]

  confirmed_asks_nothing :
      (step : PlanStep) (call : ToolCall) (target : ResolvedTarget) (has_envelope : Bool)
      (query : Option HydratedQuery) (policy : Option guards.ReadonlyPolicy)
      → asks_in (verify_confirmed guards step call target has_envelope query policy) ≡ false
  unfolding verify_confirmed verify_confirmed_artifact
  confirmed_asks_nothing step call target has_envelope none none = refl
  confirmed_asks_nothing step call target has_envelope none (some p) = refl
  confirmed_asks_nothing step call target has_envelope (some q) none = refl
  confirmed_asks_nothing step call target has_envelope (some q) (some p) =
      ground (arith, raises_own.readonly q.sql_bytes q.sql_hash p)

  pub query_asks_nothing :
      (step : PlanStep) (call : ToolCall) (target : ResolvedTarget) (requirement : QueryRequirement)
      (sql_surface : Option guards.SqlSurface) (promql_surface : Option guards.PromqlSurface)
      (query : Option HydratedQuery) (policy : Option guards.ReadonlyPolicy)
      → asks_in (
          verify_step_query guards step call target requirement sql_surface promql_surface query
            policy)
        ≡ false
  unfolding verify_step_query
  query_asks_nothing step call target requirement sql_surface promql_surface query policy =
      let sql = has_key "sql" step.typed_arguments in
      let sql_template = has_key "sql_template_id" step.typed_arguments in
      let promql = has_key "promql" step.typed_arguments in
      let promql_template = has_key "promql_template_id" step.typed_arguments in
      ground (
        arith,
        confirmed_asks_nothing step call target (sql || sql_template || promql || promql_template)
            query policy,
        sql_asks_nothing step.typed_arguments sql_surface,
        promql_asks_nothing step.typed_arguments promql_surface,
      )

  pub binding_asks_nothing :
      (approval : ApprovalRequest) (plan : ExecutionPlan) (target : ResolvedTarget) (now : ℕ)
      → asks_in (verify_approval_binding guards approval plan target now) ≡ false
  unfolding verify_approval_binding
  binding_asks_nothing approval plan target now = ground arith
