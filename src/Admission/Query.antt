-- ===== src/Admission/Query.antt =====
-- The fourth part of the admission: `_verify_step_query` of governance/step_admission.py.
use xiaowei_agent.Admission.Contracts.{
  QueryRequirement, SqlGuardRejection, PromqlGuardRejection, AdmissionError, Scalar, PlanStep,
  ToolCall, ResolvedTarget, HydratedQuery,
}
use xiaowei_agent.Admission.Guards.{Guards}
use xiaowei_agent.Contracts.Task.{is_set}
use xiaowei_agent.Dict.{Dict, lookup}
use xiaowei_agent.Prelude.{
  string_eq, nat_eq, list_eq, if◌then◌else◌, ◌==◌, length, String, Bool, true, false, not, ◌&&◌,
  ◌||◌, Option, none, some, [], ◌∷◌,
}

-- `==` of two scalars with their types
unfoldable pub scalar_equals : Scalar → Scalar → Bool
scalar_equals (Scalar.text x) (Scalar.text y) = x == y
scalar_equals (Scalar.whole x) (Scalar.whole y) = x == y
scalar_equals (Scalar.below_zero x) (Scalar.below_zero y) = x == y
scalar_equals (Scalar.real x) (Scalar.real y) = x == y
scalar_equals (Scalar.flag true) (Scalar.flag b) = b
scalar_equals (Scalar.flag false) (Scalar.flag b) = not b
scalar_equals Scalar.nothing Scalar.nothing = true
scalar_equals _ _ = false

unfoldable pub holds_scalar : Option Scalar → Scalar → Bool
holds_scalar none v = false
holds_scalar (some w) v = scalar_equals w v

unfoldable pub all_held : Dict String Scalar → Dict String Scalar → Bool
all_held [] e = true
all_held ((k, v) ∷ d) e = holds_scalar (lookup k e) v && all_held d e

-- `_strict_scalars(d) == _strict_scalars(e)`
unfoldable pub same_scalars : Dict String Scalar → Dict String Scalar → Bool
same_scalars d e = (length d == length e) && all_held d e

unfoldable pub tool_arguments : HydratedQuery → Dict String Scalar
tool_arguments q =
    ("sql_ref", Scalar.text q.sql_ref)
    ∷ ("sql_hash", Scalar.text q.sql_hash)
    ∷ ("resource_id", Scalar.text q.resource_id)
    ∷ ("target_fingerprint", Scalar.text q.target_fingerprint)
    ∷ ("config_revision", Scalar.text q.config_revision)
    ∷ ("preview_max_rows", Scalar.whole q.budget.preview_max_rows)
    ∷ ("preview_max_bytes", Scalar.whole q.budget.preview_max_bytes)
    ∷ ("query_timeout_seconds", Scalar.whole q.budget.query_timeout_seconds)
    ∷ []

-- `key in typed_arguments`
unfoldable pub has_key : String → Dict String Scalar → Bool
has_key key arguments = is_set (lookup key arguments)

-- the text under a key, if it is a text
unfoldable pub text_at : String → Dict String Scalar → Option String
text_at key arguments = elim (lookup key arguments) [
  | none ↦ none
  | some v ↦ elim v [ Scalar.text x ↦ some x | _ ↦ none ]
]

abbrev binding_mismatch : Option AdmissionError
binding_mismatch = some (AdmissionError.sql_guard SqlGuardRejection.query_binding_mismatch)

abbrev requirement_mismatch : Option AdmissionError
requirement_mismatch = some (AdmissionError.sql_guard SqlGuardRejection.query_requirement_mismatch)

module _ (guards : Guards) where
  unfoldable pub verify_confirmed_artifact :
      PlanStep
      → ToolCall
      → ResolvedTarget
      → HydratedQuery
      → guards.ReadonlyPolicy
      → Option AdmissionError
  verify_confirmed_artifact step call target query policy =
      if not (same_scalars step.typed_arguments (tool_arguments query))
      then binding_mismatch
      else if not (same_scalars call.typed_args (tool_arguments query))
      then binding_mismatch
      else if not (target.resource_ids == query.resource_id ∷ [])
      then binding_mismatch
      else if not (guards.compute_target_fingerprint target == query.target_fingerprint)
      then binding_mismatch
      else guards.verify_confirmed_readonly query.sql_bytes query.sql_hash policy

  -- the SQL envelope
  unfoldable pub verify_sql_envelope :
      Dict String Scalar → Option guards.SqlSurface → Option AdmissionError
  verify_sql_envelope arguments surface = elim (text_at "sql" arguments) [
    | none ↦ some (AdmissionError.sql_guard SqlGuardRejection.unknown_template)
    | some sql ↦ elim (text_at "sql_template_id" arguments) [
      | none ↦ some (AdmissionError.sql_guard SqlGuardRejection.unknown_template)
      | some template_id ↦ elim surface [
        | none ↦ some (AdmissionError.sql_guard SqlGuardRejection.unknown_template)
        | some known ↦ guards.verify_sql arguments known template_id sql
      ]
    ]
  ]

  -- the PromQL envelope
  unfoldable pub verify_promql_envelope :
      Dict String Scalar → Option guards.PromqlSurface → Option AdmissionError
  verify_promql_envelope arguments surface = elim (text_at "promql" arguments) [
    | none ↦ some (AdmissionError.promql_guard PromqlGuardRejection.invalid_arguments)
    | some promql ↦ elim (text_at "promql_template_id" arguments) [
      | none ↦ some (AdmissionError.promql_guard PromqlGuardRejection.invalid_arguments)
      | some template_id ↦ elim surface [
        | none ↦ some (AdmissionError.promql_guard PromqlGuardRejection.surface_missing)
        | some known ↦ guards.verify_promql arguments known template_id promql
      ]
    ]
  ]

  unfoldable pub verify_confirmed :
      PlanStep
      → ToolCall
      → ResolvedTarget
      → Bool
      → Option HydratedQuery
      → Option guards.ReadonlyPolicy
      → Option AdmissionError
  verify_confirmed step call target has_envelope (some query) (some policy) =
      if has_envelope
      then requirement_mismatch
      else verify_confirmed_artifact step call target query policy
  verify_confirmed step call target has_envelope _ _ = requirement_mismatch

  unfoldable pub is_confirmed : QueryRequirement → Bool
  is_confirmed QueryRequirement.confirmed_artifact = true
  is_confirmed _ = false

  -- whether the requirement and the SQL envelope disagree
  unfoldable pub misses_requirement : QueryRequirement → Bool → Bool
  misses_requirement QueryRequirement.template_locked has_sql = not has_sql
  misses_requirement QueryRequirement.no_query has_sql = has_sql
  misses_requirement QueryRequirement.confirmed_artifact has_sql = false

  unfoldable pub verify_step_query :
      PlanStep
      → ToolCall
      → ResolvedTarget
      → QueryRequirement
      → Option guards.SqlSurface
      → Option guards.PromqlSurface
      → Option HydratedQuery
      → Option guards.ReadonlyPolicy
      → Option AdmissionError
  verify_step_query step call target requirement sql_surface promql_surface query policy =
      let sql = has_key "sql" step.typed_arguments in
      let sql_template = has_key "sql_template_id" step.typed_arguments in
      let promql = has_key "promql" step.typed_arguments in
      let promql_template = has_key "promql_template_id" step.typed_arguments in
      if (sql || sql_template) && not (sql && sql_template)
      then some (AdmissionError.sql_guard SqlGuardRejection.unknown_template)
      else if (promql || promql_template) && not (promql && promql_template)
      then some (AdmissionError.promql_guard PromqlGuardRejection.incomplete_envelope)
      else if (sql && sql_template) && (promql && promql_template)
      then some (AdmissionError.promql_guard PromqlGuardRejection.envelope_conflict)
      else if is_confirmed requirement
      then verify_confirmed step call target (sql || sql_template || promql || promql_template)
          query policy
      else if is_set query || misses_requirement requirement (sql || sql_template)
      then requirement_mismatch
      else if not (sql || sql_template) && not (promql || promql_template)
      then none
      else if sql && sql_template
      then verify_sql_envelope step.typed_arguments sql_surface
      else verify_promql_envelope step.typed_arguments promql_surface
