-- ===== src/Tests/Admit.antt =====
-- The theorems on the admission of a step at a step that reads and one with a side effect.
use xiaowei_agent.Admission.Admitted.{certificate_of, IsAdmitted, admit_step-IsAdmitted}
use xiaowei_agent.Admission.Binding.{
  Admit, verify_policy_revision, approval_ref, verify_approval_binding, require,
  issue_admission_certificate, gives, fails,
}
use xiaowei_agent.Admission.Conditions.{IsPermitted}
use xiaowei_agent.Admission.Confirmed.{IsConfirmed, verify_step_query-IsConfirmed}
use xiaowei_agent.Admission.Contracts.{
  EffectClass, QueryRequirement, RiskLevel, AdmissionError, PlanStep, OperationSpec,
  AdmissionCertificate, ToolCall, HydratedQuery,
}
use xiaowei_agent.Admission.Effects.{
  same_read_class, same_flag, find_operation, derive_effect, step_matches, verify_steps,
  verify_plan_effects,
}
use xiaowei_agent.Admission.Guards.{Guards}
use xiaowei_agent.Admission.Policy.{
  is_allowed, decide, read_class_in, read_class_refused, policy_reason, evaluate_tool_policy,
}
use xiaowei_agent.Admission.Query.{
  has_key, is_confirmed, misses_requirement, verify_step_query, scalar_equals, holds_scalar,
  all_held, same_scalars, tool_arguments, verify_confirmed_artifact, verify_confirmed,
}
use xiaowei_agent.Admission.Quiet.{RaisesQueryErrors}
use xiaowei_agent.Admission.Refusals.{IsUnapproved, admit_step-IsUnapproved}
use xiaowei_agent.Admission.Steps.{
  Admission, after_passing, decision_of, approval_for, certify, admit_declared, admit_step,
}
use xiaowei_agent.Contracts.Json.{null}
use xiaowei_agent.Contracts.Steps.{ApprovalRequest}
use xiaowei_agent.Dict.{lookup}
use xiaowei_agent.Prelude.{
  string_eq, nat_eq, ℕ, ◌≡◌, refl, ◌↔◌, true, Option, none, some, [], ◌∷◌, arith, ◌⊎◌, false,
}

-- Guards that let every query pass, and a field in place of each hash.
abbrev toy_guards : Guards
toy_guards = record {
  SqlSurface = ℕ;
  PromqlSurface = ℕ;
  ReadonlyPolicy = ℕ;
  compute_plan_hash = λ plan. plan.policy_revision;
  compute_target_fingerprint = λ target. target.tenant_id;
  compute_tool_call_hash = λ call. call.operation;
  verify_sql = λ arguments surface template_id sql. none;
  verify_promql = λ arguments surface template_id promql. none;
  verify_confirmed_readonly = λ sql hash policy. none;
}

abbrev restart : OperationSpec
restart = record {
  operation = "restart";
  gateway = "gateway";
  effect_class = EffectClass.mutate_target;
  read_class = none;
  side_effect = true;
  argument_schema_ref = "schema";
  query_requirement = QueryRequirement.no_query;
}

abbrev restart_step : PlanStep
restart_step = record {
  step_id = "s1";
  operation = "restart";
  typed_arguments = [];
  depends_on = [];
  side_effect = true;
  effect_class = EffectClass.mutate_target;
  read_class = none;
  condition = null;
}

abbrev approved : ApprovalRequest
approved = record {
  task_id = "t1";
  step_id = "s1";
  plan_hash = "r1";
  target_fingerprint = "tenant";
  policy_revision = "r1";
  subject = "someone";
  expires_at = 100;
  state = "granted";
}

abbrev restarts : Option ApprovalRequest → Admission toy_guards
restarts approval = record {
  step = restart_step;
  plan = record {
    plan_schema_version = 1;
    capability_id = "ops";
    capability_version = "1";
    steps = restart_step ∷ [];
    policy_profile = "p";
    policy_revision = "r1";
    budget = record { max_steps = 1; max_tool_calls = 1; max_model_tokens = 1 };
  };
  call = record {
    gateway = "gateway";
    operation = "restart";
    step_id = "s1";
    typed_args = [];
    timeout_seconds = 5;
    idempotency_key = "k";
  };
  context = record {
    tenant_id = "tenant";
    actor = "actor";
    environment_id = "prod";
    trace_id = "trace";
    policy_revision = "r1";
  };
  target = record {
    tenant_id = "tenant";
    environment_id = "prod";
    provider = "provider";
    resource_kind = "kind";
    resource_ids = "r" ∷ [];
    selector_version = "1";
  };
  snapshot =
      record {
        capability_id = "ops";
        version = "1";
        domain = "ops";
        input_schema_ref = "schema";
        operations = restart ∷ [];
        policy_profile = "p";
        evidence_contract = "e";
        eval_ref = "eval";
      }
      ∷ [];
  policy_snapshot = record { policy_revision = "r1"; profiles = "p" ∷ [] };
  profile = record {
    profile_id = "p";
    allowed_operations = "restart" ∷ [];
    allowed_effect_classes = EffectClass.mutate_target ∷ [];
    allowed_read_classes = [];
    allowed_environment_ids = "prod" ∷ [];
    risk = RiskLevel.high;
    max_timeout_seconds = 10;
  };
  sql_surface = none;
  promql_surface = none;
  task_id = "t1";
  now = 7;
  approval = approval;
  hydrated_query = none;
  readonly_policy = none;
}

unfoldable admitted : Admit AdmissionCertificate
unfolding admit_step after_passing verify_policy_revision verify_plan_effects verify_steps
    step_matches same_flag same_read_class find_operation derive_effect evaluate_tool_policy decide
    is_allowed read_class_in read_class_refused policy_reason verify_approval_binding require
    approval_ref issue_admission_certificate decision_of approval_for certify admit_declared
    verify_step_query has_key misses_requirement is_confirmed lookup
admitted = admit_step toy_guards (restarts (some approved))

admit_step-IsAdmitted_example :
    (admit_step toy_guards (restarts (some approved))
      ≡ gives (certificate_of toy_guards (restarts (some approved)) restart (some "t1:s1")))
    ↔ IsAdmitted toy_guards
        (restarts (some approved))
        (certificate_of toy_guards (restarts (some approved)) restart (some "t1:s1"))
admit_step-IsAdmitted_example =
    admit_step-IsAdmitted toy_guards (restarts (some approved))
      (certificate_of toy_guards (restarts (some approved)) restart (some "t1:s1"))

restart_is_admitted :
    admitted ≡ gives (certificate_of toy_guards (restarts (some approved)) restart (some "t1:s1"))
unfolding admitted
restart_is_admitted = refl

restarts-IsPermitted :
    IsPermitted
      (restarts none).profile
      (restarts none).plan
      (restarts none).call
      (restarts none).context
      (restarts none).target
      EffectClass.mutate_target
      none
unfolding admitted
restarts-IsPermitted = record {
  profile_id = refl;
  tenant = refl;
  environment = refl;
  operation = refl;
  effect = refl;
  reads = refl;
  environment_allowed = refl;
  timeout = omega arith;
}

toy_guards-RaisesQueryErrors : RaisesQueryErrors toy_guards
toy_guards-RaisesQueryErrors = record {
  sql = λ arguments surface template_id text. refl;
  promql = λ arguments surface template_id text. refl;
  readonly = λ text hash policy. refl;
}

restart-IsUnapproved : IsUnapproved toy_guards (restarts none) "s1"
unfolding admitted
restart-IsUnapproved = record {
  active = record { revision = refl; registered = refl };
  classified = ((restart, refl, refl, refl, refl), tt);
  declared = restart;
  found = refl;
  gateway = refl;
  permitted = restarts-IsPermitted;
  query = refl;
  side_effect = refl;
  unapproved = refl;
  names_step = refl;
}

admit_step-IsUnapproved_example :
    (admit_step toy_guards (restarts none) ≡ fails (AdmissionError.approval_required "s1"))
    ↔ IsUnapproved toy_guards (restarts none) "s1"
admit_step-IsUnapproved_example =
    admit_step-IsUnapproved toy_guards toy_guards-RaisesQueryErrors (restarts none) "s1"

abbrev confirmed_query : HydratedQuery
confirmed_query = record {
  sql_ref = "ref";
  sql_hash = "hash";
  sql_bytes = "select 1";
  resource_id = "r";
  target_fingerprint = "tenant";
  config_revision = "c1";
  budget = record {
    preview_max_rows = 10;
    preview_max_bytes = 2000000;
    query_timeout_seconds = 30;
  };
}

unfoldable query_step : PlanStep
unfolding tool_arguments
query_step = record restart_step { typed_arguments = tool_arguments confirmed_query }

unfoldable query_call : ToolCall
unfolding tool_arguments
query_call = record (restarts none).call { typed_args = tool_arguments confirmed_query }

unfoldable query_check : Option AdmissionError
unfolding query_step query_call verify_step_query verify_confirmed verify_confirmed_artifact
    is_confirmed has_key lookup same_scalars all_held holds_scalar scalar_equals
query_check =
    verify_step_query toy_guards query_step query_call (restarts none).target
      QueryRequirement.confirmed_artifact none none (some confirmed_query) (some 0)

verify_step_query-IsConfirmed_example :
    ((is_confirmed toy_guards QueryRequirement.confirmed_artifact ≡ true)
      × (has_key "sql" query_step.typed_arguments ≡ false)
      × (has_key "promql" query_step.typed_arguments ≡ false)
      × ((q : HydratedQuery) × (p : ℕ) × (some confirmed_query ≡ some q)
          × (some 0 ≡ some p)
          × IsConfirmed toy_guards query_step query_call (restarts none).target q p))
    ⊎ ((is_confirmed toy_guards QueryRequirement.confirmed_artifact ≡ false)
        × (some confirmed_query ≡ none))
unfolding query_check
verify_step_query-IsConfirmed_example =
    verify_step_query-IsConfirmed toy_guards query_step query_call (restarts none).target
      QueryRequirement.confirmed_artifact none none (some confirmed_query) (some 0) refl
