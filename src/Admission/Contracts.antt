-- ===== src/Admission/Contracts.antt =====
-- The plan, capability, policy and tool contracts that the admission of a step reads (contracts/plan.py,
-- capability.py, policy.py, tool.py, target.py, approval.py, sql_query.py), and its closed sets of errors.
use xiaowei_agent.Contracts.Json.{Json}
use xiaowei_agent.Contracts.Steps.{PlanBudget}
use xiaowei_agent.Dict.{Dict}
use xiaowei_agent.Prelude.{
  string_eq, nat_eq, Comparable, ℕ, String, ◌≡◌, ◌↔◌, Bool, true, false, Option, List, arith,
}

pub data EffectClass : Type 0 where
  read mutate_target : EffectClass

pub data ReadClass : Type 0 where
  bounded restricted : ReadClass

pub data QueryRequirement : Type 0 where
  no_query template_locked confirmed_artifact : QueryRequirement

pub data RiskLevel : Type 0 where
  low medium high : RiskLevel

pub data PolicyReason : Type 0 where
  allowed profile_mismatch operation_not_allowed effect_class_not_allowed : PolicyReason
  read_class_not_allowed environment_mismatch environment_not_allowed : PolicyReason
  timeout_exceeds_profile tenant_mismatch : PolicyReason

pub data BindingRejection : Type 0 where
  plan_drift target_drift policy_revision_drift approval_expired approval_not_granted :
      BindingRejection

pub data SqlGuardRejection : Type 0 where
  unknown_template unknown_dialect ambiguous_character unparsable multiple_statements :
      SqlGuardRejection
  non_select forbidden_node table_not_allowed column_not_allowed star_not_allowed :
      SqlGuardRejection
  comment_present limit_missing limit_exceeded window_unbounded window_mismatch : SqlGuardRejection
  window_too_wide recompile_mismatch hash_mismatch hint_present not_readonly : SqlGuardRejection
  readonly_statement_not_supported external_catalog blocked_relation table_function :
      SqlGuardRejection
  qualified_function query_requirement_mismatch query_binding_mismatch : SqlGuardRejection

pub data PromqlGuardRejection : Type 0 where
  unknown_template invalid_arguments recompile_mismatch incomplete_envelope : PromqlGuardRejection
  envelope_conflict surface_missing : PromqlGuardRejection

-- The exceptions that the admission of a step raises; `invalid_parameters` is that of the parameters of a
-- query template.
pub data AdmissionError : Type 0 where
  binding : BindingRejection → AdmissionError
  spec_resolution invalid_parameters : AdmissionError
  policy_denied : PolicyReason → AdmissionError
  sql_guard : SqlGuardRejection → AdmissionError
  promql_guard : PromqlGuardRejection → AdmissionError
  approval_required : String → AdmissionError

-- a JSON scalar with its Python type; a float is a code of its value
pub data Scalar : Type 0 where
  text : String → Scalar
  whole below_zero : ℕ → Scalar
  real : ℕ → Scalar
  flag : Bool → Scalar
  nothing : Scalar

pub record PlanStep : Type 0 where
  pub step_id : String
  pub operation : String
  pub typed_arguments : Dict String Scalar
  pub depends_on : List String
  pub side_effect : Bool
  pub effect_class : EffectClass
  pub read_class : Option ReadClass
  pub condition : Json

pub record ExecutionPlan : Type 0 where
  pub plan_schema_version : ℕ
  pub capability_id : String
  pub capability_version : String
  pub steps : List PlanStep
  pub policy_profile : String
  pub policy_revision : String
  pub budget : PlanBudget

pub record OperationSpec : Type 0 where
  pub operation : String
  pub gateway : String
  pub effect_class : EffectClass
  pub read_class : Option ReadClass
  pub side_effect : Bool
  pub argument_schema_ref : String
  pub query_requirement : QueryRequirement

pub record CapabilitySpec : Type 0 where
  pub capability_id : String
  pub version : String
  pub domain : String
  pub input_schema_ref : String
  pub operations : List OperationSpec
  pub policy_profile : String
  pub evidence_contract : String
  pub eval_ref : String

-- a finite float is a number of some fixed unit
pub record PolicyProfile : Type 0 where
  pub profile_id : String
  pub allowed_operations : List String
  pub allowed_effect_classes : List EffectClass
  pub allowed_read_classes : List ReadClass
  pub allowed_environment_ids : List String
  pub risk : RiskLevel
  pub max_timeout_seconds : ℕ

pub record PolicySnapshot : Type 0 where
  pub policy_revision : String
  pub profiles : List String

pub record PolicyDecision : Type 0 where
  pub allow : Bool
  pub reason_code : PolicyReason
  pub risk : RiskLevel
  pub policy_revision : String

pub record ToolCall : Type 0 where
  pub gateway : String
  pub operation : String
  pub step_id : String
  pub typed_args : Dict String Scalar
  pub timeout_seconds : ℕ
  pub idempotency_key : String

pub record ResolvedTarget : Type 0 where
  pub tenant_id : String
  pub environment_id : String
  pub provider : String
  pub resource_kind : String
  pub resource_ids : List String
  pub selector_version : String

pub record ReadonlyQueryBudget : Type 0 where
  pub preview_max_rows : ℕ
  pub preview_max_bytes : ℕ
  pub query_timeout_seconds : ℕ

pub record HydratedQuery : Type 0 where
  pub sql_ref : String
  pub sql_hash : String
  pub sql_bytes : String
  pub resource_id : String
  pub target_fingerprint : String
  pub config_revision : String
  pub budget : ReadonlyQueryBudget

pub record AdmissionCertificate : Type 0 where
  pub step_id : String
  pub operation : String
  pub effect_class : EffectClass
  pub policy_decision : PolicyDecision
  pub approval_ref : Option String
  pub plan_hash : String
  pub target_fingerprint : String
  pub tool_call_hash : String

abbrev pub effect_equals : EffectClass → EffectClass → Bool
effect_equals EffectClass.read EffectClass.read = true
effect_equals EffectClass.mutate_target EffectClass.mutate_target = true
effect_equals _ _ = false

pub effect_equals_iff : (x y : EffectClass) → (effect_equals x y ≡ true) ↔ (x ≡ y)
effect_equals_iff EffectClass.read EffectClass.read = ground arith
effect_equals_iff EffectClass.read EffectClass.mutate_target = ground arith
effect_equals_iff EffectClass.mutate_target EffectClass.read = ground arith
effect_equals_iff EffectClass.mutate_target EffectClass.mutate_target = ground arith

instance abbrev pub effect_eq : Comparable EffectClass
effect_eq = record { equals = effect_equals; decides = effect_equals_iff }

abbrev pub read_equals : ReadClass → ReadClass → Bool
read_equals ReadClass.bounded ReadClass.bounded = true
read_equals ReadClass.restricted ReadClass.restricted = true
read_equals _ _ = false

pub read_equals_iff : (x y : ReadClass) → (read_equals x y ≡ true) ↔ (x ≡ y)
read_equals_iff ReadClass.bounded ReadClass.bounded = ground arith
read_equals_iff ReadClass.bounded ReadClass.restricted = ground arith
read_equals_iff ReadClass.restricted ReadClass.bounded = ground arith
read_equals_iff ReadClass.restricted ReadClass.restricted = ground arith

instance abbrev pub read_eq : Comparable ReadClass
read_eq = record { equals = read_equals; decides = read_equals_iff }
