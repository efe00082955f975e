-- ===== src/Web/Contracts.antt =====
-- The contracts of persistence/web_session.py and persistence/local_admin.py, and the part of
-- `InMemoryPersistenceState` (persistence/memory.py) that their stores keep. A digest is the text of its
-- hexadecimal form.
use xiaowei_agent.Dict.{Dict}
use xiaowei_agent.Prelude.{
  string_eq, nat_eq, Comparable, ℕ, String, ◌≡◌, ◌↔◌, Bool, true, false, Option, none, [], arith,
}

pub data IdentitySource : Type 0 where
  feishu local_admin : IdentitySource

abbrev pub source_equals : IdentitySource → IdentitySource → Bool
source_equals IdentitySource.feishu IdentitySource.feishu = true
source_equals IdentitySource.local_admin IdentitySource.local_admin = true
source_equals _ _ = false

pub source_equals_iff : (x y : IdentitySource) → (source_equals x y ≡ true) ↔ (x ≡ y)
source_equals_iff IdentitySource.feishu IdentitySource.feishu = ground arith
source_equals_iff IdentitySource.feishu IdentitySource.local_admin = ground arith
source_equals_iff IdentitySource.local_admin IdentitySource.feishu = ground arith
source_equals_iff IdentitySource.local_admin IdentitySource.local_admin = ground arith

instance abbrev pub source_eq : Comparable IdentitySource
source_eq = record { equals = source_equals; decides = source_equals_iff }

pub data WebReturnIntentKind : Type 0 where
  workbench safe_task_detail admin_center activation_status : WebReturnIntentKind

pub record WebReturnIntent : Type 0 where
  pub kind : WebReturnIntentKind
  pub task_id : Option String
  pub request_id : Option String

pub record OAuthState : Type 0 where
  pub state_digest : String
  pub issued_at : ℕ
  pub expires_at : ℕ
  pub consumed_at : Option ℕ

pub record OAuthLoginState : Type 0 where
  pub state : OAuthState
  pub return_intent : WebReturnIntent

pub record OAuthTestState : Type 0 where
  pub state : OAuthState
  pub operation_id : String
  pub config_generation : ℕ

pub record OAuthTestContext : Type 0 where
  pub operation_id : String
  pub config_generation : ℕ

pub record WebSession : Type 0 where
  pub session_digest : String
  pub subject_ref : String
  pub issued_at : ℕ
  pub expires_at : ℕ
  pub revoked_at : Option ℕ
  pub auth_source : IdentitySource
  pub public_origin_digest : String

pub record IssueOAuthStateCommand : Type 0 where
  pub state_digest : String
  pub ttl_seconds : ℕ

pub record IssueOAuthLoginStateCommand : Type 0 where
  pub issue : IssueOAuthStateCommand
  pub return_intent : WebReturnIntent

pub record IssueOAuthTestStateCommand : Type 0 where
  pub issue : IssueOAuthStateCommand
  pub operation_id : String
  pub config_generation : ℕ

pub record RotateWebSessionCommand : Type 0 where
  pub session_digest : String
  pub subject_ref : String
  pub ttl_seconds : ℕ
  pub previous_session_digest : Option String
  pub auth_source : IdentitySource
  pub public_origin_digest : String

pub record WebSessionLookup : Type 0 where
  pub session_digest : String
  pub public_origin_digest : String

pub record LocalAdminRecord : Type 0 where
  pub password_hash : String
  pub must_change_password : Bool
  pub user_id : Option String

pub record ChangePasswordCommand : Type 0 where
  pub password_hash : String
  pub new_session_digest : String
  pub public_origin_digest : String
  pub session_ttl_seconds : ℕ

pub data WebError : Type 0 where
  oauth_state_not_found oauth_state_capacity : WebError
  oauth_login_context_not_found oauth_test_context_not_found : WebError
  web_session_not_found web_session_conflict local_admin_not_found : WebError
  -- pydantic's ValidationError, raised by `Contract.model_copy`
  validation_error : WebError

pub record WebState : Type 0 where
  pub oauth_states : Dict String OAuthState
  pub oauth_login_contexts : Dict String WebReturnIntent
  pub oauth_test_contexts : Dict String OAuthTestContext
  pub web_sessions : Dict String WebSession
  pub local_admin : Option LocalAdminRecord

abbrev pub empty_web_state : WebState
empty_web_state = record {
  oauth_states = [];
  oauth_login_contexts = [];
  oauth_test_contexts = [];
  web_sessions = [];
  local_admin = none;
}

pub data Reply {ℓ} (A : Type ℓ) : Type ℓ where
  answer : A → Reply A
  raise : WebError → Reply A

abbrev pub WebResult : Type 0 → Type 0
WebResult A = Reply A × WebState

abbrev pub is_answer : {A : Type 0} → Reply A → Bool
is_answer (answer x) = true
is_answer (raise e) = false
