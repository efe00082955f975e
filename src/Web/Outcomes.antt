-- ===== src/Web/Outcomes.antt =====
-- The ways in which each operation on a state or a session can go.
use xiaowei_agent.Dict.{Dict, lookup, insert}
use xiaowei_agent.Prelude.{
  string_eq, nat_eq, Bool-cases, Option-cases, ℕ, String, ◌≡◌, refl, inl, inr, Bool, false, none,
  some, arith,
}
use xiaowei_agent.Web.Contracts.{
  OAuthState, WebSession, RotateWebSessionCommand, LocalAdminRecord, ChangePasswordCommand,
  WebState, WebResult, is_answer,
}
use xiaowei_agent.Web.OAuth.{
  is_stale_state, usable_state, oauth_times_are_consistent, consumed, mark_consumed,
  consume_oauth_test_state, consume_oauth_login_state,
}
use xiaowei_agent.Web.Sessions.{
  new_session, session_times_are_consistent, revoked, open_session, revoke_previous, rotate_session,
  revoke_session, changed_sessions, change_password_and_rotate_session,
}

pub usable_state-lookup :
    (digest : String) (now : ℕ) (s : WebState) (state : OAuthState)
    → usable_state digest now s ≡ some state
    → (lookup digest s.oauth_states ≡ some state) × (is_stale_state now state ≡ false)
unfolding usable_state
usable_state-lookup digest now s state h = ground arith

pub open_session-lookup :
    (digest : String) (sessions : Dict String WebSession) (w : WebSession)
    → open_session digest sessions ≡ some w
    → (lookup digest sessions ≡ some w) × (w.revoked_at ≡ none)
unfolding open_session
open_session-lookup digest sessions w h = ground arith

-- The ways a consumption can go: refused, or done on a state that was usable.
pub data Consumption {A : Type 0} (digest : String) (now : ℕ) (s : WebState) (r : WebResult A)
    : Type 0 where
  declines : is_answer r.0 ≡ false → r.1 ≡ s → Consumption digest now s r
  uses :
      (state : OAuthState)
      → usable_state digest now s ≡ some state
      → r.1 ≡ mark_consumed state now s
      → Consumption digest now s r

pub consume_test-Consumption :
    (digest : String) (now : ℕ) (s : WebState)
    → Consumption digest now s (consume_oauth_test_state digest now s)
unfolding consume_oauth_test_state
consume_test-Consumption digest now s = elim (Option-cases (usable_state digest now s)) [
  | inl e ↦ declines (rw (consume_oauth_test_state, e) refl) (rw (consume_oauth_test_state, e) refl)
  | inr (state, e) ↦ elim (Option-cases (lookup digest s.oauth_test_contexts)) [
    | inl f ↦
        declines (rw (consume_oauth_test_state, e) (rw f refl))
          (rw (consume_oauth_test_state, e) (rw f refl))
    | inr (context, f) ↦ elim (Bool-cases (oauth_times_are_consistent (consumed state now))) [
      | inl g ↦ uses state e (rw (consume_oauth_test_state, e) (rw f (rw g refl)))
      | inr g ↦
          declines (rw (consume_oauth_test_state, e) (rw f (rw g refl)))
            (rw (consume_oauth_test_state, e) (rw f (rw g refl)))
    ]
  ]
]

pub consume_login-Consumption :
    (digest : String) (now : ℕ) (s : WebState)
    → Consumption digest now s (consume_oauth_login_state digest now s)
unfolding consume_oauth_login_state
consume_login-Consumption digest now s = elim (Option-cases (usable_state digest now s)) [
  | inl e ↦
      declines (rw (consume_oauth_login_state, e) refl) (rw (consume_oauth_login_state, e) refl)
  | inr (state, e) ↦ elim (Option-cases (lookup digest s.oauth_login_contexts)) [
    | inl f ↦
        declines (rw (consume_oauth_login_state, e) (rw f refl))
          (rw (consume_oauth_login_state, e) (rw f refl))
    | inr (context, f) ↦ elim (Bool-cases (oauth_times_are_consistent (consumed state now))) [
      | inl g ↦ uses state e (rw (consume_oauth_login_state, e) (rw f (rw g refl)))
      | inr g ↦
          declines (rw (consume_oauth_login_state, e) (rw f (rw g refl)))
            (rw (consume_oauth_login_state, e) (rw f (rw g refl)))
    ]
  ]
]

pub change_password-unset :
    (c : ChangePasswordCommand) (now : ℕ) (s : WebState)
    → s.local_admin ≡ none
    → (change_password_and_rotate_session c now s).1 ≡ s
unfolding change_password_and_rotate_session
change_password-unset c now s h = ground arith

pub change_password-set :
    (c : ChangePasswordCommand) (now : ℕ) (s : WebState) (admin : LocalAdminRecord)
    → s.local_admin ≡ some admin
    → (change_password_and_rotate_session c now s).1 ≡ record s {
      local_admin = some (record {
        password_hash = c.password_hash;
        must_change_password = false;
        user_id = admin.user_id;
      });
      web_sessions = (changed_sessions c now s).1;
    }
unfolding change_password_and_rotate_session
change_password-set c now s admin h = ground arith

-- The ways a rotation can go.
pub data Rotation (c : RotateWebSessionCommand) (now : ℕ) (s : WebState) (r : WebResult WebSession)
    : Type 0 where
  stays : is_answer r.0 ≡ false → r.1 ≡ s → Rotation c now s r
  rotates :
      (sessions : Dict String WebSession)
      → lookup c.session_digest s.web_sessions ≡ none
      → revoke_previous c.previous_session_digest now s.web_sessions ≡ some sessions
      → r.1 ≡ record s { web_sessions = insert c.session_digest (new_session c now) sessions }
      → Rotation c now s r

pub rotate_session-Rotation :
    (c : RotateWebSessionCommand) (now : ℕ) (s : WebState)
    → Rotation c now s (rotate_session c now s)
unfolding rotate_session
rotate_session-Rotation c now s = elim (Option-cases (lookup c.session_digest s.web_sessions)) [
  | inr (w, e) ↦ stays (rw (rotate_session, e) refl) (rw (rotate_session, e) refl)
  | inl e ↦ elim (Option-cases (revoke_previous c.previous_session_digest now s.web_sessions)) [
    | inl f ↦ stays (rw (rotate_session, e, f) refl) (rw (rotate_session, e, f) refl)
    | inr (sessions, f) ↦ rotates sessions e f (rw (rotate_session, e, f) refl)
  ]
]

-- The ways a revocation can go.
pub data Revocation (digest : String) (now : ℕ) (s : WebState) (r : WebResult Bool) : Type 0 where
  refused : is_answer r.0 ≡ false → r.1 ≡ s → Revocation digest now s r
  closed : open_session digest s.web_sessions ≡ none → r.1 ≡ s → Revocation digest now s r
  revokes :
      (w : WebSession)
      → open_session digest s.web_sessions ≡ some w
      → r.1 ≡ record s { web_sessions = insert w.session_digest (revoked w now) s.web_sessions }
      → Revocation digest now s r

pub revoke_session-Revocation :
    (digest : String) (now : ℕ) (s : WebState)
    → Revocation digest now s (revoke_session digest now s)
unfolding revoke_session
revoke_session-Revocation digest now s = elim (Option-cases (open_session digest s.web_sessions)) [
  | inl e ↦ closed e (rw (revoke_session, e) refl)
  | inr (w, e) ↦ elim (Bool-cases (session_times_are_consistent (revoked w now))) [
    | inl f ↦ revokes w e (rw (revoke_session, e) (rw f refl))
    | inr f ↦ refused (rw (revoke_session, e) (rw f refl)) (rw (revoke_session, e) (rw f refl))
  ]
]
