-- ===== src/Web/Sessions.antt =====
-- The browser sessions of `InMemoryWebSessionStore`, and `change_password_and_rotate_session` of
-- `InMemoryLocalAdminStore` (persistence/fake.py).
use xiaowei_agent.Contracts.Json.{seconds}
use xiaowei_agent.Contracts.Task.{is_set}
use xiaowei_agent.Dict.{Dict, lookup, insert}
use xiaowei_agent.Prelude.{
  string_eq, nat_eq, ltb, leb, if◌then◌else◌, ◌==◌, ℕ, ◌+◌, String, Bool, true, false, not, ◌&&◌,
  ◌||◌, Option, none, some, List, [], ◌∷◌,
}
use xiaowei_agent.Web.Contracts.{
  source_eq, IdentitySource, WebSession, RotateWebSessionCommand, WebSessionLookup,
  LocalAdminRecord, ChangePasswordCommand, WebError, WebState, Reply, WebResult, answer, raise,
}

unfoldable pub new_session : RotateWebSessionCommand → ℕ → WebSession
new_session command now = record {
  session_digest = command.session_digest;
  subject_ref = command.subject_ref;
  issued_at = now;
  expires_at = now + seconds command.ttl_seconds;
  revoked_at = none;
  auth_source = command.auth_source;
  public_origin_digest = command.public_origin_digest;
}

abbrev revoked_in_time : Option ℕ → WebSession → Bool
revoked_in_time none session = true
revoked_in_time (some at) session = leb session.issued_at at

-- `WebSession._time_facts_are_consistent`
unfoldable pub session_times_are_consistent : WebSession → Bool
session_times_are_consistent session =
    ltb session.issued_at session.expires_at && revoked_in_time session.revoked_at session

-- the values that `session.model_copy(update={"revoked_at": now})` validates
unfoldable pub revoked : WebSession → ℕ → WebSession
revoked session now = record session { revoked_at = some now }

-- the session under the digest that was not revoked
unfoldable pub open_session : String → Dict String WebSession → Option WebSession
open_session digest sessions = elim (lookup digest sessions) [
  | none ↦ none
  | some session ↦ if is_set session.revoked_at then none else some session
]

-- the part of `rotate_session` on the previous digest; `none` is the ValidationError of its copy
unfoldable pub revoke_previous :
    Option String → ℕ → Dict String WebSession → Option (Dict String WebSession)
revoke_previous none now sessions = some sessions
revoke_previous (some previous_digest) now sessions = elim (open_session previous_digest sessions) [
  | none ↦ some sessions
  | some previous ↦
      if session_times_are_consistent (revoked previous now)
      then some (insert previous_digest (revoked previous now) sessions)
      else none
]

unfoldable pub rotate_session : RotateWebSessionCommand → ℕ → WebState → WebResult WebSession
rotate_session command now s =
    if is_set (lookup command.session_digest s.web_sessions)
    then (raise WebError.web_session_conflict, s)
    else let candidate = new_session command now in
      elim (revoke_previous command.previous_session_digest now s.web_sessions) [
        | none ↦ (raise WebError.validation_error, s)
        | some sessions ↦ (
          answer candidate,
          record s { web_sessions = insert command.session_digest candidate sessions },
        )
      ]

unfoldable pub get_session : WebSessionLookup → ℕ → WebState → Reply WebSession
get_session query now s = elim (lookup query.session_digest s.web_sessions) [
  | none ↦ raise WebError.web_session_not_found
  | some session ↦
      if is_set session.revoked_at
        || leb session.expires_at now
        || not (session.public_origin_digest == query.public_origin_digest)
      then raise WebError.web_session_not_found
      else answer session
]

unfoldable pub revoke_session : String → ℕ → WebState → WebResult Bool
revoke_session digest now s = elim (open_session digest s.web_sessions) [
  | none ↦ (answer false, s)
  | some session ↦
      if session_times_are_consistent (revoked session now)
      then (
        answer true,
        record s {
          web_sessions = insert session.session_digest (revoked session now) s.web_sessions;
        },
      )
      else (raise WebError.validation_error, s)
]

abbrev local_admin_subject_ref : String
local_admin_subject_ref = "local-admin"

unfoldable pub local_admin_session : ChangePasswordCommand → ℕ → WebSession
local_admin_session command now = record {
  session_digest = command.new_session_digest;
  subject_ref = local_admin_subject_ref;
  issued_at = now;
  expires_at = now + seconds command.session_ttl_seconds;
  revoked_at = none;
  auth_source = IdentitySource.local_admin;
  public_origin_digest = command.public_origin_digest;
}

-- `session.auth_source is IdentitySource.LOCAL_ADMIN and session.revoked_at is None`
unfoldable pub is_open_admin_session : WebSession → Bool
is_open_admin_session session =
    (session.auth_source == IdentitySource.local_admin) && not (is_set session.revoked_at)

-- `for digest, session in list(web_sessions.items()): if ...: web_sessions[digest] = ...`; `false` when a
-- copy raises ValidationError, which leaves the sessions written before it
unfoldable pub revoke_admin_sessions :
    List (String × WebSession) → ℕ → Dict String WebSession → Bool × Dict String WebSession
revoke_admin_sessions [] now sessions = (true, sessions)
revoke_admin_sessions ((digest, session) ∷ items) now sessions =
    if is_open_admin_session session && not (session_times_are_consistent (revoked session now))
    then (false, sessions)
    else revoke_admin_sessions items now (
        if is_open_admin_session session
        then insert digest (revoked session now) sessions
        else sessions)

-- the sessions that a change of password leaves
unfoldable pub changed_sessions :
    ChangePasswordCommand → ℕ → WebState → Bool × Dict String WebSession
changed_sessions command now s =
    let (all_revoked, sessions) = revoke_admin_sessions s.web_sessions now s.web_sessions in
    if all_revoked
    then (true, insert command.new_session_digest (local_admin_session command now) sessions)
    else (false, sessions)

unfoldable pub change_password_and_rotate_session :
    ChangePasswordCommand → ℕ → WebState → WebResult LocalAdminRecord
change_password_and_rotate_session command now s = elim s.local_admin [
  | none ↦ (raise WebError.local_admin_not_found, s)
  | some previous ↦
      let updated : LocalAdminRecord = record {
        password_hash = command.password_hash;
        must_change_password = false;
        user_id = previous.user_id;
      } in
      let (all_revoked, sessions) = changed_sessions command now s in
      (
        if all_revoked then answer updated else raise WebError.validation_error,
        record s { local_admin = some updated; web_sessions = sessions },
      )
]
