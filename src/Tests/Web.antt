-- ===== src/Tests/Web.antt =====
-- The theorems on OAuth states and sessions at the runs of a small scenario.
use xiaowei_agent.Dict.{lookup, insert}
use xiaowei_agent.Dict.Erase.{remove}
use xiaowei_agent.Prelude.{
  string_eq, nat_eq, length, String, ◌≡◌, Option, none, List, [], ◌∷◌, ◌<◌, refl, ◌↔◌, some, arith,
}
use xiaowei_agent.Web.Calls.{Request, serve, serve_all}
use xiaowei_agent.Web.Contracts.{
  IdentitySource, WebReturnIntentKind, IssueOAuthLoginStateCommand, IssueOAuthTestStateCommand,
  RotateWebSessionCommand, WebState, empty_web_state, WebSession, WebError, answer, raise,
}
use xiaowei_agent.Web.Domains.{
  issued_test, issued_login, issued_test_state_comes_back, issued_login_state_comes_back,
}
use xiaowei_agent.Web.Ends.{get_session-answer, ended_session_never_returns, replacement}
use xiaowei_agent.Web.Invariant.{WebInv, empty-WebInv}
use xiaowei_agent.Web.OAuth.{
  is_stale_state, stale_digests, drop_state, drop_states, cleanup_oauth_states, has_operation,
  new_state, keep_test_context, keep_login_context, issue_oauth_state, issue_oauth_test_state,
  issue_oauth_login_state, usable_state, consumed, mark_consumed, consume_oauth_test_state,
  consume_oauth_login_state, oauth_times_are_consistent,
}
use xiaowei_agent.Web.Served.{serve_all-WebInv}
use xiaowei_agent.Web.Sessions.{
  new_session, revoked, open_session, revoke_previous, rotate_session, get_session, revoke_session,
  session_times_are_consistent,
}
use xiaowei_agent.Web.SingleUse.{OAuthUse, oauth_state_is_used_once}

abbrev test_command : IssueOAuthTestStateCommand
test_command = record {
  issue = record { state_digest = "t1"; ttl_seconds = 60 };
  operation_id = "w4:op";
  config_generation = 7;
}

abbrev login_command : IssueOAuthLoginStateCommand
login_command = record {
  issue = record { state_digest = "l1"; ttl_seconds = 60 };
  return_intent = record {
    kind = WebReturnIntentKind.workbench;
    task_id = none;
    request_id = none;
  };
}

abbrev rotation : String → Option String → RotateWebSessionCommand
rotation digest previous = record {
  session_digest = digest;
  subject_ref = "local-admin";
  ttl_seconds = 100;
  previous_session_digest = previous;
  auth_source = IdentitySource.local_admin;
  public_origin_digest = "origin";
}

-- one state of each kind and one session
abbrev opening : List Request
opening =
    Request.issue_test test_command 5
    ∷ Request.issue_login login_command 6
    ∷ Request.rotate (rotation "s1" none) 7
    ∷ []

unfoldable opened_web : WebState
unfolding serve_all serve issue_oauth_test_state issue_oauth_login_state issue_oauth_state
    keep_test_context keep_login_context new_state cleanup_oauth_states drop_states drop_state
    stale_digests is_stale_state has_operation consume_oauth_test_state consume_oauth_login_state
    usable_state consumed mark_consumed rotate_session new_session revoke_previous open_session
    revoked revoke_session oauth_times_are_consistent session_times_are_consistent lookup insert
    remove
opened_web = serve_all 8 opening empty_web_state

opened_web-WebInv : WebInv 8 opened_web
unfolding opened_web
opened_web-WebInv = serve_all-WebInv 8 opening empty_web_state empty-WebInv

serve_all-WebInv_example : WebInv 8 (serve_all 8 opening empty_web_state)
serve_all-WebInv_example = serve_all-WebInv 8 opening empty_web_state empty-WebInv

two_states : length opened_web.oauth_states ≡ 2
unfolding opened_web
two_states = refl

abbrev busy : List Request
busy =
    Request.consume_login "l1" 20
    ∷ Request.rotate (rotation "s2" (some "s1")) 21
    ∷ Request.revoke "s2" 22
    ∷ []

-- with a clock that went back, the copy is not valid, and nothing changes
early_consumption :
    consume_oauth_test_state "t1" 4 opened_web ≡ (raise WebError.validation_error, opened_web)
unfolding opened_web
early_consumption = refl

early_revocation : revoke_session "s1" 6 opened_web ≡ (raise WebError.validation_error, opened_web)
unfolding opened_web
early_revocation = refl

oauth_state_is_used_once_example :
    let t = serve_all 8 busy (serve 8 (Request.consume_test "t1" 10) opened_web) in
    (consume_oauth_test_state "t1" 30 t ≡ (raise WebError.oauth_state_not_found, t))
    × (consume_oauth_login_state "t1" 30 t ≡ (raise WebError.oauth_state_not_found, t))
unfolding opened_web
oauth_state_is_used_once_example =
    oauth_state_is_used_once 8 OAuthUse.connection_test "t1" 10 30 busy opened_web opened_web-WebInv
      refl refl

issued_test_state_comes_back_example :
    let s = serve 8 (Request.issue_test test_command 5) empty_web_state in
    ((issue_oauth_test_state 8 test_command 5 empty_web_state).0
      ≡ answer (issued_test test_command 5))
    × ((consume_oauth_test_state "t1" 30 (serve_all 8 busy s)).0
        ≡ answer (record (issued_test test_command 5) {
          state = consumed (new_state test_command.issue 5) 30;
        }))
    × (consume_oauth_login_state "t1" 30 (serve_all 8 busy s)
        ≡ (raise WebError.oauth_login_context_not_found, serve_all 8 busy s))
unfolding opened_web
issued_test_state_comes_back_example =
    issued_test_state_comes_back 8 test_command 5 30 busy empty_web_state empty-WebInv refl refl
      (omega arith) (omega arith)

issued_login_state_comes_back_example :
    let s = serve 8 (Request.issue_login login_command 5) empty_web_state in
    let quiet = Request.consume_test "t1" 9 ∷ Request.issue_test test_command 10 ∷ [] in
    ((issue_oauth_login_state 8 login_command 5 empty_web_state).0
      ≡ answer (issued_login login_command 5))
    × ((consume_oauth_login_state "l1" 30 (serve_all 8 quiet s)).0
        ≡ answer (record (issued_login login_command 5) {
          state = consumed (new_state login_command.issue 5) 30;
        }))
    × (consume_oauth_test_state "l1" 30 (serve_all 8 quiet s)
        ≡ (raise WebError.oauth_test_context_not_found, serve_all 8 quiet s))
unfolding opened_web
issued_login_state_comes_back_example =
    issued_login_state_comes_back 8 login_command 5 30
      (Request.consume_test "t1" 9 ∷ Request.issue_test test_command 10 ∷ []) empty_web_state
      empty-WebInv refl refl (omega arith) (omega arith)

abbrev first_session : WebSession
first_session = record {
  session_digest = "s1";
  subject_ref = "local-admin";
  issued_at = 7;
  expires_at = 100000007;
  revoked_at = none;
  auth_source = IdentitySource.local_admin;
  public_origin_digest = "origin";
}

get_session-answer_example :
    (get_session (record { session_digest = "s1"; public_origin_digest = "origin" }) 9 opened_web
      ≡ answer first_session)
    ↔ ((lookup "s1" opened_web.web_sessions ≡ some first_session)
        × (first_session.revoked_at ≡ none)
        × (9 < first_session.expires_at)
        × (first_session.public_origin_digest ≡ "origin"))
get_session-answer_example =
    get_session-answer (record { session_digest = "s1"; public_origin_digest = "origin" }) 9
      opened_web first_session

session_is_found :
    get_session (record { session_digest = "s1"; public_origin_digest = "origin" }) 9 opened_web
    ≡ answer first_session
unfolding opened_web get_session
session_is_found = refl

ended_session_never_returns_example :
    get_session
      (record { session_digest = "s1"; public_origin_digest = "origin" })
      40
      (serve_all 8 busy (serve 8 (Request.rotate (rotation "s9" (some "s1")) 9) opened_web))
    ≡ raise WebError.web_session_not_found
unfolding opened_web
ended_session_never_returns_example =
    ended_session_never_returns 8 "s1" "origin" first_session 40
      (Request.rotate (rotation "s9" (some "s1")) 9) busy opened_web opened_web-WebInv refl
      (replacement (rotation "s9" (some "s1")) 9 refl refl) refl
