-- ===== src/Web/Calls.antt =====
-- Calls of the two stores, and what a sequence of them makes of the state. Each runs under the lock, so an
-- interleaving of requests is such a sequence; a call carries its read of the clock.
use xiaowei_agent.Prelude.{string_eq, nat_eq, ℕ, String, List, [], ◌∷◌}
use xiaowei_agent.Web.Contracts.{
  IssueOAuthLoginStateCommand, IssueOAuthTestStateCommand, RotateWebSessionCommand,
  ChangePasswordCommand, WebState,
}
use xiaowei_agent.Web.OAuth.{
  issue_oauth_test_state, issue_oauth_login_state, consume_oauth_test_state,
  consume_oauth_login_state,
}
use xiaowei_agent.Web.Sessions.{rotate_session, revoke_session, change_password_and_rotate_session}

pub data Request : Type 0 where
  issue_test : IssueOAuthTestStateCommand → ℕ → Request
  issue_login : IssueOAuthLoginStateCommand → ℕ → Request
  consume_test : String → ℕ → Request
  consume_login : String → ℕ → Request
  rotate : RotateWebSessionCommand → ℕ → Request
  revoke : String → ℕ → Request
  change_password : ChangePasswordCommand → ℕ → Request

module _ (capacity : ℕ) where
  unfoldable pub serve : Request → WebState → WebState
  serve (Request.issue_test c now) s = (issue_oauth_test_state capacity c now s).1
  serve (Request.issue_login c now) s = (issue_oauth_login_state capacity c now s).1
  serve (Request.consume_test digest now) s = (consume_oauth_test_state digest now s).1
  serve (Request.consume_login digest now) s = (consume_oauth_login_state digest now s).1
  serve (Request.rotate c now) s = (rotate_session c now s).1
  serve (Request.revoke digest now) s = (revoke_session digest now s).1
  serve (Request.change_password c now) s = (change_password_and_rotate_session c now s).1

  unfoldable pub serve_all : List Request → WebState → WebState
  serve_all [] s = s
  serve_all (r ∷ rs) s = serve_all rs (serve r s)
