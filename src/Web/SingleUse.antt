-- ===== src/Web/SingleUse.antt =====
-- The one use of an OAuth state over any sequence of requests.
use xiaowei_agent.Contracts.Task.{is_set}
use xiaowei_agent.Dict.{lookup, lookup-insert}
use xiaowei_agent.Dict.Erase.{IsDistinct}
use xiaowei_agent.Prelude.{
  string_eq, nat_eq, ◌==◌, ℕ, String, ◌≡◌, refl, Bool, true, false, ◌||◌, none, some, List, [], ◌∷◌,
  arith, eq_iff,
}
use xiaowei_agent.Web.Calls.{Request, serve, serve_all}
use xiaowei_agent.Web.Cleanup.{cleanup_oauth_states-Drops}
use xiaowei_agent.Web.Contracts.{
  OAuthState, IssueOAuthLoginStateCommand, IssueOAuthTestStateCommand, WebError, WebState,
  WebResult, is_answer, raise,
}
use xiaowei_agent.Web.Invariant.{WebInv}
use xiaowei_agent.Web.OAuth.{
  is_stale_state, cleanup_oauth_states, new_state, keep_test_context, keep_login_context,
  issue_oauth_state, issue_oauth_test_state, issue_oauth_login_state, usable_state, consumed,
  mark_consumed, consume_oauth_test_state, consume_oauth_login_state,
}
use xiaowei_agent.Web.Outcomes.{
  usable_state-lookup, Consumption, consume_test-Consumption, consume_login-Consumption, declines,
  uses,
}
use xiaowei_agent.Web.Served.{serve-WebInv}
use xiaowei_agent.Web.Sessions.{rotate_session, revoke_session, change_password_and_rotate_session}

-- no state under the digest can be consumed, at any time
abbrev pub is_spent : String → WebState → Bool
is_spent digest s = elim (lookup digest s.oauth_states) [
  | none ↦ true
  | some state ↦ is_set state.consumed_at
]

-- the request issues a state under the digest
abbrev pub issues_under : Request → String → Bool
issues_under (Request.issue_test c now) digest = c.issue.state_digest == digest
issues_under (Request.issue_login c now) digest = c.issue.state_digest == digest
issues_under _ digest = false

abbrev pub any_issues_under : List Request → String → Bool
any_issues_under [] digest = false
any_issues_under (r ∷ rs) digest = issues_under r digest || any_issues_under rs digest

spent_unusable :
    (digest : String) (now : ℕ) (s : WebState)
    → is_spent digest s ≡ true
    → usable_state digest now s ≡ none
unfolding usable_state is_stale_state
spent_unusable digest now s h = ground arith

cleanup-spent :
    (digest : String) (now : ℕ) (s : WebState)
    → IsDistinct s.oauth_states
    → is_spent digest s ≡ true
    → is_spent digest (cleanup_oauth_states now s) ≡ true
cleanup-spent digest now s distinct h =
    let d = cleanup_oauth_states-Drops now s distinct in ground (arith, d.states digest)

keep_test-spent :
    (capacity : ℕ) (digest : String) (c : IssueOAuthTestStateCommand) (now : ℕ) (s : WebState)
    → (c.issue.state_digest == digest) ≡ false
    → is_spent digest s ≡ true
    → is_spent digest (keep_test_context c (issue_oauth_state capacity c.issue now s)).1 ≡ true
unfolding keep_test_context issue_oauth_state
keep_test-spent capacity digest c now s other h =
    ground (arith, lookup-insert c.issue.state_digest digest (new_state c.issue now) s.oauth_states)

keep_login-spent :
    (capacity : ℕ) (digest : String) (c : IssueOAuthLoginStateCommand) (now : ℕ) (s : WebState)
    → (c.issue.state_digest == digest) ≡ false
    → is_spent digest s ≡ true
    → is_spent digest (keep_login_context c (issue_oauth_state capacity c.issue now s)).1 ≡ true
unfolding keep_login_context issue_oauth_state
keep_login-spent capacity digest c now s other h =
    ground (arith, lookup-insert c.issue.state_digest digest (new_state c.issue now) s.oauth_states)

mark_consumed-spent :
    (digest : String) (state : OAuthState) (now : ℕ) (s : WebState)
    → is_spent digest s ≡ true
    → is_spent digest (mark_consumed state now s) ≡ true
unfolding mark_consumed consumed
mark_consumed-spent digest state now s h =
    ground (arith, lookup-insert state.state_digest digest (consumed state now) s.oauth_states)

consume-spent :
    {A : Type 0} (digest d : String) (now : ℕ) (s : WebState) (r : WebResult A)
    → is_spent digest s ≡ true
    → Consumption d now s r
    → is_spent digest r.1 ≡ true
consume-spent digest d now s r h (declines a e) = rw e h
consume-spent digest d now s r h (uses state u e) = rw e (mark_consumed-spent digest state now s h)

serve-spent :
    (capacity : ℕ) (digest : String) (r : Request) (s : WebState)
    → WebInv capacity s
    → issues_under r digest ≡ false
    → is_spent digest s ≡ true
    → is_spent digest (serve capacity r s) ≡ true
unfolding serve issue_oauth_login_state issue_oauth_test_state consume_oauth_test_state
    consume_oauth_login_state rotate_session revoke_session change_password_and_rotate_session
serve-spent capacity digest (Request.issue_test c now) s v other h =
    let cleaned = cleanup_oauth_states now s in
    ground (
      arith,
      keep_test-spent capacity digest c now cleaned other,
      cleanup-spent digest now s v.distinct,
    )
serve-spent capacity digest (Request.issue_login c now) s v other h =
    keep_login-spent capacity digest c now (cleanup_oauth_states now s) other
      (cleanup-spent digest now s v.distinct h)
serve-spent capacity digest (Request.consume_test d now) s v other h =
    consume-spent digest d now s _ h (consume_test-Consumption d now s)
serve-spent capacity digest (Request.consume_login d now) s v other h =
    consume-spent digest d now s _ h (consume_login-Consumption d now s)
serve-spent capacity digest (Request.rotate c now) s v other h = ground arith
serve-spent capacity digest (Request.revoke d now) s v other h = ground arith
serve-spent capacity digest (Request.change_password c now) s v other h = ground arith

serve_all-spent :
    (capacity : ℕ) (digest : String) (rs : List Request) (s : WebState)
    → WebInv capacity s
    → any_issues_under rs digest ≡ false
    → is_spent digest s ≡ true
    → is_spent digest (serve_all capacity rs s) ≡ true
unfolding serve_all
serve_all-spent capacity digest [] s v other h = h
serve_all-spent capacity digest (r ∷ rs) s v other h =
    serve_all-spent capacity digest rs (serve capacity r s) (serve-WebInv capacity r s v)
      (ground arith) (serve-spent capacity digest r s v (ground arith) h)

-- a consumption that was answered leaves the digest spent
answered-spent :
    {A : Type 0} (capacity : ℕ) (digest : String) (now : ℕ) (s : WebState) (r : WebResult A)
    → WebInv capacity s
    → is_answer r.0 ≡ true
    → Consumption digest now s r
    → is_spent digest r.1 ≡ true
unfolding mark_consumed consumed
answered-spent capacity digest now s r v h (declines a e) = absurd (cc (h, a))
answered-spent capacity digest now s r v h (uses state u e) =
    let key = v.keyed digest state (usable_state-lookup digest now s state u).0 in
    rw e (
      ground (
        arith,
        key,
        lookup-insert state.state_digest digest (consumed state now) s.oauth_states,
        eq_iff state.state_digest digest,
      ))

spent_refused :
    (digest : String) (now : ℕ) (s : WebState)
    → is_spent digest s ≡ true
    → (consume_oauth_test_state digest now s ≡ (raise WebError.oauth_state_not_found, s))
      × (consume_oauth_login_state digest now s ≡ (raise WebError.oauth_state_not_found, s))
unfolding consume_oauth_test_state consume_oauth_login_state
spent_refused digest now s h =
    let e = spent_unusable digest now s h in
    (rw (consume_oauth_test_state, e) refl, rw (consume_oauth_login_state, e) refl)

-- The two uses of a state.
pub data OAuthUse : Type 0 where
  connection_test login : OAuthUse

abbrev pub use_request : OAuthUse → String → ℕ → Request
use_request OAuthUse.connection_test digest now = Request.consume_test digest now
use_request OAuthUse.login digest now = Request.consume_login digest now

abbrev pub is_used : OAuthUse → String → ℕ → WebState → Bool
is_used OAuthUse.connection_test digest now s = is_answer (consume_oauth_test_state digest now s).0
is_used OAuthUse.login digest now s = is_answer (consume_oauth_login_state digest now s).0

used-spent :
    (capacity : ℕ) (use_ : OAuthUse) (digest : String) (now : ℕ) (s : WebState)
    → WebInv capacity s
    → is_used use_ digest now s ≡ true
    → is_spent digest (serve capacity (use_request use_ digest now) s) ≡ true
unfolding serve
used-spent capacity OAuthUse.connection_test digest now s v h =
    answered-spent capacity digest now s _ v h (consume_test-Consumption digest now s)
used-spent capacity OAuthUse.login digest now s v h =
    answered-spent capacity digest now s _ v h (consume_login-Consumption digest now s)

-- After a state is consumed for a connection test or a login, whatever requests are served that do not
-- issue its digest anew, every attempt to consume it, for either use and at any time, raises
-- OAuthStateNotFound and changes nothing.
pub oauth_state_is_used_once :
    (capacity : ℕ) (use_ : OAuthUse) (digest : String) (now later : ℕ) (rs : List Request)
    (s : WebState)
    → WebInv capacity s
    → is_used use_ digest now s ≡ true
    → any_issues_under rs digest ≡ false
    → let t = serve_all capacity rs (serve capacity (use_request use_ digest now) s) in
      (consume_oauth_test_state digest later t ≡ (raise WebError.oauth_state_not_found, t))
      × (consume_oauth_login_state digest later t ≡ (raise WebError.oauth_state_not_found, t))
oauth_state_is_used_once capacity use_ digest now later rs s v used other =
    let first = serve capacity (use_request use_ digest now) s in
    spent_refused digest later (serve_all capacity rs first) (
      serve_all-spent capacity digest rs first
        (serve-WebInv capacity (use_request use_ digest now) s v) other
        (used-spent capacity use_ digest now s v used))
