-- ===== src/Web/Domains.antt =====
-- The two uses of OAuth states, from issue to consumption: each gives back what it was issued with, and
-- neither takes a state of the other.
use xiaowei_agent.Contracts.Task.{is_set}
use xiaowei_agent.Dict.{lookup, insert, lookup-insert_self}
use xiaowei_agent.Prelude.{
  string_eq, nat_eq, leb, if◌then◌else◌, Bool-cases, length, ℕ, ◌≤◌, ◌<◌, String, ◌≡◌, refl, ap,
  ◌∙◌, ◌⊎◌, inl, inr, true, none, some, List, arith,
}
use xiaowei_agent.Web.Calls.{Request, serve, serve_all}
use xiaowei_agent.Web.Contracts.{
  WebReturnIntent, OAuthState, OAuthLoginState, OAuthTestState, OAuthTestContext,
  IssueOAuthStateCommand, IssueOAuthLoginStateCommand, IssueOAuthTestStateCommand, WebError,
  WebState, Reply, is_answer, answer, raise,
}
use xiaowei_agent.Web.Invariant.{WebInv, cleanup-WebInv}
use xiaowei_agent.Web.OAuth.{
  is_stale_state, cleanup_oauth_states, has_operation, new_state, keep_test_context,
  keep_login_context, issue_oauth_state, issue_oauth_test_state, issue_oauth_login_state,
  usable_state, oauth_times_are_consistent, consumed, consume_oauth_test_state,
  consume_oauth_login_state,
}
use xiaowei_agent.Web.RoundTrip.{IsPending, all_spare, serve_all-Pending}
use xiaowei_agent.Web.Served.{serve-WebInv}

-- what is answered when a state is issued
abbrev pub issued_test : IssueOAuthTestStateCommand → ℕ → OAuthTestState
issued_test c now = record {
  state = new_state c.issue now;
  operation_id = c.operation_id;
  config_generation = c.config_generation;
}

abbrev pub issued_login : IssueOAuthLoginStateCommand → ℕ → OAuthLoginState
issued_login c now = record { state = new_state c.issue now; return_intent = c.return_intent }

issue_oauth_state-cases :
    (capacity : ℕ) (c : IssueOAuthStateCommand) (now : ℕ) (s : WebState)
    → ((e : WebError) × (issue_oauth_state capacity c now s ≡ (raise e, s)))
      ⊎ ((lookup c.state_digest s.oauth_states ≡ none)
          × (issue_oauth_state capacity c now s ≡ (
            answer (new_state c now),
            record s { oauth_states = insert c.state_digest (new_state c now) s.oauth_states },
          )))
unfolding issue_oauth_state
issue_oauth_state-cases capacity c now s =
    elim (Bool-cases (is_set (lookup c.state_digest s.oauth_states))) [
      | inl f ↦ inl (WebError.web_session_conflict, rw (issue_oauth_state, f) refl)
      | inr f ↦ elim (Bool-cases (leb capacity (length s.oauth_states))) [
        | inl g ↦ inl (WebError.oauth_state_capacity, rw (issue_oauth_state, f, g) refl)
        | inr g ↦ inr (ground (arith, f), rw (issue_oauth_state, f, g) refl)
      ]
    ]

kept_test-IsPending :
    (capacity : ℕ) (c : IssueOAuthTestStateCommand) (now : ℕ) (s : WebState)
    (issued : OAuthTestState)
    → WebInv capacity s
    → (keep_test_context c (issue_oauth_state capacity c.issue now s)).0 ≡ answer issued
    → (issued ≡ issued_test c now)
      × IsPending c.issue.state_digest
          (new_state c.issue now)
          none
          (some (record { operation_id = c.operation_id; config_generation = c.config_generation }))
          (keep_test_context c (issue_oauth_state capacity c.issue now s)).1
unfolding keep_test_context new_state
kept_test-IsPending capacity c now s issued v h =
    elim (issue_oauth_state-cases capacity c.issue now s) [
      | inl (e, step) ↦ absurd (ground (arith, h, step))
      | inr (free, step) ↦
          let context : OAuthTestContext = record {
            operation_id = c.operation_id;
            config_generation = c.config_generation;
          } in
          rw (keep_test_context, step)
            (
              ground (arith, h, step),
              record {
                stands =
                    lookup-insert_self c.issue.state_digest (new_state c.issue now) s.oauth_states;
                unused = refl;
                intent_kept = ground (arith, v.contexts c.issue.state_digest, free);
                context_kept =
                    lookup-insert_self c.issue.state_digest context s.oauth_test_contexts;
              },
            )
    ]

kept_login-IsPending :
    (capacity : ℕ) (c : IssueOAuthLoginStateCommand) (now : ℕ) (s : WebState)
    (issued : OAuthLoginState)
    → WebInv capacity s
    → (keep_login_context c (issue_oauth_state capacity c.issue now s)).0 ≡ answer issued
    → (issued ≡ issued_login c now)
      × IsPending c.issue.state_digest
          (new_state c.issue now)
          (some c.return_intent)
          none
          (keep_login_context c (issue_oauth_state capacity c.issue now s)).1
unfolding keep_login_context new_state
kept_login-IsPending capacity c now s issued v h =
    elim (issue_oauth_state-cases capacity c.issue now s) [
      | inl (e, step) ↦ absurd (ground (arith, h, step))
      | inr (free, step) ↦
          rw (keep_login_context, step)
            (
              ground (arith, h, step),
              record {
                stands =
                    lookup-insert_self c.issue.state_digest (new_state c.issue now) s.oauth_states;
                unused = refl;
                intent_kept =
                    lookup-insert_self c.issue.state_digest c.return_intent s.oauth_login_contexts;
                context_kept = ground (arith, v.contexts c.issue.state_digest, free);
              },
            )
    ]

answered : {A : Type 0} (r : Reply A) → is_answer r ≡ true → (x : A) × (r ≡ answer x)
answered (answer x) h = (x, refl)
answered (raise e) h = absurd (ground arith)

issued_test-IsPending :
    (capacity : ℕ) (c : IssueOAuthTestStateCommand) (now : ℕ) (s : WebState)
    (issued : OAuthTestState)
    → WebInv capacity s
    → (issue_oauth_test_state capacity c now s).0 ≡ answer issued
    → (issued ≡ issued_test c now)
      × IsPending c.issue.state_digest
          (new_state c.issue now)
          none
          (some (record { operation_id = c.operation_id; config_generation = c.config_generation }))
          (issue_oauth_test_state capacity c now s).1
unfolding issue_oauth_test_state
issued_test-IsPending capacity c now s issued v h =
    let cleaned = cleanup_oauth_states now s in
    let w = cleanup-WebInv now s v in
    elim (Bool-cases (has_operation c.operation_id cleaned.oauth_test_contexts)) [
      | inl e ↦ absurd (ground (arith, h, e))
      | inr e ↦
          rw (issue_oauth_test_state, e, if◌then◌else◌)
            (kept_test-IsPending capacity c now cleaned issued w (ground (arith, h, e)))
    ]

consume_test-Pending :
    (digest : String) (now : ℕ) (s : WebState) (state : OAuthState) (context : OAuthTestContext)
    → IsPending digest state none (some context) s
    → state.issued_at ≤ now
    → now < state.expires_at
    → ((consume_oauth_test_state digest now s).0
        ≡ answer (record {
          state = consumed state now;
          operation_id = context.operation_id;
          config_generation = context.config_generation;
        }))
      × (consume_oauth_login_state digest now s ≡ (raise WebError.oauth_login_context_not_found, s))
unfolding consume_oauth_test_state consume_oauth_login_state usable_state is_stale_state consumed
    oauth_times_are_consistent
consume_test-Pending digest now s state context h late early =
    ground (arith, h.stands, h.unused, h.intent_kept, h.context_kept)

-- When a connection test state is issued, and of the requests served after it none consumes its
-- digest and none issues a state at or past its expiry, then consuming it as such, not before its
-- issue and before it expires,
-- returns it with its operation and generation, and consuming it as the other kind is refused and changes
-- nothing.
pub issued_test_state_comes_back :
    (capacity : ℕ) (c : IssueOAuthTestStateCommand) (now later : ℕ) (rs : List Request)
    (s : WebState)
    → WebInv capacity s
    → is_answer (issue_oauth_test_state capacity c now s).0 ≡ true
    → all_spare c.issue.state_digest (new_state c.issue now).expires_at rs ≡ true
    → now ≤ later
    → later < (new_state c.issue now).expires_at
    → let t = serve_all capacity rs (serve capacity (Request.issue_test c now) s) in
      ((issue_oauth_test_state capacity c now s).0 ≡ answer (issued_test c now))
      × ((consume_oauth_test_state c.issue.state_digest later t).0
          ≡ answer (record (issued_test c now) { state = consumed (new_state c.issue now) later }))
      × (consume_oauth_login_state c.issue.state_digest later t
          ≡ (raise WebError.oauth_login_context_not_found, t))
unfolding serve new_state
issued_test_state_comes_back capacity c now later rs s v given quiet late early =
    let (issued, e) = answered _ given in
    let (same, pending) = issued_test-IsPending capacity c now s issued v e in
    let w = serve-WebInv capacity (Request.issue_test c now) s v in
    let first = serve capacity (Request.issue_test c now) s in
    let kept =
      serve_all-Pending c.issue.state_digest (new_state c.issue now) none
        (some (record { operation_id = c.operation_id; config_generation = c.config_generation }))
        capacity rs first w quiet pending in
    let (got, refused) =
      consume_test-Pending c.issue.state_digest later (serve_all capacity rs first)
        (new_state c.issue now) _ kept late early in
    (e ∙ ap answer same, got, refused)

issued_login-IsPending :
    (capacity : ℕ) (c : IssueOAuthLoginStateCommand) (now : ℕ) (s : WebState)
    (issued : OAuthLoginState)
    → WebInv capacity s
    → (issue_oauth_login_state capacity c now s).0 ≡ answer issued
    → (issued ≡ issued_login c now)
      × IsPending c.issue.state_digest
          (new_state c.issue now)
          (some c.return_intent)
          none
          (issue_oauth_login_state capacity c now s).1
unfolding issue_oauth_login_state
issued_login-IsPending capacity c now s issued v h =
    kept_login-IsPending capacity c now (cleanup_oauth_states now s) issued (cleanup-WebInv now s v)
      h

consume_login-Pending :
    (digest : String) (now : ℕ) (s : WebState) (state : OAuthState) (intent : WebReturnIntent)
    → IsPending digest state (some intent) none s
    → state.issued_at ≤ now
    → now < state.expires_at
    → ((consume_oauth_login_state digest now s).0
        ≡ answer (record { state = consumed state now; return_intent = intent }))
      × (consume_oauth_test_state digest now s ≡ (raise WebError.oauth_test_context_not_found, s))
unfolding consume_oauth_login_state consume_oauth_test_state usable_state is_stale_state consumed
    oauth_times_are_consistent
consume_login-Pending digest now s state intent h late early =
    ground (arith, h.stands, h.unused, h.intent_kept, h.context_kept)

-- When a login state is issued, and of the requests served after it none consumes its
-- digest and none issues a state at or past its expiry, then consuming it as such, not before its
-- issue and before it expires,
-- returns it with its return intent, and consuming it as the other kind is refused and changes
-- nothing.
pub issued_login_state_comes_back :
    (capacity : ℕ) (c : IssueOAuthLoginStateCommand) (now later : ℕ) (rs : List Request)
    (s : WebState)
    → WebInv capacity s
    → is_answer (issue_oauth_login_state capacity c now s).0 ≡ true
    → all_spare c.issue.state_digest (new_state c.issue now).expires_at rs ≡ true
    → now ≤ later
    → later < (new_state c.issue now).expires_at
    → let t = serve_all capacity rs (serve capacity (Request.issue_login c now) s) in
      ((issue_oauth_login_state capacity c now s).0 ≡ answer (issued_login c now))
      × ((consume_oauth_login_state c.issue.state_digest later t).0
          ≡ answer (record (issued_login c now) { state = consumed (new_state c.issue now) later }))
      × (consume_oauth_test_state c.issue.state_digest later t
          ≡ (raise WebError.oauth_test_context_not_found, t))
unfolding serve new_state
issued_login_state_comes_back capacity c now later rs s v given quiet late early =
    let (issued, e) = answered _ given in
    let (same, pending) = issued_login-IsPending capacity c now s issued v e in
    let w = serve-WebInv capacity (Request.issue_login c now) s v in
    let first = serve capacity (Request.issue_login c now) s in
    let kept =
      serve_all-Pending c.issue.state_digest (new_state c.issue now) (some c.return_intent) none
        capacity rs first w quiet pending in
    let (got, refused) =
      consume_login-Pending c.issue.state_digest later (serve_all capacity rs first)
        (new_state c.issue now) c.return_intent kept late early in
    (e ∙ ap answer same, got, refused)
