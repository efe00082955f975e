-- ===== src/Web/RoundTrip.antt =====
-- What is issued with an OAuth state comes back when it is consumed.
use xiaowei_agent.Dict.{Dict, lookup, lookup-insert}
use xiaowei_agent.Dict.Erase.{IsDistinct}
use xiaowei_agent.Prelude.{
  string_eq, nat_eq, ltb, if◌then◌else◌, Bool-cases, Option-cases, ◌==◌, ℕ, String, ◌≡◌, sym, subst,
  inl, inr, Bool, true, false, not, ◌&&◌, Option, none, some, List, [], ◌∷◌, arith, eq_iff,
}
use xiaowei_agent.Web.Calls.{Request, serve, serve_all}
use xiaowei_agent.Web.Cleanup.{is_stale_at, cleanup_oauth_states-Drops}
use xiaowei_agent.Web.Contracts.{
  WebReturnIntent, OAuthState, OAuthTestContext, WebSession, IssueOAuthLoginStateCommand,
  IssueOAuthTestStateCommand, RotateWebSessionCommand, LocalAdminRecord, WebState, WebResult,
}
use xiaowei_agent.Web.Invariant.{WebInv}
use xiaowei_agent.Web.OAuth.{
  is_stale_state, cleanup_oauth_states, has_operation, new_state, keep_test_context,
  keep_login_context, issue_oauth_state, issue_oauth_test_state, issue_oauth_login_state, consumed,
  mark_consumed,
}
use xiaowei_agent.Web.Outcomes.{
  usable_state-lookup, Consumption, consume_test-Consumption, consume_login-Consumption,
  change_password-unset, change_password-set, Rotation, rotate_session-Rotation, Revocation,
  revoke_session-Revocation, declines, uses, rotates, closed, revokes, stays, refused,
}
use xiaowei_agent.Web.Served.{serve-WebInv}

-- an unconsumed state stands under the digest with its contexts
pub record IsPending (digest : String) (state : OAuthState) (intent : Option WebReturnIntent)
    (context : Option OAuthTestContext) (s : WebState) : Type 0 where
  pub stands : lookup digest s.oauth_states ≡ some state
  pub unused : state.consumed_at ≡ none
  pub intent_kept : lookup digest s.oauth_login_contexts ≡ intent
  pub context_kept : lookup digest s.oauth_test_contexts ≡ context

-- the request neither consumes the digest nor cleans up at or after the given time
abbrev pub spares : String → ℕ → Request → Bool
spares digest expires_at (Request.issue_test c now) = ltb now expires_at
spares digest expires_at (Request.issue_login c now) = ltb now expires_at
spares digest expires_at (Request.consume_test d now) = not (d == digest)
spares digest expires_at (Request.consume_login d now) = not (d == digest)
spares digest expires_at _ = true

abbrev pub all_spare : String → ℕ → List Request → Bool
all_spare digest expires_at [] = true
all_spare digest expires_at (r ∷ rs) = spares digest expires_at r && all_spare digest expires_at rs

module _ (digest : String) (state : OAuthState) (intent : Option WebReturnIntent)
    (context : Option OAuthTestContext) where
  abbrev pub Pending : WebState → Type 0
  Pending = IsPending digest state intent context

  cleanup-Pending :
      (now : ℕ) (s : WebState)
      → IsDistinct s.oauth_states
      → ltb now state.expires_at ≡ true
      → Pending s
      → Pending (cleanup_oauth_states now s)
  unfolding is_stale_state
  cleanup-Pending now s distinct early h =
      let d = cleanup_oauth_states-Drops now s distinct in
      let fresh : is_stale_at now digest s.oauth_states ≡ false =
        ground (arith, h.stands, h.unused) in
      record {
        stands = ground (arith, d.states digest, h.stands, fresh);
        unused = h.unused;
        intent_kept = ground (arith, d.logins digest, h.intent_kept, fresh);
        context_kept = ground (arith, d.tests digest, h.context_kept, fresh);
      }

  keep_test-Pending :
      (capacity : ℕ) (c : IssueOAuthTestStateCommand) (now : ℕ) (s : WebState)
      → Pending s
      → Pending (keep_test_context c (issue_oauth_state capacity c.issue now s)).1
  unfolding issue_oauth_state keep_test_context new_state
  keep_test-Pending capacity c now s h =
      let k = c.issue.state_digest in
      let state_put = lookup-insert k digest (new_state c.issue now) s.oauth_states in
      let new : OAuthTestContext = record {
        operation_id = c.operation_id;
        config_generation = c.config_generation;
      } in
      record {
        stands = ground (arith, h.stands, state_put, eq_iff k digest);
        unused = h.unused;
        intent_kept = ground (arith, h.intent_kept, h.stands, eq_iff k digest);
        context_kept = ground (
          arith,
          h.context_kept,
          h.stands,
          lookup-insert k digest new s.oauth_test_contexts,
          eq_iff k digest,
        );
      }

  keep_login-Pending :
      (capacity : ℕ) (c : IssueOAuthLoginStateCommand) (now : ℕ) (s : WebState)
      → Pending s
      → Pending (keep_login_context c (issue_oauth_state capacity c.issue now s)).1
  unfolding issue_oauth_state keep_login_context new_state
  keep_login-Pending capacity c now s h =
      let k = c.issue.state_digest in
      let state_put = lookup-insert k digest (new_state c.issue now) s.oauth_states in
      record {
        stands = ground (arith, h.stands, state_put, eq_iff k digest);
        unused = h.unused;
        intent_kept = ground (
          arith,
          h.intent_kept,
          h.stands,
          lookup-insert k digest c.return_intent s.oauth_login_contexts,
          eq_iff k digest,
        );
        context_kept = ground (arith, h.context_kept, h.stands, eq_iff k digest);
      }

  Consumption-Pending :
      {A : Type 0} (d : String) (now : ℕ) (s : WebState) (r : WebResult A) {capacity : ℕ}
      → WebInv capacity s
      → not (d == digest) ≡ true
      → Pending s
      → Consumption d now s r
      → Pending r.1
  unfolding mark_consumed
  Consumption-Pending d now s r v other h (declines a e) = subst Pending (sym e) h
  Consumption-Pending d now s r v other h (uses st u e) =
      let key = v.keyed d st (usable_state-lookup d now s st u).0 in
      subst Pending (sym e) (record {
        stands = ground (
          arith,
          key,
          h.stands,
          lookup-insert st.state_digest digest (consumed st now) s.oauth_states,
        );
        unused = h.unused;
        intent_kept = h.intent_kept;
        context_kept = h.context_kept;
      })

  sessions-Pending :
      (s : WebState) (sessions : Dict String WebSession) (admin : Option LocalAdminRecord)
      → Pending s
      → Pending (record s { web_sessions = sessions; local_admin = admin })
  sessions-Pending s sessions admin h = record {
    stands = h.stands;
    unused = h.unused;
    intent_kept = h.intent_kept;
    context_kept = h.context_kept;
  }

  Rotation-Pending :
      (c : RotateWebSessionCommand) (now : ℕ) (s : WebState) (r : WebResult WebSession)
      → Pending s
      → Rotation c now s r
      → Pending r.1
  Rotation-Pending c now s r h (stays a e) = subst Pending (sym e) h
  Rotation-Pending c now s r h (rotates sessions free p e) =
      subst Pending (sym e) (sessions-Pending s _ s.local_admin h)

  Revocation-Pending :
      (d : String) (now : ℕ) (s : WebState) (r : WebResult Bool)
      → Pending s
      → Revocation d now s r
      → Pending r.1
  Revocation-Pending d now s r h (refused a e) = subst Pending (sym e) h
  Revocation-Pending d now s r h (closed o e) = subst Pending (sym e) h
  Revocation-Pending d now s r h (revokes w o e) =
      subst Pending (sym e) (sessions-Pending s _ s.local_admin h)

  serve-Pending :
      (capacity : ℕ) (r : Request) (s : WebState)
      → WebInv capacity s
      → spares digest state.expires_at r ≡ true
      → Pending s
      → Pending (serve capacity r s)
  unfolding serve issue_oauth_test_state issue_oauth_login_state
  serve-Pending capacity (Request.issue_test c now) s v kind h =
      let cleaned = cleanup_oauth_states now s in
      let w = cleanup-Pending now s v.distinct kind h in
      elim (Bool-cases (has_operation c.operation_id cleaned.oauth_test_contexts)) [
        | inl e ↦ rw (serve, issue_oauth_test_state, e, if◌then◌else◌) w
        | inr e ↦
            rw (serve, issue_oauth_test_state, e, if◌then◌else◌)
              (keep_test-Pending capacity c now cleaned w)
      ]
  serve-Pending capacity (Request.issue_login c now) s v kind h =
      keep_login-Pending capacity c now (cleanup_oauth_states now s)
        (cleanup-Pending now s v.distinct kind h)
  serve-Pending capacity (Request.consume_test d now) s v kind h =
      Consumption-Pending d now s _ v kind h (consume_test-Consumption d now s)
  serve-Pending capacity (Request.consume_login d now) s v kind h =
      Consumption-Pending d now s _ v kind h (consume_login-Consumption d now s)
  serve-Pending capacity (Request.rotate c now) s v kind h =
      Rotation-Pending c now s _ h (rotate_session-Rotation c now s)
  serve-Pending capacity (Request.revoke d now) s v kind h =
      Revocation-Pending d now s _ h (revoke_session-Revocation d now s)
  serve-Pending capacity (Request.change_password c now) s v kind h =
      elim (Option-cases s.local_admin) [
        | inl e ↦ subst Pending (sym (change_password-unset c now s e)) h
        | inr (admin, e) ↦
            subst Pending (sym (change_password-set c now s admin e)) (sessions-Pending s _ _ h)
      ]

  pub serve_all-Pending :
      (capacity : ℕ) (rs : List Request) (s : WebState)
      → WebInv capacity s
      → all_spare digest state.expires_at rs ≡ true
      → Pending s
      → Pending (serve_all capacity rs s)
  unfolding serve_all
  serve_all-Pending capacity [] s v kind h = h
  serve_all-Pending capacity (r ∷ rs) s v kind h =
      serve_all-Pending capacity rs (serve capacity r s) (serve-WebInv capacity r s v)
        (ground arith) (serve-Pending capacity r s v (ground arith) h)
