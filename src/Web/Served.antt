-- ===== src/Web/Served.antt =====
-- That every request keeps the invariant of the OAuth states and sessions.
use xiaowei_agent.Dict.{Dict, insert}
use xiaowei_agent.Dict.Erase.{IsDistinct, insert-IsDistinct}
use xiaowei_agent.Prelude.{
  string_eq, nat_eq, if◌then◌else◌, Bool-cases, Option-cases, ℕ, String, ◌≡◌, refl, sym, subst, inl,
  inr, Bool, Option, none, some, List, [], ◌∷◌, arith,
}
use xiaowei_agent.Web.Calls.{Request, serve, serve_all}
use xiaowei_agent.Web.Contracts.{
  WebSession, IssueOAuthTestStateCommand, RotateWebSessionCommand, ChangePasswordCommand, WebState,
  WebResult,
}
use xiaowei_agent.Web.Invariant.{
  HasSessionKeys, insert-HasSessionKeys, lookup-HasSessionKeys, WebInv, cleanup-WebInv,
  keep_test-WebInv, keep_login-WebInv, sessions-WebInv, mark_consumed-WebInv,
}
use xiaowei_agent.Web.OAuth.{
  cleanup_oauth_states, has_operation, issue_oauth_test_state, issue_oauth_login_state,
}
use xiaowei_agent.Web.Outcomes.{
  usable_state-lookup, open_session-lookup, Consumption, consume_test-Consumption,
  consume_login-Consumption, change_password-unset, change_password-set, Rotation,
  rotate_session-Rotation, Revocation, revoke_session-Revocation, declines, uses, rotates, closed,
  revokes, stays, refused,
}
use xiaowei_agent.Web.Sessions.{
  new_session, revoked, open_session, revoke_previous, local_admin_session, revoke_admin_sessions,
  changed_sessions, change_password_and_rotate_session,
}

module _ (capacity : ℕ) (s : WebState) (v : WebInv capacity s) where
  issue_test-WebInv :
      (c : IssueOAuthTestStateCommand) (now : ℕ)
      → WebInv capacity (issue_oauth_test_state capacity c now s).1
  unfolding issue_oauth_test_state
  issue_test-WebInv c now =
      let cleaned = cleanup_oauth_states now s in
      let w = cleanup-WebInv now s v in
      elim (Bool-cases (has_operation c.operation_id cleaned.oauth_test_contexts)) [
        | inl e ↦ rw (e, if◌then◌else◌) w
        | inr e ↦ rw (e, if◌then◌else◌) (keep_test-WebInv c now cleaned e w)
      ]

  revoke_previous-both :
      (previous : Option String) (now : ℕ) (sessions : Dict String WebSession)
      → revoke_previous previous now s.web_sessions ≡ some sessions
      → HasSessionKeys sessions × IsDistinct sessions
  unfolding revoke_previous revoked
  revoke_previous-both none now sessions h =
      ground (arith, h, v.keyed_sessions, v.distinct_sessions)
  revoke_previous-both (some digest) now sessions h =
      elim (Option-cases (open_session digest s.web_sessions)) [
        | inl e ↦ ground (arith, h, e, v.keyed_sessions, v.distinct_sessions)
        | inr (w, e) ↦ ground (
          arith,
          h,
          e,
          insert-HasSessionKeys digest (revoked w now) s.web_sessions
              (lookup-HasSessionKeys digest w s.web_sessions v.keyed_sessions
                (open_session-lookup digest s.web_sessions w e).0)
              v.keyed_sessions,
          insert-IsDistinct digest (revoked w now) s.web_sessions v.distinct_sessions,
        )
      ]

  Rotation-WebInv :
      (c : RotateWebSessionCommand) (now : ℕ) (r : WebResult WebSession)
      → Rotation c now s r
      → WebInv capacity r.1
  unfolding new_session
  Rotation-WebInv c now r (stays a e) = subst (WebInv capacity) (sym e) v
  Rotation-WebInv c now r (rotates sessions free p e) =
      let (keyed, distinct) = revoke_previous-both c.previous_session_digest now sessions p in
      let w = new_session c now in
      subst (WebInv capacity) (sym e) (
        sessions-WebInv s (insert c.session_digest w sessions) s.local_admin v
          (insert-HasSessionKeys c.session_digest w sessions refl keyed)
          (insert-IsDistinct c.session_digest w sessions distinct))

  Revocation-WebInv :
      (digest : String) (now : ℕ) (r : WebResult Bool)
      → Revocation digest now s r
      → WebInv capacity r.1
  unfolding revoked
  Revocation-WebInv digest now r (refused a e) = subst (WebInv capacity) (sym e) v
  Revocation-WebInv digest now r (closed o e) = subst (WebInv capacity) (sym e) v
  Revocation-WebInv digest now r (revokes w o e) = subst (WebInv capacity) (sym e) (
      sessions-WebInv s (insert w.session_digest (revoked w now) s.web_sessions) s.local_admin v
        (insert-HasSessionKeys w.session_digest (revoked w now) s.web_sessions refl
          v.keyed_sessions)
        (insert-IsDistinct w.session_digest (revoked w now) s.web_sessions v.distinct_sessions))

revoke_admin_sessions-both :
    (items : Dict String WebSession) (now : ℕ) (d : Dict String WebSession)
    → HasSessionKeys items
    → HasSessionKeys d
    → IsDistinct d
    → HasSessionKeys (revoke_admin_sessions items now d).1
      × IsDistinct (revoke_admin_sessions items now d).1
unfolding revoke_admin_sessions revoked
revoke_admin_sessions-both [] now d h k n = (k, n)
revoke_admin_sessions-both ((digest, w) ∷ items) now d h k n = ground (
  arith,
  h,
  k,
  n,
  revoke_admin_sessions-both items now (insert digest (revoked w now) d) h.1
      (insert-HasSessionKeys digest (revoked w now) d h.0 k)
      (insert-IsDistinct digest (revoked w now) d n),
  revoke_admin_sessions-both items now d h.1 k n,
)

changed_sessions-both :
    (capacity : ℕ) (c : ChangePasswordCommand) (now : ℕ) (s : WebState)
    → WebInv capacity s
    → HasSessionKeys (changed_sessions c now s).1 × IsDistinct (changed_sessions c now s).1
unfolding changed_sessions local_admin_session
changed_sessions-both capacity c now s v =
    let rest = (revoke_admin_sessions s.web_sessions now s.web_sessions).1 in
    let w = local_admin_session c now in
    let (keyed, distinct) =
      revoke_admin_sessions-both s.web_sessions now s.web_sessions v.keyed_sessions v.keyed_sessions
        v.distinct_sessions in
    elim (Bool-cases (revoke_admin_sessions s.web_sessions now s.web_sessions).0) [
      | inl e ↦
          rw (changed_sessions, e)
            (
              insert-HasSessionKeys c.new_session_digest w rest refl keyed,
              insert-IsDistinct c.new_session_digest w rest distinct,
            )
      | inr e ↦ rw (changed_sessions, e) (keyed, distinct)
    ]

change_password-WebInv :
    (capacity : ℕ) (c : ChangePasswordCommand) (now : ℕ) (s : WebState)
    → WebInv capacity s
    → WebInv capacity (change_password_and_rotate_session c now s).1
change_password-WebInv capacity c now s v =
    let (keyed, distinct) = changed_sessions-both capacity c now s v in
    elim (Option-cases s.local_admin) [
      | inl e ↦ subst (WebInv capacity) (sym (change_password-unset c now s e)) v
      | inr (admin, e) ↦
          subst (WebInv capacity) (sym (change_password-set c now s admin e))
            (sessions-WebInv s (changed_sessions c now s).1 _ v keyed distinct)
    ]

consume-WebInv :
    {A : Type 0} (capacity : ℕ) (digest : String) (now : ℕ) (s : WebState) (r : WebResult A)
    → WebInv capacity s
    → Consumption digest now s r
    → WebInv capacity r.1
consume-WebInv capacity digest now s r v (declines a e) = subst (WebInv capacity) (sym e) v
consume-WebInv capacity digest now s r v (uses state u e) =
    subst (WebInv capacity) (sym e)
      (mark_consumed-WebInv digest state now s (usable_state-lookup digest now s state u).0 v)

pub serve-WebInv :
    (capacity : ℕ) (r : Request) (s : WebState)
    → WebInv capacity s
    → WebInv capacity (serve capacity r s)
unfolding serve issue_oauth_login_state
serve-WebInv capacity (Request.issue_test c now) s v = issue_test-WebInv capacity s v c now
serve-WebInv capacity (Request.issue_login c now) s v =
    keep_login-WebInv c now (cleanup_oauth_states now s) (cleanup-WebInv now s v)
serve-WebInv capacity (Request.consume_test digest now) s v =
    consume-WebInv capacity digest now s _ v (consume_test-Consumption digest now s)
serve-WebInv capacity (Request.consume_login digest now) s v =
    consume-WebInv capacity digest now s _ v (consume_login-Consumption digest now s)
serve-WebInv capacity (Request.rotate c now) s v =
    Rotation-WebInv capacity s v c now _ (rotate_session-Rotation c now s)
serve-WebInv capacity (Request.revoke digest now) s v =
    Revocation-WebInv capacity s v digest now _ (revoke_session-Revocation digest now s)
serve-WebInv capacity (Request.change_password c now) s v =
    change_password-WebInv capacity c now s v

-- In every state that requests lead to, the OAuth states are at most as many as the capacity, each digest
-- of one has exactly one of the two contexts and no other digest has any, no two test contexts share an
-- operation, and states and sessions stand once, under their own digest.
pub serve_all-WebInv :
    (capacity : ℕ) (rs : List Request) (s : WebState)
    → WebInv capacity s
    → WebInv capacity (serve_all capacity rs s)
unfolding serve_all
serve_all-WebInv capacity [] s v = v
serve_all-WebInv capacity (r ∷ rs) s v =
    serve_all-WebInv capacity rs (serve capacity r s) (serve-WebInv capacity r s v)
