-- ===== src/Web/Revocation.antt =====
-- The end of browser sessions over any sequence of requests.
use xiaowei_agent.Contracts.Task.{is_set}
use xiaowei_agent.Dict.{Dict, lookup, insert, lookup-insert}
use xiaowei_agent.Dict.Erase.{IsDistinct}
use xiaowei_agent.Prelude.{
  string_eq, nat_eq, if◌then◌else◌, Option-cases, ◌==◌, ℕ, String, ◌≡◌, refl, sym, ap, subst, inl,
  inr, Bool, true, false, ◌||◌, Option, none, some, List, [], ◌∷◌, arith, eq_iff,
}
use xiaowei_agent.Web.Calls.{Request, serve, serve_all}
use xiaowei_agent.Web.Cleanup.{cleanup_oauth_states-Drops}
use xiaowei_agent.Web.Contracts.{
  source_eq, WebSession, IssueOAuthLoginStateCommand, IssueOAuthTestStateCommand,
  RotateWebSessionCommand, WebSessionLookup, ChangePasswordCommand, WebError, WebState, WebResult,
  raise,
}
use xiaowei_agent.Web.Invariant.{WebInv}
use xiaowei_agent.Web.OAuth.{
  cleanup_oauth_states, keep_test_context, keep_login_context, issue_oauth_state,
  issue_oauth_test_state, issue_oauth_login_state, mark_consumed,
}
use xiaowei_agent.Web.Outcomes.{
  Consumption, consume_test-Consumption, consume_login-Consumption, change_password-unset,
  change_password-set, Rotation, rotate_session-Rotation, Revocation, revoke_session-Revocation,
  declines, uses, rotates, closed, revokes, stays, refused,
}
use xiaowei_agent.Web.Served.{serve-WebInv}
use xiaowei_agent.Web.Sessions.{
  new_session, revoked, open_session, revoke_previous, get_session, local_admin_session,
  is_open_admin_session, revoke_admin_sessions, changed_sessions,
}

abbrev pub revoked_in : String → Dict String WebSession → Bool
revoked_in digest sessions = elim (lookup digest sessions) [
  | none ↦ false
  | some session ↦ is_set session.revoked_at
]

abbrev pub is_revoked : String → WebState → Bool
is_revoked digest s = revoked_in digest s.web_sessions

-- a change of password that puts its session under the digest
abbrev pub overwrites : Request → String → Bool
overwrites (Request.change_password c now) digest = c.new_session_digest == digest
overwrites _ digest = false

abbrev pub any_overwrites : List Request → String → Bool
any_overwrites [] digest = false
any_overwrites (r ∷ rs) digest = overwrites r digest || any_overwrites rs digest

pub insert-revoked :
    (k digest : String) (w : WebSession) (now : ℕ) (d : Dict String WebSession)
    → revoked_in digest d ≡ true
    → revoked_in digest (insert k (revoked w now) d) ≡ true
unfolding revoked
insert-revoked k digest w now d h = ground (arith, lookup-insert k digest (revoked w now) d)

pub insert-revoked_other :
    (k digest : String) (w : WebSession) (d : Dict String WebSession)
    → (k == digest) ≡ false
    → revoked_in digest d ≡ true
    → revoked_in digest (insert k w d) ≡ true
insert-revoked_other k digest w d other h = ground (arith, lookup-insert k digest w d)

-- when no copy raises
pub lookup-revoke_admin_sessions :
    (k : String) (now : ℕ) (items d : Dict String WebSession)
    → IsDistinct items
    → (revoke_admin_sessions items now d).0 ≡ true
    → lookup k (revoke_admin_sessions items now d).1 ≡ elim (lookup k items) [
      | none ↦ lookup k d
      | some w ↦ if is_open_admin_session w then some (revoked w now) else lookup k d
    ]
unfolding lookup revoke_admin_sessions
lookup-revoke_admin_sessions k now [] d h done = refl
lookup-revoke_admin_sessions k now ((j, w) ∷ items) d h done = ground (
  arith,
  eq_iff j k,
  lookup-insert j k (revoked w now) d,
  lookup-revoke_admin_sessions k now items d h.1,
  lookup-revoke_admin_sessions k now items (insert j (revoked w now) d) h.1,
  h.0,
  done,
)

keep_test-sessions :
    (capacity : ℕ) (c : IssueOAuthTestStateCommand) (now : ℕ) (s : WebState)
    → (keep_test_context c (issue_oauth_state capacity c.issue now s)).1.web_sessions
      ≡ s.web_sessions
unfolding keep_test_context issue_oauth_state
keep_test-sessions capacity c now s = ground arith

keep_login-sessions :
    (capacity : ℕ) (c : IssueOAuthLoginStateCommand) (now : ℕ) (s : WebState)
    → (keep_login_context c (issue_oauth_state capacity c.issue now s)).1.web_sessions
      ≡ s.web_sessions
unfolding keep_login_context issue_oauth_state
keep_login-sessions capacity c now s = ground arith

Consumption-sessions :
    {A : Type 0} (digest : String) (now : ℕ) (s : WebState) (r : WebResult A)
    → Consumption digest now s r
    → r.1.web_sessions ≡ s.web_sessions
unfolding mark_consumed
Consumption-sessions digest now s r (declines a e) = ap (λ (x : WebState). x.web_sessions) e
Consumption-sessions digest now s r (uses state u e) = ap (λ (x : WebState). x.web_sessions) e

revoke_previous-revoked :
    (digest : String) (previous : Option String) (now : ℕ) (d rest : Dict String WebSession)
    → revoke_previous previous now d ≡ some rest
    → revoked_in digest d ≡ true
    → revoked_in digest rest ≡ true
unfolding revoke_previous
revoke_previous-revoked digest none now d rest p h = ground (arith, p, h)
revoke_previous-revoked digest (some k) now d rest p h = elim (Option-cases (open_session k d)) [
  | inl e ↦ ground (arith, p, e, h)
  | inr (w, e) ↦ ground (arith, p, e, insert-revoked k digest w now d h)
]

revoke_admin_sessions-revoked :
    (digest : String) (items : Dict String WebSession) (now : ℕ) (d : Dict String WebSession)
    → revoked_in digest d ≡ true
    → revoked_in digest (revoke_admin_sessions items now d).1 ≡ true
unfolding revoke_admin_sessions
revoke_admin_sessions-revoked digest [] now d h = h
revoke_admin_sessions-revoked digest ((k, w) ∷ items) now d h = ground (
  arith,
  h,
  revoke_admin_sessions-revoked digest items now _ (insert-revoked k digest w now d h),
  revoke_admin_sessions-revoked digest items now d h,
)

changed_sessions-revoked :
    (digest : String) (c : ChangePasswordCommand) (now : ℕ) (s : WebState)
    → (c.new_session_digest == digest) ≡ false
    → is_revoked digest s ≡ true
    → revoked_in digest (changed_sessions c now s).1 ≡ true
unfolding changed_sessions
changed_sessions-revoked digest c now s other h =
    let rest = (revoke_admin_sessions s.web_sessions now s.web_sessions).1 in
    let kept = revoke_admin_sessions-revoked digest s.web_sessions now s.web_sessions h in
    ground (
      arith,
      kept,
      insert-revoked_other c.new_session_digest digest (local_admin_session c now) rest other kept,
    )

Rotation-revoked :
    (digest : String) (c : RotateWebSessionCommand) (now : ℕ) (s : WebState)
    (r : WebResult WebSession)
    → is_revoked digest s ≡ true
    → Rotation c now s r
    → is_revoked digest r.1 ≡ true
Rotation-revoked digest c now s r h (stays a e) = rw e h
Rotation-revoked digest c now s r h (rotates sessions free p e) =
    let kept =
      revoke_previous-revoked digest c.previous_session_digest now s.web_sessions sessions p h in
    rw e (
      insert-revoked_other c.session_digest digest (new_session c now) sessions
        (ground (arith, free, h, eq_iff c.session_digest digest)) kept)

Revocation-revoked :
    (digest d : String) (now : ℕ) (s : WebState) (r : WebResult Bool)
    → is_revoked digest s ≡ true
    → Revocation d now s r
    → is_revoked digest r.1 ≡ true
Revocation-revoked digest d now s r h (refused a e) = rw e h
Revocation-revoked digest d now s r h (closed o e) = rw e h
Revocation-revoked digest d now s r h (revokes w o e) =
    rw e (insert-revoked w.session_digest digest w now s.web_sessions h)

serve-revoked :
    (capacity : ℕ) (digest : String) (r : Request) (s : WebState)
    → WebInv capacity s
    → overwrites r digest ≡ false
    → is_revoked digest s ≡ true
    → is_revoked digest (serve capacity r s) ≡ true
unfolding serve issue_oauth_login_state issue_oauth_test_state
serve-revoked capacity digest (Request.issue_test c now) s v other h =
    let cleaned = cleanup_oauth_states now s in
    ground (
      arith,
      (cleanup_oauth_states-Drops now s v.distinct).sessions,
      keep_test-sessions capacity c now cleaned,
    )
serve-revoked capacity digest (Request.issue_login c now) s v other h =
    let cleaned = cleanup_oauth_states now s in
    rw
      (
        keep_login-sessions capacity c now cleaned,
        (cleanup_oauth_states-Drops now s v.distinct).sessions,
      )
      h
serve-revoked capacity digest (Request.consume_test d now) s v other h =
    rw (Consumption-sessions d now s _ (consume_test-Consumption d now s)) h
serve-revoked capacity digest (Request.consume_login d now) s v other h =
    rw (Consumption-sessions d now s _ (consume_login-Consumption d now s)) h
serve-revoked capacity digest (Request.rotate c now) s v other h =
    Rotation-revoked digest c now s _ h (rotate_session-Rotation c now s)
serve-revoked capacity digest (Request.revoke d now) s v other h =
    Revocation-revoked digest d now s _ h (revoke_session-Revocation d now s)
serve-revoked capacity digest (Request.change_password c now) s v other h =
    elim (Option-cases s.local_admin) [
      | inl e ↦ subst (λ x. is_revoked digest x ≡ true) (sym (change_password-unset c now s e)) h
      | inr (admin, e) ↦
          subst (λ x. is_revoked digest x ≡ true) (sym (change_password-set c now s admin e))
            (changed_sessions-revoked digest c now s other h)
    ]

pub serve_all-revoked :
    (capacity : ℕ) (digest : String) (rs : List Request) (s : WebState)
    → WebInv capacity s
    → any_overwrites rs digest ≡ false
    → is_revoked digest s ≡ true
    → is_revoked digest (serve_all capacity rs s) ≡ true
unfolding serve_all
serve_all-revoked capacity digest [] s v other h = h
serve_all-revoked capacity digest (r ∷ rs) s v other h =
    serve_all-revoked capacity digest rs (serve capacity r s) (serve-WebInv capacity r s v)
      (ground arith) (serve-revoked capacity digest r s v (ground arith) h)

pub get_revoked :
    (query : WebSessionLookup) (now : ℕ) (s : WebState)
    → is_revoked query.session_digest s ≡ true
    → get_session query now s ≡ raise WebError.web_session_not_found
unfolding get_session
get_revoked query now s h = ground arith
