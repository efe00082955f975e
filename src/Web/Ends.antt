-- ===== src/Web/Ends.antt =====
-- What a session is found by, and the requests that end one.
use xiaowei_agent.Dict.{Dict, lookup, insert, lookup-insert_self}
use xiaowei_agent.Prelude.{
  string_eq, nat_eq, Option-cases, ◌==◌, ℕ, ◌<◌, String, ◌≡◌, sym, subst, ◌≢◌, ◌↔◌, ◌⊎◌, inl, inr,
  Bool, true, false, none, some, List, arith, eq_iff,
}
use xiaowei_agent.Web.Calls.{Request, serve, serve_all}
use xiaowei_agent.Web.Contracts.{
  source_eq, IdentitySource, WebSession, RotateWebSessionCommand, WebSessionLookup,
  LocalAdminRecord, ChangePasswordCommand, WebError, WebState, WebResult, is_answer, answer, raise,
}
use xiaowei_agent.Web.Invariant.{lookup-HasSessionKeys, WebInv}
use xiaowei_agent.Web.Outcomes.{
  open_session-lookup, change_password-set, Rotation, rotate_session-Rotation, Revocation,
  revoke_session-Revocation, rotates, closed, revokes, stays, refused,
}
use xiaowei_agent.Web.Revocation.{
  revoked_in, is_revoked, any_overwrites, insert-revoked_other, lookup-revoke_admin_sessions,
  serve_all-revoked, get_revoked,
}
use xiaowei_agent.Web.Served.{serve-WebInv}
use xiaowei_agent.Web.Sessions.{
  new_session, revoked, open_session, revoke_previous, rotate_session, get_session, revoke_session,
  local_admin_session, is_open_admin_session, revoke_admin_sessions, changed_sessions,
  change_password_and_rotate_session,
}

-- A session is found exactly while it stands under the digest asked for, unrevoked, unexpired, and bound to
-- the origin asked for.
pub get_session-answer :
    (query : WebSessionLookup) (now : ℕ) (s : WebState) (w : WebSession)
    → (get_session query now s ≡ answer w) ↔ (
        (lookup query.session_digest s.web_sessions ≡ some w)
        × (w.revoked_at ≡ none)
        × (now < w.expires_at)
        × (w.public_origin_digest ≡ query.public_origin_digest))
unfolding get_session
get_session-answer query now s w =
    elim (Option-cases (lookup query.session_digest s.web_sessions)) [
      | inl e ↦ ground arith
      | inr (x, e) ↦ ground (arith, eq_iff x.public_origin_digest query.public_origin_digest)
    ]

-- The requests that end a session when they are answered: its revocation, its replacement by a new one, and a
-- change of the local administrator's password.
pub data Ends (digest : String) (w : WebSession) (s : WebState) : Request → Type 0 where
  revocation :
      (now : ℕ)
      → is_answer (revoke_session digest now s).0 ≡ true
      → Ends digest w s (Request.revoke digest now)
  replacement :
      (c : RotateWebSessionCommand) (now : ℕ)
      → c.previous_session_digest ≡ some digest
      → is_answer (rotate_session c now s).0 ≡ true
      → Ends digest w s (Request.rotate c now)
  password_change :
      (c : ChangePasswordCommand) (now : ℕ)
      → w.auth_source ≡ IdentitySource.local_admin
      → c.new_session_digest ≢ digest
      → is_answer (change_password_and_rotate_session c now s).0 ≡ true
      → Ends digest w s (Request.change_password c now)

open_session-cases :
    (digest : String) (d : Dict String WebSession) (w : WebSession)
    → lookup digest d ≡ some w
    → (open_session digest d ≡ some w)
      ⊎ ((open_session digest d ≡ none) × (revoked_in digest d ≡ true))
unfolding open_session
open_session-cases digest d w h = ground arith

inserted-revoked :
    (digest : String) (w : WebSession) (now : ℕ) (d : Dict String WebSession)
    → revoked_in digest (insert digest (revoked w now) d) ≡ true
unfolding revoked
inserted-revoked digest w now d = ground (arith, lookup-insert_self digest (revoked w now) d)

revoke_previous-ended :
    (digest : String) (now : ℕ) (d rest : Dict String WebSession) (w : WebSession)
    → lookup digest d ≡ some w
    → revoke_previous (some digest) now d ≡ some rest
    → revoked_in digest rest ≡ true
unfolding revoke_previous
revoke_previous-ended digest now d rest w h p = elim (open_session-cases digest d w h) [
  | inl e ↦ ground (arith, p, e, inserted-revoked digest w now d)
  | inr (e, r) ↦ ground (arith, p, e, r)
]

Revocation-ended :
    (capacity : ℕ) (digest : String) (w : WebSession) (now : ℕ) (s : WebState) (r : WebResult Bool)
    → WebInv capacity s
    → lookup digest s.web_sessions ≡ some w
    → is_answer r.0 ≡ true
    → Revocation digest now s r
    → is_revoked digest r.1 ≡ true
unfolding open_session
Revocation-ended capacity digest w now s r v found done (refused a e) = absurd (cc (done, a))
Revocation-ended capacity digest w now s r v found done (closed o e) =
    rw e (ground (arith, found, o))
Revocation-ended capacity digest w now s r v found done (revokes x o e) =
    let key =
      lookup-HasSessionKeys digest x s.web_sessions v.keyed_sessions
        (open_session-lookup digest s.web_sessions x o).0 in
    rw e (
      subst (λ k. revoked_in digest (insert k (revoked x now) s.web_sessions) ≡ true) (sym key)
        (inserted-revoked digest x now s.web_sessions))

Rotation-ended :
    (digest : String) (w : WebSession) (c : RotateWebSessionCommand) (now : ℕ) (s : WebState)
    (r : WebResult WebSession)
    → lookup digest s.web_sessions ≡ some w
    → c.previous_session_digest ≡ some digest
    → is_answer r.0 ≡ true
    → Rotation c now s r
    → is_revoked digest r.1 ≡ true
Rotation-ended digest w c now s r found previous done (stays a e) = absurd (cc (done, a))
Rotation-ended digest w c now s r found previous done (rotates rest free p e) =
    let ended =
      revoke_previous-ended digest now s.web_sessions rest w found
        (subst (λ q. revoke_previous q now s.web_sessions ≡ some rest) previous p) in
    rw e (
      insert-revoked_other c.session_digest digest (new_session c now) rest
        (ground (arith, free, found, eq_iff c.session_digest digest)) ended)

-- an answered change of password has revoked every open session of the administrator
answered-all_revoked :
    (c : ChangePasswordCommand) (now : ℕ) (s : WebState)
    → is_answer (change_password_and_rotate_session c now s).0 ≡ true
    → ((admin : LocalAdminRecord) × (s.local_admin ≡ some admin))
      × ((revoke_admin_sessions s.web_sessions now s.web_sessions).0 ≡ true)
unfolding change_password_and_rotate_session changed_sessions
answered-all_revoked c now s done = elim (Option-cases s.local_admin) [
  | inl e ↦ absurd (ground (arith, done, e))
  | inr (admin, e) ↦ ((admin, e), ground (arith, done, e))
]

changed_sessions-ended :
    (capacity : ℕ) (digest : String) (w : WebSession) (c : ChangePasswordCommand) (now : ℕ)
    (s : WebState)
    → WebInv capacity s
    → lookup digest s.web_sessions ≡ some w
    → w.auth_source ≡ IdentitySource.local_admin
    → c.new_session_digest ≢ digest
    → (revoke_admin_sessions s.web_sessions now s.web_sessions).0 ≡ true
    → revoked_in digest (changed_sessions c now s).1 ≡ true
unfolding changed_sessions is_open_admin_session revoked
changed_sessions-ended capacity digest w c now s v found local other all =
    let rest = (revoke_admin_sessions s.web_sessions now s.web_sessions).1 in
    let ended : revoked_in digest rest ≡ true = ground (
      arith,
      found,
      local,
      lookup-revoke_admin_sessions digest now s.web_sessions s.web_sessions v.distinct_sessions all,
    ) in
    let differs : (c.new_session_digest == digest) ≡ false =
      ground (arith, eq_iff c.new_session_digest digest) in
    rw (changed_sessions, all)
      (insert-revoked_other c.new_session_digest digest (local_admin_session c now) rest differs
        ended)

Ends-revoked :
    (capacity : ℕ) (digest : String) (w : WebSession) (s : WebState) (r : Request)
    → WebInv capacity s
    → lookup digest s.web_sessions ≡ some w
    → Ends digest w s r
    → is_revoked digest (serve capacity r s) ≡ true
unfolding serve
Ends-revoked capacity digest w s _ v found (revocation now done) =
    Revocation-ended capacity digest w now s _ v found done (revoke_session-Revocation digest now s)
Ends-revoked capacity digest w s _ v found (replacement c now previous done) =
    Rotation-ended digest w c now s _ found previous done (rotate_session-Rotation c now s)
Ends-revoked capacity digest w s _ v found (password_change c now local other done) =
    let ((admin, set), all) = answered-all_revoked c now s done in
    subst (λ x. is_revoked digest x ≡ true) (sym (change_password-set c now s admin set))
      (changed_sessions-ended capacity digest w c now s v found local other all)

-- Once its revocation, its replacement or a change of the local administrator's password is answered, a
-- session is ended: no request ever gets it again, whatever requests are served in between, for any origin and at
-- any time, unless a change of password puts a new session under its digest.
pub ended_session_never_returns :
    (capacity : ℕ) (digest origin : String) (w : WebSession) (later : ℕ) (r : Request)
    (rs : List Request) (s : WebState)
    → WebInv capacity s
    → lookup digest s.web_sessions ≡ some w
    → Ends digest w s r
    → any_overwrites rs digest ≡ false
    → get_session
        (record { session_digest = digest; public_origin_digest = origin })
        later
        (serve_all capacity rs (serve capacity r s))
      ≡ raise WebError.web_session_not_found
ended_session_never_returns capacity digest origin w later r rs s v found ended other =
    get_revoked (record { session_digest = digest; public_origin_digest = origin }) later
      (serve_all capacity rs (serve capacity r s))
      (serve_all-revoked capacity digest rs (serve capacity r s) (serve-WebInv capacity r s v) other
        (Ends-revoked capacity digest w s r v found ended))
