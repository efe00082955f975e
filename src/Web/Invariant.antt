-- ===== src/Web/Invariant.antt =====
-- What holds of the OAuth states and sessions in every state that requests lead to.
use xiaowei_agent.Contracts.Task.{is_set}
use xiaowei_agent.Dict.{Dict, lookup, lookup-insert, insert}
use xiaowei_agent.Dict.Erase.{IsDistinct, length-insert_new, insert-IsDistinct, length-insert_old}
use xiaowei_agent.Prelude.{
  string_eq, nat_eq, leb, if◌then◌else◌, Bool-cases, length, ℕ, ◌≤◌, String, ◌≡◌, refl, subst, ◌≢◌,
  inl, inr, Bool, true, false, Option, none, some, [], ◌∷◌, arith, eq_iff, sym,
}
use xiaowei_agent.Web.Cleanup.{Drops, cleanup_oauth_states-Drops}
use xiaowei_agent.Web.Contracts.{
  WebReturnIntent, OAuthState, OAuthTestContext, WebSession, IssueOAuthTestStateCommand, WebState,
  empty_web_state, IssueOAuthLoginStateCommand, LocalAdminRecord,
}
use xiaowei_agent.Web.OAuth.{
  cleanup_oauth_states, has_operation, new_state, issue_oauth_state, keep_test_context,
  keep_login_context, consumed, mark_consumed,
}

-- every session stands under its digest
abbrev pub HasSessionKeys : Dict String WebSession → Type 0
HasSessionKeys [] = Unit
HasSessionKeys ((k, w) ∷ d) = (w.session_digest ≡ k) × HasSessionKeys d

pub insert-HasSessionKeys :
    (k : String) (w : WebSession) (d : Dict String WebSession)
    → w.session_digest ≡ k
    → HasSessionKeys d
    → HasSessionKeys (insert k w d)
unfolding insert
insert-HasSessionKeys k w [] e h = (e, tt)
insert-HasSessionKeys k w ((j, u) ∷ d) e h =
    ground (arith, eq_iff j k, insert-HasSessionKeys k w d e)

pub lookup-HasSessionKeys :
    (k : String) (w : WebSession) (d : Dict String WebSession)
    → HasSessionKeys d
    → lookup k d ≡ some w
    → w.session_digest ≡ k
unfolding lookup
lookup-HasSessionKeys k w [] h e = ground arith
lookup-HasSessionKeys k w ((j, u) ∷ d) h e = ground (arith, eq_iff j k, lookup-HasSessionKeys k w d)

-- the entries that the three dicts may have under one digest
abbrev pub has_one_context :
    Option OAuthState → Option WebReturnIntent → Option OAuthTestContext → Bool
has_one_context none none none = true
has_one_context (some state) (some return_intent) none = true
has_one_context (some state) none (some context) = true
has_one_context _ _ _ = false

pub record WebInv (capacity : ℕ) (s : WebState) : Type 0 where
  pub keyed :
      (k : String) (state : OAuthState)
      → lookup k s.oauth_states ≡ some state
      → state.state_digest ≡ k
  pub keyed_sessions : HasSessionKeys s.web_sessions
  pub distinct_sessions : IsDistinct s.web_sessions
  pub distinct : IsDistinct s.oauth_states
  pub bound : length s.oauth_states ≤ capacity
  pub contexts :
      (k : String)
      → has_one_context
          (lookup k s.oauth_states)
          (lookup k s.oauth_login_contexts)
          (lookup k s.oauth_test_contexts)
        ≡ true
  pub operations :
      (j k : String) (c d : OAuthTestContext)
      → lookup j s.oauth_test_contexts ≡ some c
      → lookup k s.oauth_test_contexts ≡ some d
      → c.operation_id ≡ d.operation_id
      → j ≡ k

has_operation-lookup :
    (operation_id k : String) (context : OAuthTestContext) (d : Dict String OAuthTestContext)
    → has_operation operation_id d ≡ false
    → lookup k d ≡ some context
    → context.operation_id ≢ operation_id
unfolding has_operation lookup
has_operation-lookup operation_id k context [] h e = ground arith
has_operation-lookup operation_id k context ((j, c) ∷ d) h e =
    ground
      (arith, eq_iff c.operation_id operation_id, has_operation-lookup operation_id k context d)

module _ {capacity : ℕ} where
  pub empty-WebInv : WebInv capacity empty_web_state
  unfolding lookup
  empty-WebInv = record {
    keyed = λ k state h. ground arith;
    keyed_sessions = tt;
    distinct_sessions = tt;
    distinct = tt;
    bound = omega arith;
    contexts = λ k. refl;
    operations = λ j k c d h. ground arith;
  }

  Drops-WebInv :
      (gone : String → Bool) (s t : WebState)
      → Drops gone s t
      → WebInv capacity s
      → WebInv capacity t
  Drops-WebInv gone s t d v = record {
    keyed = λ k state h. ground (arith, d.states k, v.keyed k state);
    keyed_sessions = subst HasSessionKeys (sym d.sessions) v.keyed_sessions;
    distinct_sessions = subst IsDistinct (sym d.sessions) v.distinct_sessions;
    distinct = d.distinct v.distinct;
    bound = omega (arith, d.fewer, v.bound);
    contexts = λ k. ground (arith, d.states k, d.logins k, d.tests k, v.contexts k);
    operations = λ j k a b h i e. ground (arith, d.tests j, d.tests k, v.operations j k a b);
  }

  pub cleanup-WebInv :
      (now : ℕ) (s : WebState) → WebInv capacity s → WebInv capacity (cleanup_oauth_states now s)
  cleanup-WebInv now s v = Drops-WebInv _ s _ (cleanup_oauth_states-Drops now s v.distinct) v

  pub keep_test-WebInv :
      (c : IssueOAuthTestStateCommand) (now : ℕ) (s : WebState)
      → has_operation c.operation_id s.oauth_test_contexts ≡ false
      → WebInv capacity s
      → WebInv capacity (keep_test_context c (issue_oauth_state capacity c.issue now s)).1
  unfolding issue_oauth_state keep_test_context new_state
  keep_test-WebInv c now s free v =
      elim (Bool-cases (is_set (lookup c.issue.state_digest s.oauth_states))) [
        | inl e ↦ rw (e, if◌then◌else◌) v
        | inr e ↦ elim (Bool-cases (leb capacity (length s.oauth_states))) [
          | inl f ↦ rw (e, f) v
          | inr f ↦
              rw (e, f)
                (let digest = c.issue.state_digest in
                  let state = new_state c.issue now in
                  let context : OAuthTestContext = record {
                    operation_id = c.operation_id;
                    config_generation = c.config_generation;
                  } in
                  record {
                    keyed = λ k st h. ground (
                      arith,
                      lookup-insert digest k state s.oauth_states,
                      v.keyed k st,
                      eq_iff digest k,
                    );
                    keyed_sessions = v.keyed_sessions;
                    distinct_sessions = v.distinct_sessions;
                    distinct = insert-IsDistinct digest state s.oauth_states v.distinct;
                    bound = ground (arith, length-insert_new digest state s.oauth_states);
                    contexts = λ k. ground (
                      arith,
                      lookup-insert digest k state s.oauth_states,
                      lookup-insert digest k context s.oauth_test_contexts,
                      eq_iff digest k,
                      v.contexts k,
                    );
                    operations = λ j k a b h i q. ground (
                      arith,
                      lookup-insert digest j context s.oauth_test_contexts,
                      lookup-insert digest k context s.oauth_test_contexts,
                      eq_iff digest j,
                      eq_iff digest k,
                      v.operations j k a b,
                      has_operation-lookup c.operation_id j a s.oauth_test_contexts free,
                      has_operation-lookup c.operation_id k b s.oauth_test_contexts free,
                    );
                  })
        ]
      ]

  pub keep_login-WebInv :
      (c : IssueOAuthLoginStateCommand) (now : ℕ) (s : WebState)
      → WebInv capacity s
      → WebInv capacity (keep_login_context c (issue_oauth_state capacity c.issue now s)).1
  unfolding issue_oauth_state keep_login_context new_state
  keep_login-WebInv c now s v =
      elim (Bool-cases (is_set (lookup c.issue.state_digest s.oauth_states))) [
        | inl e ↦ rw (e, if◌then◌else◌) v
        | inr e ↦ elim (Bool-cases (leb capacity (length s.oauth_states))) [
          | inl f ↦ rw (e, f) v
          | inr f ↦
              rw (e, f)
                (let digest = c.issue.state_digest in
                  let state = new_state c.issue now in
                  record {
                    keyed = λ k st h. ground (
                      arith,
                      lookup-insert digest k state s.oauth_states,
                      v.keyed k st,
                      eq_iff digest k,
                    );
                    keyed_sessions = v.keyed_sessions;
                    distinct_sessions = v.distinct_sessions;
                    distinct = insert-IsDistinct digest state s.oauth_states v.distinct;
                    bound = ground (arith, length-insert_new digest state s.oauth_states);
                    contexts = λ k. ground (
                      arith,
                      lookup-insert digest k state s.oauth_states,
                      lookup-insert digest k c.return_intent s.oauth_login_contexts,
                      eq_iff digest k,
                      v.contexts k,
                    );
                    operations = v.operations;
                  })
        ]
      ]

  pub sessions-WebInv :
      (s : WebState) (sessions : Dict String WebSession) (admin : Option LocalAdminRecord)
      → WebInv capacity s
      → HasSessionKeys sessions
      → IsDistinct sessions
      → WebInv capacity (record s { web_sessions = sessions; local_admin = admin })
  sessions-WebInv s sessions admin v h k = record {
    keyed = v.keyed;
    keyed_sessions = h;
    distinct_sessions = k;
    distinct = v.distinct;
    bound = v.bound;
    contexts = v.contexts;
    operations = v.operations;
  }

  pub mark_consumed-WebInv :
      (digest : String) (state : OAuthState) (now : ℕ) (s : WebState)
      → lookup digest s.oauth_states ≡ some state
      → WebInv capacity s
      → WebInv capacity (mark_consumed state now s)
  unfolding mark_consumed consumed
  mark_consumed-WebInv digest state now s found v =
      let d = state.state_digest in
      let e = v.keyed digest state found in
      let new = consumed state now in
      record {
        keyed = λ k st h.
            ground (arith, lookup-insert d k new s.oauth_states, v.keyed k st, eq_iff d k);
        keyed_sessions = v.keyed_sessions;
        distinct_sessions = v.distinct_sessions;
        distinct = insert-IsDistinct d new s.oauth_states v.distinct;
        bound = omega (
          arith,
          v.bound,
          length-insert_old d new state s.oauth_states
              (subst (λ x. lookup x s.oauth_states ≡ some state) (sym e) found),
        );
        contexts = λ k.
            ground
              (arith, lookup-insert d k new s.oauth_states, eq_iff d k, v.contexts k, found, e);
        operations = v.operations;
      }
