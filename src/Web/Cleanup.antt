-- ===== src/Web/Cleanup.antt =====
-- What the cleanup of the OAuth states leaves under each digest.
use xiaowei_agent.Dict.{Dict, lookup}
use xiaowei_agent.Dict.Erase.{IsDistinct, lookup-remove, length-remove, remove-IsDistinct}
use xiaowei_agent.Prelude.{
  string_eq, nat_eq, if◌then◌else◌, ◌==◌, length, ℕ, ◌≤◌, String, ◌≡◌, refl, Bool, false, ◌||◌,
  none, some, List, [], ◌∷◌, arith, eq_iff,
}
use xiaowei_agent.Web.Contracts.{OAuthState, WebState}
use xiaowei_agent.Web.OAuth.{
  is_stale_state, stale_digests, drop_states, drop_state, cleanup_oauth_states,
}

-- the state under the digest is stale
abbrev pub is_stale_at : ℕ → String → Dict String OAuthState → Bool
is_stale_at now digest d = elim (lookup digest d) [
  | none ↦ false
  | some state ↦ is_stale_state now state
]

abbrev contains : String → List String → Bool
contains k [] = false
contains k (j ∷ js) = (j == k) || contains k js

contains-stale_digests :
    (now : ℕ) (k : String) (d : Dict String OAuthState)
    → IsDistinct d
    → contains k (stale_digests now d) ≡ is_stale_at now k d
unfolding stale_digests lookup
contains-stale_digests now k [] h = refl
contains-stale_digests now k ((j, state) ∷ d) h =
    ground (arith, eq_iff j k, contains-stale_digests now k d h.1, h.0)

-- what each of the three dicts keeps of a digest
pub record Drops (gone : String → Bool) (s t : WebState) : Type 0 where
  pub states :
      (k : String) → lookup k t.oauth_states ≡ (if gone k then none else lookup k s.oauth_states)
  pub logins :
      (k : String)
      → lookup k t.oauth_login_contexts ≡ (if gone k then none else lookup k s.oauth_login_contexts)
  pub tests :
      (k : String)
      → lookup k t.oauth_test_contexts ≡ (if gone k then none else lookup k s.oauth_test_contexts)
  pub fewer : length t.oauth_states ≤ length s.oauth_states
  pub distinct : IsDistinct s.oauth_states → IsDistinct t.oauth_states
  pub sessions : t.web_sessions ≡ s.web_sessions

drop_states-Drops :
    (ks : List String) (s : WebState) → Drops (λ k. contains k ks) s (drop_states ks s)
unfolding drop_states drop_state
drop_states-Drops [] s = record {
  states = λ k. refl;
  logins = λ k. refl;
  tests = λ k. refl;
  fewer = omega arith;
  distinct = λ h. h;
  sessions = refl;
}
drop_states-Drops (j ∷ js) s =
    let rest = drop_states-Drops js (drop_state j s) in
    record {
      states = λ k. ground (arith, rest.states k, lookup-remove j k s.oauth_states);
      logins = λ k. ground (arith, rest.logins k, lookup-remove j k s.oauth_login_contexts);
      tests = λ k. ground (arith, rest.tests k, lookup-remove j k s.oauth_test_contexts);
      fewer = omega (arith, rest.fewer, length-remove j s.oauth_states);
      distinct = λ h. rest.distinct (remove-IsDistinct j s.oauth_states h);
      sessions = rest.sessions;
    }

-- The cleanup drops from the three dicts exactly the digests whose state is stale.
pub cleanup_oauth_states-Drops :
    (now : ℕ) (s : WebState)
    → IsDistinct s.oauth_states
    → Drops (λ k. is_stale_at now k s.oauth_states) s (cleanup_oauth_states now s)
unfolding cleanup_oauth_states
cleanup_oauth_states-Drops now s h =
    let d = drop_states-Drops (stale_digests now s.oauth_states) s in
    let same = λ (k : String). contains-stale_digests now k s.oauth_states h in
    record {
      states = λ k. rw (← same k) (d.states k);
      logins = λ k. rw (← same k) (d.logins k);
      tests = λ k. rw (← same k) (d.tests k);
      fewer = d.fewer;
      distinct = d.distinct;
      sessions = d.sessions;
    }
