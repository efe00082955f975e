-- ===== src/Web/OAuth.antt =====
-- The OAuth states of `InMemoryWebSessionStore` (persistence/fake.py): issue, consumption and cleanup.
use xiaowei_agent.Contracts.Json.{seconds}
use xiaowei_agent.Contracts.Task.{is_set}
use xiaowei_agent.Dict.{Dict, lookup, insert}
use xiaowei_agent.Dict.Erase.{remove}
use xiaowei_agent.Prelude.{
  string_eq, nat_eq, ltb, leb, if◌then◌else◌, ◌==◌, length, ℕ, ◌+◌, String, Bool, true, false, ◌&&◌,
  ◌||◌, Option, none, some, List, [], ◌∷◌,
}
use xiaowei_agent.Web.Contracts.{
  OAuthState, OAuthLoginState, OAuthTestState, OAuthTestContext, IssueOAuthStateCommand,
  IssueOAuthLoginStateCommand, IssueOAuthTestStateCommand, WebError, WebState, WebResult, answer,
  raise,
}

-- consumed, or `now >= state.expires_at`
unfoldable pub is_stale_state : ℕ → OAuthState → Bool
is_stale_state now state = is_set state.consumed_at || leb state.expires_at now

-- the digests of the stale states, collected before any is dropped
unfoldable pub stale_digests : ℕ → Dict String OAuthState → List String
stale_digests now [] = []
stale_digests now ((digest, state) ∷ d) =
    let rest = stale_digests now d in if is_stale_state now state then digest ∷ rest else rest

-- `del`, and the two `pop`s
unfoldable pub drop_state : String → WebState → WebState
drop_state digest s = record s {
  oauth_states = remove digest s.oauth_states;
  oauth_login_contexts = remove digest s.oauth_login_contexts;
  oauth_test_contexts = remove digest s.oauth_test_contexts;
}

unfoldable pub drop_states : List String → WebState → WebState
drop_states [] s = s
drop_states (digest ∷ digests) s = drop_states digests (drop_state digest s)

unfoldable pub cleanup_oauth_states : ℕ → WebState → WebState
cleanup_oauth_states now s = drop_states (stale_digests now s.oauth_states) s

-- `any(context.operation_id == operation_id for context in contexts.values())`
unfoldable pub has_operation : String → Dict String OAuthTestContext → Bool
has_operation operation_id [] = false
has_operation operation_id ((digest, context) ∷ d) =
    (context.operation_id == operation_id) || has_operation operation_id d

unfoldable pub new_state : IssueOAuthStateCommand → ℕ → OAuthState
new_state command now = record {
  state_digest = command.state_digest;
  issued_at = now;
  expires_at = now + seconds command.ttl_seconds;
  consumed_at = none;
}

-- `issue_oauth_test_state`, after the state is issued
unfoldable pub keep_test_context :
    IssueOAuthTestStateCommand → WebResult OAuthState → WebResult OAuthTestState
keep_test_context command (raise e, s) = (raise e, s)
keep_test_context command (answer state, s) = (
  answer (record {
    state = state;
    operation_id = command.operation_id;
    config_generation = command.config_generation;
  }),
  record s {
    oauth_test_contexts =
        insert state.state_digest
          (record {
            operation_id = command.operation_id;
            config_generation = command.config_generation;
          })
          s.oauth_test_contexts;
  },
)

-- `issue_oauth_login_state`, after the state is issued
unfoldable pub keep_login_context :
    IssueOAuthLoginStateCommand → WebResult OAuthState → WebResult OAuthLoginState
keep_login_context command (raise e, s) = (raise e, s)
keep_login_context command (answer state, s) = (
  answer (record { state = state; return_intent = command.return_intent }),
  record s {
    oauth_login_contexts = insert state.state_digest command.return_intent s.oauth_login_contexts;
  },
)

module _ (capacity : ℕ) where
  unfoldable pub issue_oauth_state : IssueOAuthStateCommand → ℕ → WebState → WebResult OAuthState
  issue_oauth_state command now s =
      if is_set (lookup command.state_digest s.oauth_states)
      then (raise WebError.web_session_conflict, s)
      else if leb capacity (length s.oauth_states)
      then (raise WebError.oauth_state_capacity, s)
      else (
        answer (new_state command now),
        record s {
          oauth_states = insert command.state_digest (new_state command now) s.oauth_states;
        },
      )

  unfoldable pub issue_oauth_test_state :
      IssueOAuthTestStateCommand → ℕ → WebState → WebResult OAuthTestState
  issue_oauth_test_state command now s =
      let cleaned = cleanup_oauth_states now s in
      if has_operation command.operation_id cleaned.oauth_test_contexts
      then (raise WebError.web_session_conflict, cleaned)
      else keep_test_context command (issue_oauth_state command.issue now cleaned)

  unfoldable pub issue_oauth_login_state :
      IssueOAuthLoginStateCommand → ℕ → WebState → WebResult OAuthLoginState
  issue_oauth_login_state command now s =
      keep_login_context command (issue_oauth_state command.issue now (cleanup_oauth_states now s))

-- the state under the digest, if it may still be consumed
unfoldable pub usable_state : String → ℕ → WebState → Option OAuthState
usable_state digest now s = elim (lookup digest s.oauth_states) [
  | none ↦ none
  | some state ↦ if is_stale_state now state then none else some state
]

abbrev consumed_in_time : Option ℕ → OAuthState → Bool
consumed_in_time none state = true
consumed_in_time (some at) state = leb state.issued_at at && ltb at state.expires_at

-- `OAuthState._time_facts_are_consistent`
unfoldable pub oauth_times_are_consistent : OAuthState → Bool
oauth_times_are_consistent state =
    ltb state.issued_at state.expires_at && consumed_in_time state.consumed_at state

-- the values that `state.model_copy(update={"consumed_at": now})` validates
unfoldable pub consumed : OAuthState → ℕ → OAuthState
consumed state now = record state { consumed_at = some now }

-- `self._state.oauth_states[state.state_digest] = consumed`
unfoldable pub mark_consumed : OAuthState → ℕ → WebState → WebState
mark_consumed state now s = record s {
  oauth_states = insert state.state_digest (consumed state now) s.oauth_states;
}

unfoldable pub consume_oauth_test_state : String → ℕ → WebState → WebResult OAuthTestState
consume_oauth_test_state digest now s = elim (usable_state digest now s) [
  | none ↦ (raise WebError.oauth_state_not_found, s)
  | some state ↦ elim (lookup digest s.oauth_test_contexts) [
    | none ↦ (raise WebError.oauth_test_context_not_found, s)
    | some context ↦
        if oauth_times_are_consistent (consumed state now)
        then (
          answer (record {
            state = consumed state now;
            operation_id = context.operation_id;
            config_generation = context.config_generation;
          }),
          mark_consumed state now s,
        )
        else (raise WebError.validation_error, s)
  ]
]

unfoldable pub consume_oauth_login_state : String → ℕ → WebState → WebResult OAuthLoginState
consume_oauth_login_state digest now s = elim (usable_state digest now s) [
  | none ↦ (raise WebError.oauth_state_not_found, s)
  | some state ↦ elim (lookup digest s.oauth_login_contexts) [
    | none ↦ (raise WebError.oauth_login_context_not_found, s)
    | some return_intent ↦
        if oauth_times_are_consistent (consumed state now)
        then (
          answer (record { state = consumed state now; return_intent = return_intent }),
          mark_consumed state now s,
        )
        else (raise WebError.validation_error, s)
  ]
]
