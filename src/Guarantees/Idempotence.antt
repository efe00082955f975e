-- ===== src/Guarantees/Idempotence.antt =====
-- `create_task`: a request that is sent again gets the task that the first one made.
use xiaowei_agent.Contracts.Commands.{StoreError, ok, err}
use xiaowei_agent.Contracts.Platform.{Platform}
use xiaowei_agent.Contracts.Submission.{ConversationSubmission}
use xiaowei_agent.Contracts.Task.{TaskRecord, is_set}
use xiaowei_agent.Decisions.Sql.{context_matches_envelope}
use xiaowei_agent.Dict.{lookup, lookup-insert, lookup-insert_self}
use xiaowei_agent.Digests.{request_dedup_digest}
use xiaowei_agent.Index.{IndexChange, holds, indexes}
use xiaowei_agent.Index.Refinement.{after-IndexChange}
use xiaowei_agent.Lifecycle.{IsKeyed, Reach, here, calls}
use xiaowei_agent.Lifecycle.Creation.{create_task-Change}
use xiaowei_agent.Lifecycle.Evolution.{Evolves}
use xiaowei_agent.Lifecycle.History.{Reach-Evolves}
use xiaowei_agent.Lifecycle.Invariant.{Inv, Change-Inv}
use xiaowei_agent.Prelude.{
  string_eq, nat_eq, list_eq, if◌then◌else◌, ◌==◌, list_equals_iff, ℕ, String, ◌≡◌, sym, ap, subst,
  true, false, some, List, arith, Option-cases, inl, inr, ◌<◌, ◌∙◌, none, eq_iff,
}
use xiaowei_agent.Store.State.{StoreState}
use xiaowei_agent.Store.Submit.{
  conversation_scope, existing_task_for_submission, create_task, check_digest, created, insert_task,
  create_task_locked, new_record,
}

-- the task that the index holds for a key
pub record Indexed (s : StoreState) (scope : List String) (r : TaskRecord) : Type 0 where
  pub entry : lookup scope s.task_ids_by_key ≡ some r.task_id
  pub there : lookup r.task_id s.tasks ≡ some r

-- an entry of the index is never changed
IndexChange-entry :
    {s t : StoreState} (scope : List String) (id : String)
    → lookup scope s.task_ids_by_key ≡ some id
    → IndexChange s t
    → lookup scope t.task_ids_by_key ≡ some id
IndexChange-entry scope id h (holds e) = subst (λ d. lookup scope d ≡ some id) (sym e) h
IndexChange-entry {s} scope id h (indexes other new_id free e) =
    subst (λ d. lookup scope d ≡ some id) (sym e)
      (ground (
        arith,
        lookup-insert other scope new_id s.task_ids_by_key,
        list_equals_iff other scope,
        ap (λ x. lookup x s.task_ids_by_key),
      ))

Reach-entry :
    (p : Platform) (limit : ℕ) {s t : StoreState} (scope : List String) (id : String)
    → lookup scope s.task_ids_by_key ≡ some id
    → Reach p limit s t
    → lookup scope t.task_ids_by_key ≡ some id
Reach-entry p limit scope id h here = h
Reach-entry p limit scope id h (calls {t = t} c path fresh e) =
    subst (λ (x : StoreState). lookup scope x.task_ids_by_key ≡ some id) (sym e)
      (IndexChange-entry scope id (Reach-entry p limit scope id h path)
        (after-IndexChange p limit c t))

module _ (p : Platform) where
  abbrev pub digest_of : ConversationSubmission → String
  digest_of m = request_dedup_digest p m.envelope m.context m.clarification_parent_task_id

  -- the submission is well formed: it is for its own context, and names no parent
  abbrev pub IsDirect : ConversationSubmission → Type 0
  IsDirect m =
      (context_matches_envelope m.envelope m.context ≡ true)
      × (is_set m.clarification_parent_task_id ≡ false)

  known_task :
      (m : ConversationSubmission) (digest : String) (s : StoreState) (r : TaskRecord)
      → Indexed s (conversation_scope m) r
      → existing_task_for_submission m digest s ≡ check_digest (some r) digest
  unfolding existing_task_for_submission
  known_task m digest s r indexed = ground (arith, indexed.entry, indexed.there)

  -- what `create_task` answers when the key has an entry
  answered_by_index :
      (id : String) (m : ConversationSubmission) (s : StoreState) (r : TaskRecord)
      → IsDirect m
      → Indexed s (conversation_scope m) r
      → create_task p id m s ≡ (
          if r.request_digest == digest_of m
          then (ok r, s)
          else (err StoreError.idempotency_conflict, s))
  unfolding create_task
  answered_by_index id m s r direct indexed =
      rw (direct.0, direct.1) (ground (arith, known_task m (digest_of m) s r indexed))

  found_Indexed :
      (m : ConversationSubmission) (digest : String) (s : StoreState) (r : TaskRecord)
      → IsKeyed s
      → existing_task_for_submission m digest s ≡ ok (some r)
      → Indexed s (conversation_scope m) r × (r.request_digest ≡ digest)
  unfolding existing_task_for_submission
  found_Indexed m digest s r keyed h =
      elim (Option-cases (lookup (conversation_scope m) s.task_ids_by_key)) [
        | inl e ↦ absurd (ground arith)
        | inr (i, e) ↦ elim (Option-cases (lookup i s.tasks)) [
          | inl q ↦ absurd (ground arith)
          | inr (r', q) ↦ ground (arith, keyed i r' q, eq_iff r'.request_digest digest)
        ]
      ]

  created-Indexed :
      (id : String) (m : ConversationSubmission) (digest : String) (s : StoreState) (r : TaskRecord)
      → (created (create_task_locked p id m digest s)).0 ≡ ok r
      → Indexed (create_task_locked p id m digest s).1 (conversation_scope m) r
        × (r.request_digest ≡ digest)
  unfolding create_task_locked insert_task
  created-Indexed id m digest s r h = ground (
    arith,
    lookup-insert_self (conversation_scope m) id s.task_ids_by_key,
    lookup-insert_self id
        (new_record id m.context m.envelope.idempotency_key digest s.next_created_seq) s.tasks,
  )

  -- a task that is answered stands in the index with the digest of the request
  answered-Indexed :
      (id : String) (m : ConversationSubmission) (s : StoreState) (r : TaskRecord)
      → IsKeyed s
      → (create_task p id m s).0 ≡ ok r
      → Indexed (create_task p id m s).1 (conversation_scope m) r × (r.request_digest ≡ digest_of m)
  unfolding create_task
  answered-Indexed id m s r keyed h =
      ground
        (arith, found_Indexed m (digest_of m) s r keyed, created-Indexed id m (digest_of m) s r)

module _ (p : Platform) (limit : ℕ) where
  -- Once `create_task` has answered a request with a task, whatever calls come between, a request with
  -- the same tenant, environment and idempotency key makes no task and changes nothing: it is answered
  -- with that task as it now stands if it asks for the same, and with a conflict if it does not.
  pub create_task_idempotent :
      (id again : String) (m n : ConversationSubmission) (r : TaskRecord) {s u : StoreState}
      → 0 < limit
      → Inv limit s
      → lookup id s.tasks ≡ none
      → (create_task p id m s).0 ≡ ok r
      → conversation_scope n ≡ conversation_scope m
      → IsDirect p n
      → Reach p limit (create_task p id m s).1 u
      → (r' : TaskRecord) × Evolves r r'
        × (lookup r.task_id u.tasks ≡ some r')
        × (create_task p again n u ≡ (
            if digest_of p m == digest_of p n
            then (ok r', u)
            else (err StoreError.idempotency_conflict, u)))
  create_task_idempotent id again m n r {s} {u} pos v fresh answered same_scope direct path =
      let (indexed, digest) = answered-Indexed p id m s r v.keyed answered in
      let w = Change-Inv pos v (create_task-Change limit p id m s fresh) in
      let (r', found, evolved) = Reach-Evolves p limit pos w path r.task_id r indexed.there in
      let entry = Reach-entry p limit (conversation_scope m) r.task_id indexed.entry path in
      let own = evolved.identity.task_id in
      let held : Indexed u (conversation_scope n) r' = record {
        entry =
            subst (λ k. lookup k u.task_ids_by_key ≡ some r'.task_id) (sym same_scope)
              (entry ∙ ap some (sym own));
        there = subst (λ i. lookup i u.tasks ≡ some r') (sym own) found;
      } in
      (
        r',
        evolved,
        found,
        subst
            (λ d. create_task p again n u ≡ (
              if d == digest_of p n then (ok r', u) else (err StoreError.idempotency_conflict, u)))
            (evolved.identity.request_digest ∙ digest)
            (answered_by_index p again n u r' direct held),
      )
