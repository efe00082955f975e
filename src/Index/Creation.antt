-- ===== src/Index/Creation.antt =====
-- The calls that create a task add its key to the index, and only if it has no entry.
use xiaowei_agent.Contracts.Commands.{
  StoreError, Result, SqlSubmitOutcome, SqlQuerySubmitCommand, ok, task_not_found, err,
}
use xiaowei_agent.Contracts.Platform.{Platform}
use xiaowei_agent.Contracts.Submission.{ConversationSubmission}
use xiaowei_agent.Contracts.Task.{TaskRecord, is_set}
use xiaowei_agent.Decisions.Sql.{context_matches_envelope, classify_sql_submit}
use xiaowei_agent.Dict.{lookup, insert}
use xiaowei_agent.Digests.{request_dedup_digest, sql_request_dedup_digest}
use xiaowei_agent.Index.{IndexChange, holds, indexes}
use xiaowei_agent.Prelude.{
  string_eq, nat_eq, list_eq, pair_eq, Bool-cases, ℕ, String, ◌≡◌, refl, ap, ◌∙◌, inl, inr, Option,
  none, some, arith,
}
use xiaowei_agent.Store.State.{StoreState}
use xiaowei_agent.Store.Artifacts.{extend_selected_sql}
use xiaowei_agent.Store.Submit.{
  conversation_scope, sql_scope, existing_task_for_submission, created, after_extension,
  consume_parent, sql_created, existing_sql_task, insert_task, create_task_locked, create_task,
  create_child_of, create_clarification_child, insert_sql_task, submit_found, submit_sql_query,
}
use xiaowei_agent.Store.Submit.Cases.{
  after_extension-cases, or_existing-cases, consume_parent-cases, answer_sql-cases,
}

abbrev pub SameIndex : StoreState → StoreState → Type 0
SameIndex s t = t.task_ids_by_key ≡ s.task_ids_by_key

module _ (p : Platform) where
  extension_holds :
      (r : TaskRecord) (now : ℕ) (s : StoreState) → SameIndex s (extend_selected_sql r now s).1
  unfolding extend_selected_sql
  extension_holds r now s = ground arith

  -- the scope of a submission that has no task is free
  free_scope :
      (m : ConversationSubmission) (digest : String) (s : StoreState)
      → existing_task_for_submission m digest s ≡ ok none
      → lookup (conversation_scope m) s.task_ids_by_key ≡ none
  unfolding existing_task_for_submission
  free_scope m digest s h = ground arith

  free_sql_scope : (o : Option String) (s : StoreState) → existing_sql_task o s ≡ ok none → o ≡ none
  free_sql_scope none s h = refl
  free_sql_scope (some id) s h = ground arith

  created_IndexChange :
      (id : String) (m : ConversationSubmission) (digest : String) (s t : StoreState)
      → lookup (conversation_scope m) s.task_ids_by_key ≡ none
      → SameIndex s t
      → IndexChange s (create_task_locked p id m digest t).1
  unfolding create_task_locked insert_task
  created_IndexChange id m digest s t free same =
      indexes (conversation_scope m) id free (ap (λ d. insert (conversation_scope m) id d) same)

  pub create_IndexChange :
      (id : String) (m : ConversationSubmission) (s : StoreState)
      → IndexChange s (create_task p id m s).1
  unfolding create_task
  create_IndexChange id m s = elim (Bool-cases (context_matches_envelope m.envelope m.context)) [
    | inr q ↦ rw q (holds refl)
    | inl q ↦ elim (Bool-cases (is_set m.clarification_parent_task_id)) [
      | inl k ↦ rw (q, k) (holds refl)
      | inr k ↦
          let digest = request_dedup_digest p m.envelope m.context m.clarification_parent_task_id in
          rw (q, k)
            (or_existing-cases (IndexChange s) s (existing_task_for_submission m digest s)
              (created (create_task_locked p id m digest s)) (holds refl)
              λ none_yet. created_IndexChange id m digest s s (free_scope m digest s none_yet) refl)
    ]
  ]

  child_of_parent :
      (parent_id id digest : String) (now : ℕ) (m : ConversationSubmission) (owner : String)
      (s : StoreState) (e : StoreError)
      → lookup (conversation_scope m) s.task_ids_by_key ≡ none
      → IndexChange s
          (consume_parent
            (lookup parent_id s.tasks)
            parent_id
            m
            owner
            s
            (err e, s)
            λ parent.
              after_extension
                (extend_selected_sql parent now s)
                (create_task_locked p id m digest)).1
  child_of_parent parent_id id digest now m owner s e free =
      consume_parent-cases (IndexChange s) s (lookup parent_id s.tasks) parent_id m owner e
        (λ parent.
          after_extension (extend_selected_sql parent now s) (create_task_locked p id m digest))
        (holds refl)
        λ r.
          after_extension-cases (IndexChange s) (extend_selected_sql r now s)
            (create_task_locked p id m digest) (holds (extension_holds r now s))
            (created_IndexChange id m digest s (extend_selected_sql r now s).1 free
              (extension_holds r now s))

  child_of_IndexChange :
      (o : Option String) (id : String) (now : ℕ) (m : ConversationSubmission) (owner : String)
      (s : StoreState)
      → IndexChange s (create_child_of p o id now m owner s).1
  unfolding create_child_of
  child_of_IndexChange none id now m owner s = holds refl
  child_of_IndexChange (some parent_id) id now m owner s =
      elim (Bool-cases (context_matches_envelope m.envelope m.context)) [
        | inr q ↦ rw q (holds refl)
        | inl q ↦
            let digest = request_dedup_digest p m.envelope m.context (some parent_id) in
            rw q (
              or_existing-cases (IndexChange s) s (existing_task_for_submission m digest s)
                (consume_parent (lookup parent_id s.tasks) parent_id m owner s
                  (err (task_not_found parent_id), s)
                  λ parent.
                    after_extension (extend_selected_sql parent now s)
                      (create_task_locked p id m digest))
                (holds refl)
                λ none_yet.
                  child_of_parent parent_id id digest now m owner s (task_not_found parent_id)
                    (free_scope m digest s none_yet))
      ]

  pub child_IndexChange :
      (id : String) (now : ℕ) (m : ConversationSubmission) (owner : String) (s : StoreState)
      → IndexChange s (create_clarification_child p id now m owner s).1
  unfolding create_clarification_child
  child_IndexChange id now m owner s =
      child_of_IndexChange m.clarification_parent_task_id id now m owner s

  -- only a scope without a task is answered with a new one
  created_sql_none :
      (o : Option TaskRecord) (tenant environment key digest : String)
      → classify_sql_submit o tenant environment key digest ≡ SqlSubmitOutcome.created
      → o ≡ none
  unfolding classify_sql_submit
  created_sql_none none tenant environment key digest h = refl
  created_sql_none (some r) tenant environment key digest h = ground arith

  found_IndexChange :
      (id ref : String) (now : ℕ) (c : SqlQuerySubmitCommand) (s : StoreState)
      (r : Result (Option TaskRecord))
      → existing_sql_task (lookup (sql_scope c) s.task_ids_by_key) s ≡ r
      → IndexChange s (submit_found p id ref now c s r).1
  unfolding submit_found insert_sql_task insert_task
  found_IndexChange id ref now c s (err e) h = holds refl
  found_IndexChange id ref now c s (ok existing) h =
      let digest =
        sql_request_dedup_digest p c.context (p.sha256_hex c.sql_bytes) c.idempotency_key in
      answer_sql-cases (IndexChange s) s
        (classify_sql_submit existing c.context.tenant_id c.context.environment_id c.idempotency_key
          digest)
        existing (sql_created (insert_sql_task p id ref now c digest s)) (holds refl)
        λ q.
          indexes (sql_scope c) id
            (free_sql_scope (lookup (sql_scope c) s.task_ids_by_key) s
              (h ∙ ap ok (created_sql_none existing _ _ _ _ q)))
            refl

  pub sql_IndexChange :
      (id ref : String) (now : ℕ) (c : SqlQuerySubmitCommand) (s : StoreState)
      → IndexChange s (submit_sql_query p id ref now c s).1
  unfolding submit_sql_query
  sql_IndexChange id ref now c s =
      found_IndexChange id ref now c s
        (existing_sql_task (lookup (sql_scope c) s.task_ids_by_key) s) refl
