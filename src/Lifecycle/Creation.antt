-- ===== src/Lifecycle/Creation.antt =====
-- The calls that create a task add one new record and change no other.
use xiaowei_agent.Contracts.Commands.{
  StoreError, Result, SqlQuerySubmitCommand, ok, err, SqlSubmitOutcome, SqlQuerySubmitResult,
}
use xiaowei_agent.Contracts.Platform.{Platform}
use xiaowei_agent.Contracts.Submission.{
  ConversationSubmission, TaskSubmission, context_of, conversation,
}
use xiaowei_agent.Contracts.Task.{TaskRecord, is_set}
use xiaowei_agent.Decisions.Sql.{context_matches_envelope}
use xiaowei_agent.Dict.{lookup}
use xiaowei_agent.Lifecycle.{Change, keeps, makes}
use xiaowei_agent.Lifecycle.Attempts.{SameTasks}
use xiaowei_agent.Lifecycle.Refinement.{keeps_all}
use xiaowei_agent.Prelude.{
  list_eq, string_eq, Bool-cases, ℕ, ◌+◌, String, ◌≡◌, refl, ap, inl, inr, Option, none, some, List,
  arith,
}
use xiaowei_agent.Store.State.{StoreState, StoreResult}
use xiaowei_agent.Store.Artifacts.{extend_selected_sql}
use xiaowei_agent.Store.Submit.{
  clarification_parent_is_consumed, clarification_parent_is_usable, insert_task, create_task_locked,
  create_task, create_clarification_child, submit_sql_query, sql_scope, or_existing,
  after_extension, consume_parent, answer_sql, existing_sql_task, create_child_of, insert_sql_task,
  submit_found,
}

extension_keeps :
    (r : TaskRecord) (now : ℕ) (s : StoreState) → SameTasks s (extend_selected_sql r now s).1
unfolding extend_selected_sql
extension_keeps r now s = ground arith

module _ (limit : ℕ) (p : Platform) where
  insert_task-Change :
      (id : String) (m : TaskSubmission) (digest key : String) (scope : List String)
      (s t : StoreState)
      → lookup id s.tasks ≡ none
      → t.tasks ≡ s.tasks
      → t.next_fencing_token ≡ s.next_fencing_token
      → t.next_created_seq ≡ s.next_created_seq
      → Change limit s (insert_task p id m digest key scope t).1
  unfolding insert_task
  insert_task-Change id m digest key scope s t fresh tasks token seq =
      makes id (context_of m) key digest fresh (cc (tasks, seq)) token (ap (λ n. n + 1) seq)

  create_task_locked-Change :
      (id : String) (m : ConversationSubmission) (digest : String) (s t : StoreState)
      → lookup id s.tasks ≡ none
      → SameTasks s t
      → Change limit s (create_task_locked p id m digest t).1
  unfolding create_task_locked
  create_task_locked-Change id m digest s t fresh same =
      insert_task-Change id (conversation m) digest _ _ s t fresh same.0 same.1 same.2

  or_existing-Change :
      (r : Result (Option TaskRecord)) (s : StoreState) (next : StoreResult TaskRecord)
      → Change limit s next.1
      → Change limit s (or_existing r s next).1
  or_existing-Change (err e) s next h = keeps_all limit s
  or_existing-Change (ok (some r)) s next h = keeps_all limit s
  or_existing-Change (ok none) s next h = h

  pub create_task-Change :
      (id : String) (m : ConversationSubmission) (s : StoreState)
      → lookup id s.tasks ≡ none
      → Change limit s (create_task p id m s).1
  unfolding create_task
  create_task-Change id m s fresh =
      elim (Bool-cases (context_matches_envelope m.envelope m.context)) [
        | inr e ↦ rw e (keeps_all limit s)
        | inl agrees ↦ elim (Bool-cases (is_set m.clarification_parent_task_id)) [
          | inl e ↦ rw (agrees, e) (keeps_all limit s)
          | inr e ↦
              rw (agrees, e)
                (or_existing-Change _ s _
                  (create_task_locked-Change id m _ s s fresh (refl, refl, refl)))
        ]
      ]

  after_extension-Change :
      (r : StoreResult (Unit {0})) (s : StoreState) (id : String) (m : ConversationSubmission)
      (digest : String)
      → lookup id s.tasks ≡ none
      → SameTasks s r.1
      → Change limit s (after_extension r (create_task_locked p id m digest)).1
  after_extension-Change (err e, t) s id m digest fresh same = keeps same.0 same.1 same.2
  after_extension-Change (ok u, t) s id m digest fresh same =
      create_task_locked-Change id m digest s t fresh same

  consume_parent-Change :
      (o : Option TaskRecord) (parent_id : String) (m : ConversationSubmission) (owner : String)
      (s : StoreState) (e : StoreError) (next : TaskRecord → StoreResult TaskRecord)
      → ((r : TaskRecord) → Change limit s (next r).1)
      → Change limit s (consume_parent o parent_id m owner s (err e, s) next).1
  consume_parent-Change none parent_id m owner s e next h = keeps_all limit s
  consume_parent-Change (some r) parent_id m owner s e next h =
      elim (Bool-cases (clarification_parent_is_usable r m owner)) [
        | inr q ↦ rw q (keeps_all limit s)
        | inl q ↦ elim (Bool-cases (clarification_parent_is_consumed parent_id s)) [
          | inl used ↦ rw (q, used) (keeps_all limit s)
          | inr new ↦ rw (q, new) (h r)
        ]
      ]

  create_child_of-Change :
      (o : Option String) (id : String) (now : ℕ) (m : ConversationSubmission) (owner : String)
      (s : StoreState)
      → lookup id s.tasks ≡ none
      → Change limit s (create_child_of p o id now m owner s).1
  unfolding create_child_of
  create_child_of-Change none id now m owner s fresh = keeps_all limit s
  create_child_of-Change (some parent_id) id now m owner s fresh =
      elim (Bool-cases (context_matches_envelope m.envelope m.context)) [
        | inr q ↦ rw q (keeps_all limit s)
        | inl q ↦ rw q (
            or_existing-Change _ s _ (
              consume_parent-Change _ parent_id m owner s _ _
                λ r. after_extension-Change _ s id m _ fresh (extension_keeps r now s)))
      ]

  pub create_clarification_child-Change :
      (id : String) (now : ℕ) (m : ConversationSubmission) (owner : String) (s : StoreState)
      → lookup id s.tasks ≡ none
      → Change limit s (create_clarification_child p id now m owner s).1
  unfolding create_clarification_child
  create_clarification_child-Change id now m owner s fresh =
      create_child_of-Change m.clarification_parent_task_id id now m owner s fresh

  answer_sql-Change :
      (o : SqlSubmitOutcome) (r : Option TaskRecord) (s : StoreState)
      (next : StoreResult SqlQuerySubmitResult)
      → Change limit s next.1
      → Change limit s (answer_sql o r s next).1
  answer_sql-Change SqlSubmitOutcome.created r s next h = h
  answer_sql-Change SqlSubmitOutcome.replayed r s next h = keeps_all limit s
  answer_sql-Change SqlSubmitOutcome.idempotency_conflict r s next h = keeps_all limit s

  insert_sql_task-Change :
      (id ref : String) (now : ℕ) (c : SqlQuerySubmitCommand) (digest : String) (s : StoreState)
      → lookup id s.tasks ≡ none
      → Change limit s (insert_sql_task p id ref now c digest s).1
  unfolding insert_sql_task
  insert_sql_task-Change id ref now c digest s fresh =
      insert_task-Change id _ digest c.idempotency_key (sql_scope c) s _ fresh refl refl refl

  pub submit_sql_query-Change :
      (id ref : String) (now : ℕ) (c : SqlQuerySubmitCommand) (s : StoreState)
      → lookup id s.tasks ≡ none
      → Change limit s (submit_sql_query p id ref now c s).1
  unfolding submit_sql_query
  submit_sql_query-Change id ref now c s fresh =
      found-Change (existing_sql_task (lookup (sql_scope c) s.task_ids_by_key) s)
    where
      found-Change :
          (r : Result (Option TaskRecord)) → Change limit s (submit_found p id ref now c s r).1
      found-Change (err e) = keeps_all limit s
      found-Change (ok existing) =
          answer_sql-Change _ existing s _ (insert_sql_task-Change id ref now c _ s fresh)
