-- ===== src/Store/Submit/Cases.antt =====
-- The ways through the operations that create a task, for a predicate on the state that they leave.
use xiaowei_agent.Contracts.Commands.{
  StoreError, Result, SqlSubmitOutcome, SqlQuerySubmitResult, ok, err,
}
use xiaowei_agent.Contracts.Submission.{ConversationSubmission}
use xiaowei_agent.Contracts.Task.{TaskRecord}
use xiaowei_agent.Prelude.{
  string_eq, nat_eq, list_eq, Bool-cases, String, ◌≡◌, refl, inl, inr, Option, none, some,
}
use xiaowei_agent.Store.State.{StoreState, StoreResult}
use xiaowei_agent.Store.Submit.{
  clarification_parent_is_consumed, clarification_parent_is_usable, or_existing, after_extension,
  consume_parent, answer_sql,
}

pub after_extension-cases :
    (P : StoreState → Type 0) (r : StoreResult (Unit {0}))
    (create : StoreState → TaskRecord × StoreState)
    → P r.1
    → P (create r.1).1
    → P (after_extension r create).1
after_extension-cases P (err e, t) create failed h = failed
after_extension-cases P (ok u, t) create failed h = h

module _ (P : StoreState → Type 0) (s : StoreState) where
  -- an error or the existing task changes nothing
  pub or_existing-cases :
      (r : Result (Option TaskRecord)) (rest : StoreResult TaskRecord)
      → P s
      → (r ≡ ok none → P rest.1)
      → P (or_existing r s rest).1
  or_existing-cases (err e) rest same h = same
  or_existing-cases (ok (some r)) rest same h = same
  or_existing-cases (ok none) rest same h = h refl

  pub consume_parent-cases :
      (o : Option TaskRecord) (parent_id : String) (m : ConversationSubmission) (owner : String)
      (e : StoreError) (rest : TaskRecord → StoreResult TaskRecord)
      → P s
      → ((r : TaskRecord) → P (rest r).1)
      → P (consume_parent o parent_id m owner s (err e, s) rest).1
  consume_parent-cases none parent_id m owner e rest same h = same
  consume_parent-cases (some r) parent_id m owner e rest same h =
      elim (Bool-cases (clarification_parent_is_usable r m owner)) [
        | inr q ↦ rw q same
        | inl q ↦ elim (Bool-cases (clarification_parent_is_consumed parent_id s)) [
          | inl used ↦ rw (q, used) same
          | inr unused ↦ rw (q, unused) (h r)
        ]
      ]

  pub answer_sql-cases :
      (o : SqlSubmitOutcome) (r : Option TaskRecord) (rest : StoreResult SqlQuerySubmitResult)
      → P s
      → (o ≡ SqlSubmitOutcome.created → P rest.1)
      → P (answer_sql o r s rest).1
  answer_sql-cases SqlSubmitOutcome.created r rest same h = h refl
  answer_sql-cases SqlSubmitOutcome.replayed r rest same h = same
  answer_sql-cases SqlSubmitOutcome.idempotency_conflict r rest same h = same
