-- ===== src/Store/State.antt =====
-- The part of `InMemoryPersistenceState` (persistence/memory.py) that the task store reads and writes.
-- Each operation holds the lock from its first read to its last write, so it is one function from the
-- state to its result and the next state.
use xiaowei_agent.Contracts.Commands.{
  Result, SqlArtifactRecord, SqlArtifactRef, task_not_found, err,
}
use xiaowei_agent.Contracts.Steps.{
  TraceEvent, EvidenceEnvelope, StoredPlan, ApprovalRequest, StepExecutionRecord,
}
use xiaowei_agent.Contracts.Submission.{TaskSubmission}
use xiaowei_agent.Contracts.Task.{TaskRecord}
use xiaowei_agent.Dict.{Dict, lookup, insert}
use xiaowei_agent.Prelude.{
  string_eq, length, ℕ, suc, String, Option, none, some, List, [], ◌∷◌, ◌++◌,
}

-- What `target_selection_sql` reads of a clarification record.
pub data ClarificationSubject : Type 0 where
  route : ClarificationSubject
  capability : Option SqlArtifactRef → ClarificationSubject

pub record StoreState : Type 0 where
  pub tasks : Dict String TaskRecord
  pub task_ids_by_key : Dict (List String) String
  pub sql_artifacts : Dict String SqlArtifactRecord
  pub submissions : Dict String TaskSubmission
  pub submission_digests : Dict String String
  pub plans : Dict String StoredPlan
  pub evidence : Dict String (Dict String EvidenceEnvelope)
  pub clarification_records : Dict String ClarificationSubject
  pub approvals : Dict String (List ApprovalRequest)
  pub audit_events : Dict String (List TraceEvent)
  pub step_executions : Dict (String × String) StepExecutionRecord
  pub next_fencing_token : ℕ
  pub next_created_seq : ℕ

abbrev pub empty_state : StoreState
empty_state = record {
  tasks = [];
  task_ids_by_key = [];
  sql_artifacts = [];
  submissions = [];
  submission_digests = [];
  plans = [];
  evidence = [];
  clarification_records = [];
  approvals = [];
  audit_events = [];
  step_executions = [];
  next_fencing_token = 1;
  next_created_seq = 1;
}

abbrev pub StoreResult : Type 0 → Type 0
StoreResult A = Result A × StoreState

abbrev or_empty {ℓ} : {A : Type ℓ} → Option (List A) → List A
or_empty none = []
or_empty (some xs) = xs

-- `ledger.setdefault(task_id, []).append(entry)`
unfoldable pub append_entry {ℓ} :
    {A : Type ℓ} → Dict String (List A) → String → A → Dict String (List A)
append_entry ledger task_id entry =
    insert task_id (or_empty (lookup task_id ledger) ++ entry ∷ []) ledger

-- the `len(bucket)` that `_append` returns
unfoldable pub next_seq {ℓ} : {A : Type ℓ} → Dict String (List A) → String → ℕ
next_seq ledger task_id = suc (length (or_empty (lookup task_id ledger)))

-- `for event in events: self._append(ledger, task_id, event)`
unfoldable pub append_all {ℓ} :
    {A : Type ℓ} → Dict String (List A) → String → List A → Dict String (List A)
append_all ledger task_id [] = ledger
append_all ledger task_id (e ∷ es) = append_all (append_entry ledger task_id e) task_id es

-- `self._require(task_id)` and the rest of the operation
abbrev pub with_task :
    {A : Type 0} → String → StoreState → (TaskRecord → StoreResult A) → StoreResult A
with_task task_id s rest = elim (lookup task_id s.tasks) [
  | none ↦ (err (task_not_found task_id), s)
  | some current ↦ rest current
]
