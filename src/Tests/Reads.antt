-- ===== src/Tests/Reads.antt =====
-- The theorems on what the store shows at the runs of the scenario.
use mathlib.Core.List.{Memᴰ}
use mathlib.Core.List.Memᴰ
use xiaowei_agent.Contracts.Commands.{TaskAttemptGrant, DispatchQuery, SqlArtifactRecord, ok}
use xiaowei_agent.Contracts.Enums.{TaskStatus, AttemptIntent}
use xiaowei_agent.Contracts.Platform.{toy_platform}
use xiaowei_agent.Contracts.Submission.{conversation}
use xiaowei_agent.Contracts.Task.{
  TaskRecord, lease_fields_are_consistent, StoredTaskPage, TaskPageQuery,
}
use xiaowei_agent.Decisions.Agreement.{
  is_open_to_attempt, in_scope, is_dispatchable-classify_task_attempt, is_stale_lease-free,
}
use xiaowei_agent.Decisions.Attempt.{classify_task_attempt}
use xiaowei_agent.Decisions.Fencing.{check_fencing}
use xiaowei_agent.Decisions.Lease.{
  may_acquire_lease, may_renew_lease, grant_is_current, is_dispatchable, is_stale_lease,
}
use xiaowei_agent.Decisions.Sql.{classify_sql_artifact_read}
use xiaowei_agent.Dict.Values.{values}
use xiaowei_agent.Guarantees.Listings.{
  IsOlder, list_dispatchable_tasks-IsFirst, Answers, list_stale_leases-IsFirst,
}
use xiaowei_agent.Guarantees.Pages.{Shows, page-Shows}
use xiaowei_agent.Guarantees.Sql.{Loaded, load_sql_for_execution-Loaded}
use xiaowei_agent.Prelude.{
  string_eq, inl, inr, nat_eq, IsFirst, ℕ, ◌≤◌, String, ◌≡◌, refl, ◌≢◌, Bool, true, false, ◌&&◌,
  Option, none, some, [], ◌∷◌, arith,
}
use xiaowei_agent.Store.Read.{
  stored_read, stored_reads, page, list_dispatchable_tasks, or_zero, list_stale_leases,
}
use xiaowei_agent.Store.State.{StoreState}
use xiaowei_agent.Store.Artifacts.{
  raise_for_sql_artifact_read, read_sql, extend_row, load_sql_for_execution,
}
use xiaowei_agent.Tests.Scenario.{
  submission, opened, creates, begins, store_after, created_task, attempted_task,
}
use xiaowei_agent.Tests.Work.{granted, running}

abbrev asks : DispatchQuery
asks = record { tenant_id = "tenant"; environment_id = "prod"; limit = 2 }

is_dispatchable-classify_task_attempt_example : is_dispatchable created_task asks 5 ≡ (
    in_scope created_task asks
    && is_open_to_attempt (classify_task_attempt created_task AttemptIntent.dispatch 5 3))
is_dispatchable-classify_task_attempt_example =
    is_dispatchable-classify_task_attempt created_task asks 5 3

lease_ran_out : is_stale_lease attempted_task 60001000 ≡ true
unfolding opened is_stale_lease
lease_ran_out = refl

is_stale_lease-free_example :
    ((owner : String) → may_acquire_lease attempted_task owner 60001000 ≡ true)
    × ((owner : String) (token : ℕ) → may_renew_lease attempted_task owner token 60001000 ≡ false)
    × ((g : TaskAttemptGrant) (allowed : TaskStatus → Bool)
        → grant_is_current attempted_task g 60001000 allowed ≢ none)
    × ((token : Option ℕ) → check_fencing attempted_task token 60001000 ≢ none)
is_stale_lease-free_example = is_stale_lease-free attempted_task 60001000 lease_ran_out

abbrev text_row : SqlArtifactRecord
text_row = record {
  sql_ref = "sql";
  sql_hash = "hash";
  sql_bytes = some "select 1";
  requester = "ann";
  tenant_id = "tenant";
  environment_id = "prod";
  created_at = 0;
  expires_at = 5000;
  purged_at = none;
}

abbrev with_sql : StoreState
with_sql = record running { sql_artifacts = ("sql", text_row) ∷ [] }

text_loaded :
    (load_sql_for_execution granted "sql" "hash" 2000 with_sql).0 ≡ ok (extend_row text_row 2000)
unfolding opened load_sql_for_execution read_sql classify_sql_artifact_read
    raise_for_sql_artifact_read
text_loaded = refl

load_sql_for_execution-Loaded_example :
    Loaded granted "sql" "hash" 2000 with_sql
      (load_sql_for_execution granted "sql" "hash" 2000 with_sql).1
      (extend_row text_row 2000)
load_sql_for_execution-Loaded_example =
    load_sql_for_execution-Loaded granted "sql" "hash" 2000 with_sql (extend_row text_row 2000)
      text_loaded

list_dispatchable_tasks-IsFirst_example :
    IsFirst
      (λ r. is_dispatchable r asks 5)
      IsOlder
      2
      (values (store_after (creates ∷ [])).tasks)
      (list_dispatchable_tasks asks 5 (store_after (creates ∷ [])))
list_dispatchable_tasks-IsFirst_example =
    list_dispatchable_tasks-IsFirst asks 5 (store_after (creates ∷ []))

worked_leases :
    (r : TaskRecord)
    → Memᴰ r (values (store_after (creates ∷ begins ∷ [])).tasks)
    → lease_fields_are_consistent r ≡ true
unfolding opened
worked_leases r m = elim (Memᴰ.cases_cons m) [ inl e ↦ rw e refl | inr k ↦ absurd (Memᴰ.not-nil k) ]

list_stale_leases-IsFirst_example :
    Answers
      (IsFirst
        (λ r. is_stale_lease r 60001000)
        (λ a b. or_zero a.lease_expires_at ≤ or_zero b.lease_expires_at)
        5
        (values (store_after (creates ∷ begins ∷ [])).tasks))
      (list_stale_leases 5 60001000 (store_after (creates ∷ begins ∷ [])))
list_stale_leases-IsFirst_example =
    list_stale_leases-IsFirst 5 60001000 (store_after (creates ∷ begins ∷ [])) worked_leases

abbrev own_tasks : TaskPageQuery
own_tasks = record {
  tenant_id = "tenant";
  environment_id = "prod";
  actor = some "ann";
  before_created_seq = none;
  limit = 1;
}

abbrev own_page : StoredTaskPage
own_page = record {
  items = record { record_ = created_task; submission = conversation submission } ∷ [];
  next_created_seq = none;
}

own_page_shown : page toy_platform own_tasks (store_after (creates ∷ [])) ≡ ok own_page
unfolding opened page stored_reads stored_read
own_page_shown = refl

page-Shows_example : Shows own_tasks (store_after (creates ∷ [])) own_page
page-Shows_example =
    page-Shows toy_platform own_tasks (store_after (creates ∷ [])) own_page (omega arith)
      own_page_shown
