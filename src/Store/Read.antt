-- ===== src/Store/Read.antt =====
-- The operations of persistence/fake.py that only read: one task, a page of tasks, the lists of stale
-- leases and of dispatchable tasks, and the journal of a task.
use xiaowei_agent.Contracts.Commands.{
  Result, DispatchQuery, ok, task_not_found, stale_lease_sort_key_requires_lease, err,
}
use xiaowei_agent.Contracts.Platform.{Platform}
use xiaowei_agent.Contracts.Steps.{StepExecutionRecord}
use xiaowei_agent.Contracts.Submission.{TaskSubmission}
use xiaowei_agent.Contracts.Task.{TaskRecord, is_set, StoredTaskRead, StoredTaskPage, TaskPageQuery}
use xiaowei_agent.Decisions.Lease.{is_dispatchable, is_stale_lease}
use xiaowei_agent.Dict.{lookup}
use xiaowei_agent.Dict.Values.{values}
use xiaowei_agent.Prelude.{
  string_eq, nat_eq, ltb, if◌then◌else◌, ◌==◌, length, take, keep_if, sorted, ℕ, String, compare,
  Ordering, Bool, true, false, not, ◌&&◌, ◌||◌, Option, none, some, List, [], ◌∷◌, map, suc,
}
use xiaowei_agent.Store.Attempt.{intact_submission}
use xiaowei_agent.Store.State.{StoreState}

abbrev ordering_lt : Ordering → Bool
ordering_lt Ordering.lt = true
ordering_lt _ = false

-- `<` on pairs of a number and a text
abbrev pub key_lt : ℕ × String → ℕ × String → Bool
key_lt (n, s) (m, t) = ltb n m || (n == m && ordering_lt (compare s t))

-- in the scope of the lookup, or not found
unfoldable pub get : String → String → String → StoreState → Result TaskRecord
get task_id tenant_id environment_id s = elim (lookup task_id s.tasks) [
  | none ↦ err (task_not_found task_id)
  | some r ↦
      if not (r.tenant_id == tenant_id) || not (r.environment_id == environment_id)
      then err (task_not_found task_id)
      else ok r
]

unfoldable pub stored_read : Platform → StoreState → TaskRecord → Result StoredTaskRead
stored_read p s r = elim (intact_submission p r s) [
  | none ↦ err (task_not_found r.task_id)
  | some m ↦ ok (record { record_ = r; submission = m })
]

abbrev submission_of : Result StoredTaskRead → Result TaskSubmission
submission_of (err e) = err e
submission_of (ok x) = ok x.submission

abbrev read_of : Platform → StoreState → Result TaskRecord → Result TaskSubmission
read_of p s (err e) = err e
read_of p s (ok r) = submission_of (stored_read p s r)

unfoldable pub get_submission :
    Platform → String → String → String → StoreState → Result TaskSubmission
get_submission p task_id tenant_id environment_id s =
    read_of p s (get task_id tenant_id environment_id s)

-- `tuple(self._stored_read(record) for record in records)`
abbrev pub add_read :
    Result StoredTaskRead → Result (List StoredTaskRead) → Result (List StoredTaskRead)
add_read (err e) rest = err e
add_read (ok x) (err e) = err e
add_read (ok x) (ok xs) = ok (x ∷ xs)

unfoldable pub stored_reads : Platform → StoreState → List TaskRecord → Result (List StoredTaskRead)
stored_reads p s [] = ok []
stored_reads p s (r ∷ rs) = add_read (stored_read p s r) (stored_reads p s rs)

-- the order of `reverse=True`: the larger key first
abbrev pub is_newer : TaskRecord → TaskRecord → Bool
is_newer a b = key_lt (b.created_seq, b.task_id) (a.created_seq, a.task_id)

abbrev is_before : Option ℕ → ℕ → Bool
is_before none n = true
is_before (some b) n = ltb n b

abbrev is_actor : Option String → String → Bool
is_actor none a = true
is_actor (some b) a = a == b

abbrev pub is_in_page : TaskPageQuery → TaskRecord → Bool
is_in_page query r =
    r.tenant_id == query.tenant_id
    && r.environment_id == query.environment_id
    && is_actor query.actor r.actor
    && is_before query.before_created_seq r.created_seq

abbrev pub page_candidates : TaskPageQuery → StoreState → List TaskRecord
page_candidates query s = sorted is_newer (keep_if (is_in_page query) (values s.tasks))

abbrev pub last_seq : List StoredTaskRead → Option ℕ
last_seq [] = none
last_seq (x ∷ []) = some x.record_.created_seq
last_seq (x ∷ y ∷ ys) = last_seq (y ∷ ys)

abbrev pub page_of : Bool → Result (List StoredTaskRead) → Result StoredTaskPage
page_of has_more (err e) = err e
page_of has_more (ok items) =
    ok (record { items = items; next_created_seq = if has_more then last_seq items else none })

-- `_page`, for `list_tasks_for_actor` and `list_tasks_for_scope`; the contract of a query has
-- `limit > 0`
unfoldable pub page : Platform → TaskPageQuery → StoreState → Result StoredTaskPage
page p query s =
    let selected = take (suc query.limit) (page_candidates query s) in
    page_of (ltb query.limit (length selected)) (stored_reads p s (take query.limit selected))

abbrev pub is_dispatched_before : TaskRecord → TaskRecord → Bool
is_dispatched_before a b = key_lt (a.created_seq, a.task_id) (b.created_seq, b.task_id)

-- with `dispatch_sort_key`
unfoldable pub list_dispatchable_tasks : DispatchQuery → ℕ → StoreState → List TaskRecord
list_dispatchable_tasks query now s =
    take query.limit
      (sorted is_dispatched_before (keep_if (λ r. is_dispatchable r query now) (values s.tasks)))

abbrev pub or_zero : Option ℕ → ℕ
or_zero none = 0
or_zero (some t) = t

-- with `stale_lease_sort_key`, on records that have an expiry
abbrev pub expires_before : TaskRecord → TaskRecord → Bool
expires_before a b =
    key_lt (or_zero a.lease_expires_at, a.task_id) (or_zero b.lease_expires_at, b.task_id)

abbrev pub all_leased : List TaskRecord → Bool
all_leased [] = true
all_leased (r ∷ rs) = is_set r.lease_expires_at && all_leased rs

-- `stale_lease_sort_key` raises on a record without an expiry
unfoldable pub list_stale_leases : ℕ → ℕ → StoreState → Result (List TaskRecord)
list_stale_leases limit now s =
    let stale = keep_if (λ r. is_stale_lease r now) (values s.tasks) in
    if all_leased stale
    then ok (take limit (sorted expires_before stale))
    else err stale_lease_sort_key_requires_lease

abbrev is_earlier_step : StepExecutionRecord → StepExecutionRecord → Bool
is_earlier_step a b = ordering_lt (compare a.step_id b.step_id)

unfoldable pub load_step_executions : String → StoreState → List StepExecutionRecord
load_step_executions task_id s =
    sorted is_earlier_step (map (λ e. e.1) (keep_if (λ e. e.0.0 == task_id) s.step_executions))
