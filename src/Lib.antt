-- ===== src/Lib.antt =====
-- The task store of xiaowei-agent (tasks, leases, attempts, the step journal), its projections to chat
-- channels, its web sessions, the scan of SQL texts, and the admission of plan steps.
--
-- The program runs operational tasks for many users with several workers. All that the workers share
-- is the task store (persistence/store.py states its contract). Its in-memory implementation is
-- src/xiaowei_agent/persistence/fake.py, over the state of persistence/memory.py; the rules that it
-- shares with the PostgreSQL implementation are the pure functions of persistence/decisions.py.
--
-- Which file models which part:
--   Contracts      contracts/ and the data of persistence/store.py: enumerations, the transition table,
--                  records, commands, results and errors, under the source's names
--   Decisions      persistence/decisions.py: Lease, Fencing, Attempt, Sql, and where the decisions
--                  agree with one another (Agreement)
--   Digests        the digests of persistence/store.py
--   Store          InMemoryTaskStore of persistence/fake.py: State, Submit (create_task,
--                  create_clarification_child, submit_sql_query), Artifacts (load_sql_for_execution),
--                  Lease (transition, acquire_lease, renew_lease, the ledgers), Attempt
--                  (begin_task_attempt, schedule_retry), Steps (the step journal), Read (the operations
--                  that only read), Calls (a call as data, and histories)
--   Lifecycle      the abstract contract, the proof that every call refines it (Refinement, Attempts,
--                  Creation, Steps), the invariant (Invariant), the evolution of a record (Evolution)
--                  and its history (History)
--   Journal        the writes that the step journal can undergo, the proof that every call makes only
--                  those, the budget of a plan and the finality of a committed step
--   Index          the same for the index of tasks by idempotency key
--   Web            the OAuth states and browser sessions: Contracts (persistence/web_session.py and
--                  local_admin.py), OAuth and Sessions (InMemoryWebSessionStore and the change of the
--                  administrator's password, persistence/fake.py), Calls (a request as data, and
--                  sequences), Outcomes (the ways an operation can go), Invariant and Served, SingleUse,
--                  Revocation and Ends, RoundTrip and Domains
--   Governance     governance/sql_tokens.py: Characters and Utf8, Scanner (_Scanner), SqlTokens (scan_sql and
--                  TokenScan), the lexical grammar of its header (Lexemes) and the proof that the scanner
--                  follows it (Subscans, Quotes, Branches, Tiling, Runs, Slices), what it makes of a text of it
--                  (Complete, Parses, Found), Accepted and Bounds
--   Admission      governance/step_admission.py (Query, Steps) and what it calls: capabilities/effect.py
--                  (Effects), governance/policy.py (Policy), binding.py, approval.py and admission.py
--                  (Binding), the contracts they read (Contracts), the guards and hashes that are
--                  parameters (Guards), and what is proved of them (Conditions, Confirmed, Admitted,
--                  Quiet, Refusals)
--   Channel        the projections of persistence/channel.py: Contracts, Projection (its decisions), Store
--                  (the updates of subscriptions by InMemoryChannelStore, persistence/fake.py), Advance,
--                  History and Fencing; Binding and Bind (the operations of InMemoryChannelStore on bindings,
--                  and the creation of a subscription), Bound and Rebinding
--   Guarantees     what a caller can rely on, whatever other calls come between
--   Tests          runs at concrete inputs
--   Prelude, Dict  shared names, Python's equality and dictionaries
--
-- An operation is a function from its arguments and the state to its result and the next state; an
-- exception is a result, with the state that it leaves. The store holds one lock from the first
-- read to the last write of an operation, so every interleaving of workers is a sequence of calls.
-- Each read of the clock, each uuid4() and each new_sql_ref() is an argument of the call, in the
-- order of the source. A datetime is a number of microseconds. Numbers are unbounded, as in Python.
-- The ids of new tasks are assumed to be fresh where a theorem needs it (IsFresh). Loops are
-- structural recursion, but for the loop of the SQL scanner, which runs on fuel: one round more
-- than there are characters, which is proved to be enough. What pydantic checks of a call's
-- arguments (positive limits and times to live, the types) holds of the arguments; a theorem that
-- needs it names it.
--
-- Parameters (Contracts/Platform): hashing with the JSON text that is hashed, datetime formatting,
-- Python's sorted on texts, and pydantic's dumps. For the scanner, unicodedata.category and the
-- decoding of UTF-8 (Governance/Utf8 says what is asked of it). For the admission of a step, the
-- hashes of planning/ and the query guards, which stand on the sqlglot parser (Admission/Guards).
-- Nothing is assumed of them but what a theorem names.
--
-- Not modelled: the validators that pydantic runs on construction are stated as Boolean functions
-- only for the task record, the result of an attempt, a projection subscription and the times of OAuth
-- states and browser sessions (whose copies raise when they fail); contents of
-- plans, evidence and audit events that no modelled code reads are carried as opaque data;
-- persistence/postgres.py, the source events and listings of channels, planning, the statement guards of governance,
-- the runner and the interfaces.
pub mod Prelude
pub mod Dict
pub mod Contracts
pub mod Decisions
pub mod Digests
pub mod Store
pub mod Lifecycle
pub mod Journal
pub mod Index
pub mod Web
pub mod Governance
pub mod Admission
pub mod Channel
pub mod Guarantees
pub mod Tests
