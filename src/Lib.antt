-- ===== src/Lib.antt =====
-- The optimization framework: what its backend may do to a database, and under which conditions.
--
-- A run of the optimizer generates index candidates for the query shapes of a workload, evaluates them
-- on a copy of the database, admits those that are measurably better and regress nothing, asks a human
-- for an approval where one is required, changes the production target, and takes the change back when
-- it must. Every change is an entry of a hash-chained ledger with its inverse. The parts, by the file
-- that models each, with the code's path from the root of the repository:
--
--   Lifecycle      backend/app/state_machine/optimization.py: the states of a run and its history
--   Approvals      backend/app/approvals/flow.py: requests, signatures, expiry and stale evidence
--   Ledger         backend/app/ledger/chain.py: the append-only chain
--   Actions        backend/app/actions/schemas.py: typed actions, their checks and their inverses
--   Autonomy       backend/app/autonomy/policy.py and readiness.py: what may run without an approval
--   Candidates     backend/app/candidates/index_generator.py: the index of a query shape
--   Admission      backend/app/admission/models.py, policy.py and statistics.py: the gates of a candidate
--   Adapter        backend/app/adapters/contracts.py, and Adapter.Fake for backend/app/adapters/fake.py
--   Production     the changes of a target; Production.Executor for backend/app/production/executor.py,
--                  Production.Rollback for backend/app/rollback/owned_index.py and
--                  Production.QuerySettings for backend/app/production/query_settings.py
--   Jobs           `JobRepository` of backend/app/worker/durable.py
--   Sandbox        backend/app/evaluation/sandbox.py: the evaluation of a candidate on a copy
--   Recovery       backend/app/recovery/crash.py: crashes at checkpoints and the recovery from them
--   Recommendations  backend/app/recommendations: configuration, query rewrites and index cleanup
--   WorkloadShift  backend/app/monitoring/workload_shift.py: the distance of workloads and its episodes
--   Runs           `RunRepository` of backend/app/db/repositories.py, backend/app/runs/orchestrator.py,
--                  the optimization job of backend/app/worker/service.py, and the rows that ranking,
--                  evaluation and admission (durable.py of each) write for a run
--   Deployments    backend/app/production/durable.py and backend/app/recovery/durable.py: a durable
--                  deployment as steps between which the worker may stop; Deployments.Service is the
--                  deployment that the orchestrator of Runs is given, with the authority's check
--   Authority      backend/app/authority/durable.py and the fingerprints of autonomy/readiness.py: the
--                  authority of an action and what the mutation boundary checks of it
--   Monitoring     backend/app/monitoring/post_deployment.py and durable.py: the decision over the
--                  windows, the monitor, and the rows that the service around it writes
--   Prelude        what the parts share: lists, dictionaries, texts, integers, sorting, chains of options
--
-- A method of the source is a function of the state that it reads to the state that it leaves and its
-- result; a dataclass is a record and an enumeration a data type, under the source's names. An
-- exception is a constructor of the result, and the state that a raised one leaves behind stands
-- beside it, so that "nothing was written" can be said of it. Ids, times and clock readings are
-- arguments, in the order in which the code draws them. A pydantic model is a record with a function
-- `validate_*` that is the check of its construction.
--
-- Code outside the repository is a parameter: the SHA-256 digest and `json.dumps`, the database behind
-- `DatabaseAdapter`, floats and NumPy behind `Numbers`, `ShiftNumbers` and `MonitorNumbers`, and what
-- a caller of the sandbox, of a recovery or of the orchestrator brings. The laws that the callers of
-- an adapter rely on are the record `IsCoherent`, and the in-memory adapter fills it. Executor and
-- query settings hold a lock for the target through a method, and a statement of the job table is one
-- transaction, so a method is one step; what happens between two methods is any sequence of such
-- steps. There are two exceptions: the rollback of an owned index takes no lock, and what others do to
-- the target between its checks and its drop is an argument of `Production.Rollback`; and
-- `Deployments` lets the worker of a durable deployment stop after any number of its steps. Recursion
-- is on the structure of its data, with three bounds: the digits of a number (as many as the number
-- are enough), the 32 steps of a job, which are the source's own limit, and the steps that a worker
-- survives. Numbers are natural numbers without a bound, as Python's are, and the integers of index
-- directions and byte estimates have their own type.
--
-- Not modelled: the HTTP interface, persistence and the MongoDB driver, which are input and output;
-- the language-model adapter, whose output enters as typed actions; durable rollback and durable
-- approvals, of which a run reads the outcome only; the view of the evidence that diagnosis shows to
-- the model; query shapes, metrics and resource limits; benchmarks, scripts and the user interface.
pub mod Prelude
pub mod Lifecycle
pub mod Approvals
pub mod Ledger
pub mod Actions
pub mod Autonomy
pub mod Candidates
pub mod Admission
pub mod Adapter
pub mod Production
pub mod Jobs
pub mod Sandbox
pub mod Recovery
pub mod Recommendations
pub mod WorkloadShift
pub mod Monitoring
pub mod Runs
pub mod Authority
pub mod Deployments
