-- ===== src/Lib.antt =====
-- PayOps: the decisions that stand between a diagnosis of a payment incident and an effect on the
-- cluster, and the budget that bounds the diagnosis.
--
-- Parts, and the files that model them:
--   src/payops/contracts/__init__.py          Contracts, Contracts/Citations
--   src/payops/policy/contracts.py            Policy/Records
--   src/payops/policy/engine.py               Policy, Policy/Authority and its children
--   src/payops/remediation/contracts.py       Remediation/Records, Remediation/Records/Consistency
--   src/payops/remediation/store.py           Remediation/Store and its children
--                                             (Remediation/Store/Book: the store as a client sees it)
--   src/payops/remediation/broker.py          Remediation/Broker and its children
--   src/payops/remediation/traffic_control.py Remediation/Traffic, Remediation/Traffic/Pausing
--   src/payops/orchestrator/baseline.py       Orchestrator/Baseline/Signals, Predicates, Ranking and
--                                             Corroboration, over the JSON values of Base/Json
--   src/payops/orchestrator/reasoning.py      Orchestrator/Reasoning, Orchestrator/Reasoning/Decisions,
--                                             Orchestrator/Usage
--   src/payops/orchestrator/budget.py         Orchestrator/Budget, Orchestrator/Budget/Limits,
--                                             Orchestrator/Budget/Ledger and its children
--   src/payops/evidence/context.py            Evidence/Context and its children
--   src/payops/sandbox/runtime.py, models.py  Sandbox/Samples, Sandbox/Samples/Reservations,
--                                             Sandbox/Origins
--   src/payops/evaluation/metrics.py          Evaluation/Metrics, Evaluation/Metrics/Bounds
--   src/payops/memory/store.py                Memory/Incidents and its children
--   src/payops/evidence/verification.py       Evidence/Verification
--   src/payops/orchestrator/state.py          Orchestrator/Investigation/States
--   src/payops/orchestrator/nodes.py          Orchestrator/Investigation/Nodes, Orchestrator/Investigation/Steps
--   src/payops/orchestrator/graph.py          Orchestrator/Investigation/Walk, Orchestrator/Investigation/Worker;
--                                             the other files of Orchestrator/Investigation prove
--   src/payops/remediation/deployment.py      Remediation/Deployment, Remediation/Deployment/Readiness,
--                                             Remediation/Deployment/Edits, Remediation/Deployment/Plans
--   src/payops/remediation/local_executor.py  Remediation/Deployment/Executor and its children
--   src/payops/evidence/artifacts.py          Evidence/Artifacts, Evidence/Artifacts/Retention
--
-- How they interact: a model's text becomes a `ReasoningDecision` (parse_decision), whose work is
-- reserved in the `BudgetLedger` before it is dispatched; the report that comes of it is an
-- `IncidentReport` with its citation rules. A proposed action is judged by `evaluate` on that report
-- and on fresh identity and resource state. The `RemediationBroker` takes an authorized action through
-- `ActionStore`, whose rows move by compare-and-set, and calls `TrustedBackend.execute`; for an action
-- on a deployment that is `LocalDeploymentExecutor.execute`, which plans one patch and waits for its
-- rollout. The incident itself is a row of `IncidentStore`; an `InvestigationWorker` walks it through the
-- nodes of the graph, which collect evidence into the `ArtifactStore`, rank it with `rank_evidence` or a
-- reasoner, and write the report.
--
-- How the code is read:
--   * Times are counts of microseconds from the first instant of year 1 (Base/Clock). Strings are
--     native. Scores are bit patterns of non-negative binary64 numbers, which are only carried.
--   * A pydantic model is a record. Its validators are functions to `Result` in the order of the
--     source; constraints on the text of one field, and on the range of a number where the model
--     does not say otherwise, are pydantic's.
--   * An exception is an `err` of `Result` (Base/Result); a method that changes state is an `Exec`
--     (Base/Action), whose state outlives an exception.
--   * A SQL table is a list of rows (Base/Table). A method's transaction is one step. Workers that
--     interleave are a `Run`, a sequence of method calls with any arguments.
--   * What is outside the repository is a parameter: JSON, SHA-256 and pydantic's reading of fields
--     (Policy/External, Codec of Base/Table, Decoder of Orchestrator/Reasoning), the clock, the
--     identity service and the backend (Remediation/Host), each with the documented behaviour that
--     proofs use (the command, the clock and the wait of Remediation/Deployment/Executor, the
--     collector and the checks of artifacts of Orchestrator/Investigation/Nodes): a reader reads
--     back what its writer wrote, and while the broker waits the tables are changed by calls of the
--     store only.
--   * The graph of nodes runs on LangGraph's recursion limit, 16 steps, of which a walk takes 5 at
--     most (Orchestrator/Investigation/Termination). The executor's wait for a rollout runs on a
--     number of rounds, one more than the seconds of the postcheck, which is enough
--     (Remediation/Deployment/Executor/Deadline). No other function needs fuel: every loop of these
--     files runs along a list or counts a number down.
--
-- Not modelled: the lock file of an investigation, so a call of a worker is one that holds it; the
-- turns of the reasoning loop, payment windows and trace spans, which enter the investigation as its
-- reasoner and its checks of artifacts; the HTTP and GraphQL layers, the adapters of model providers
-- and of cluster tools, scenario harnesses, the rest of evaluation, telemetry and notifications.
pub mod Base
pub mod Contracts
pub mod Policy
pub mod Remediation
pub mod Orchestrator
pub mod Evidence
pub mod Sandbox
pub mod Evaluation
pub mod Memory
