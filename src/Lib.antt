-- ===== src/Lib.antt =====
-- pi-build-conductor: task plans and their runs, the workflow engine with its scheduler, and the
-- authority that bounds what they execute.
--
-- The engine runs a plan, a graph of steps, under a frozen authority. The domain (src/domain) says
-- what a plan is, reads plans from JSON and keeps the run of one: its revisions, its approval
-- and which of its tasks may start. The security layer (src/security) derives the capabilities of
-- each step, freezes the authority of a run and refuses a plan outside its envelope. The engine
-- (src/engine) decides in transactions on one state of the run which steps start, what their
-- outcomes mean, what is integrated, and how the run ends or recovers after its process
-- disappeared.
--
-- - Prelude: Boolean tests, lists over native numbers, dictionaries, results. `Dict` is a
--   `Record<string, V>` or a `Map`: entries in insertion order. `Result` is code that throws.
-- - Domain/Types, Domain/Steps: src/domain/types.ts and steps.ts. Domain/Artifacts: artifacts.ts.
-- - Domain/Graph, Domain/Reading, Domain/TaskPlan: dag.ts, with `topologicalIds` (Graph/Topological),
--   `findCycle` (Graph/Cycle), the readers of texts, paths and commands (Reading), and
--   `validateTaskPlanResult` and `analyzeTaskPlan` (TaskPlan). Domain/Json and Domain/Text are the
--   values and the methods of strings that they use.
-- - Domain/StepPlan: the reading of plans of steps, `validateWorkflowPlanResult` of steps.ts.
--   Domain/Translation: src/domain/plan-translation.ts, which reads both schemas.
-- - Domain/Run: the records of a run in types.ts. Domain/Run/Scheduling: src/domain/scheduler.ts.
--   Domain/Run/Authority, Domain/Run/Lifecycle, Domain/Run/Recovery: run.ts, whose operations are a
--   step relation in Domain/Run/Editing/Traces.
-- - Security/Policy, Security/Freezing: policy.ts, and `freezeRunAuthority`, `reviseRunAuthority` and
--   `assertAuthorityTransition` of authority.ts.
-- - Security/Capabilities, Security/Envelope, Security/Authority: capabilities.ts, envelope.ts
--   (with src/domain/paths.ts) and authority.ts of src/security. Security/Envelope/Documents reads
--   an envelope and Security/Envelope/Derived is the one that a plan implies.
-- - Engine/State, Engine/Events: workflow-state.ts and events.ts, the state of a run and its
--   timeline. Engine/Workspaces, Engine/Scheduler, Engine/Retry, Engine/Routing: workspaces.ts,
--   scheduler.ts, retry.ts (with the outcomes of handlers.ts) and artifact-routing.ts.
-- - Engine/Launch, Engine/Settle, Engine/Integrate, Engine/Lifecycle: the methods of
--   `WorkflowEngine` in engine.ts, a function from state to state for each transaction:
--   `launchStep` and `failStep`, `settleStep`, `integratePendingSteps`, `cancel` and `settleRun`.
--   Engine/Recovery: recovery.ts. Engine/Admission: admission.ts. Engine/Transitions: the
--   transactions of engine.ts and recovery.ts as one step relation, `Transaction`, and, in
--   Growth, these together with admissions.
-- - Review/Policy: src/review/review-policy.ts.
-- - Examples: a small run, for tests and examples.
--
-- Conventions. A function keeps the name of the source's in snake_case. Numbers are native and
-- never negative in the code that is modelled. A field with one possible value, such as a schema
-- version, is left out. One transaction reads the clock once. The texts of reasons are constructors
-- of `FailureReason`. Async code is the sequence of its transactions; what lies between them (the
-- handlers, Git, the artifact store, the integrator) is a parameter or an arbitrary argument.
--
-- Fuel. The loop of `topologicalIds` has 2 * n rounds for n nodes, since each round takes an id out
-- of the queue and an id enters it at the start or when its count falls to 0. The depth of
-- `findCycle` is at most n + 2, since each level below the first puts another id on the stack.
--
-- Readers. A reader that reports issues and goes on is a `Reading`: its value and its issues in
-- order. An issue keeps its code, path and ids; its message repeats them and is left out. Only the
-- Unicode spaces and the path rules that the code relies on are written out: `trim`, and
-- `normalize` as it is on POSIX.
--
-- Parameters. The freezing of an authority takes `authorityEnvelopeDigest`, a hash by `node:crypto`;
-- its theorems hold whatever that returns. Review/Policy
-- takes `localeCompare`.
--
-- Not modelled: reading stored runs from JSON; the loop of `WorkflowEngine.run`;
-- observers and abort signals; and Git, worktrees, workers, commands, storage and presentation, with
-- src/orchestrator.ts, which sequences them.
pub mod Prelude
pub mod Domain
pub mod Security
pub mod Engine
pub mod Review
pub mod Examples
