-- ===== src/Lib.antt =====
-- A verification library for packages/tc-sdlc, the TypeScript package that plans and runs the tasks
-- of a repository.
--
-- A declaration names projects and targets. Planning turns it into a graph of tasks with keys,
-- dependencies, inputs, outputs and resources, checks that the dependencies have no cycle, and can
-- select the tasks that a set of changed paths affects. Running takes the graph and a selection,
-- starts each task once its dependencies have succeeded and its resources are free, and writes a
-- receipt.
--
-- Files, and the code they model (all of it under packages/tc-sdlc/src):
--   Base             helpers: decidable equality, lists, sets and maps in the order of insertion,
--                    strings of UTF-16 code units, and the result type `ok`, `throws` (an SdlcError of
--                    errors.ts), `exhausted` (the model's fuel)
--   Canonical        canonical.ts: canonicalJson and digest; Laws says which values it does not tell apart
--   Schema           schema/types.ts and the contract type of executors/index.ts
--   Graph/Paths      graph/path.ts: normalisePath is normalise_path, assertRelativePath is
--                    assert_relative_path
--   Graph/Selector   graph/selector.ts: selectorPattern is selector_pattern, with a matcher `test` for
--                    the regular expressions that it builds; taskConsumesPath is task_consumes_path
--   Graph/Validation graph/index.ts: validateGraphDeclaration, assertUniqueIdentities and
--                    assertUnambiguousPaths
--   Graph/Acyclic    graph/index.ts: assertAcyclic is assert_acyclic and its nested visit is visit
--   Graph/Affected   graph/index.ts: selectAffected is select_affected, selectTask is select_task, its
--                    loop over the pending paths is drain; Meaning is a relation that says what is
--                    affected, Spec the same by the steps of the search; Closure, Drain, Totality and Queue hold lemmas for Correct
--   Graph/Executors  executors/index.ts: resolveExecutorContract
--   Graph/Identity   graph/identity.ts: canonicalInputDigests and taskIdentity; Unordered and Reordered
--                    are about the order of their lists
--   Graph/Presets    preset/index.ts: buildPresetTasks is build_preset_tasks, the body of its loop is
--                    build_task; Shape and Planned say what its tasks are
--   Graph/Construction
--                    graph/index.ts: buildGraph; Runnable composes it with runGraph
--   Graph/Declaration
--                    schema/declaration.ts: normalisePaths and validateDeclaration
--   Cache            cache/index.ts: publishVerifiedOutputs is publish_verified_outputs; Kept is about
--                    the directories that it makes, Rollback and Restored about its failures, Placed
--                    about its success
--   Runtime          evidence/index.ts: events and receipts
--   Runtime/Receipts runtime/index.ts: skippedReceipt, failedAdmissionReceipt and
--                    cancelledBeforeStartReceipt
--   Runtime/Output   runtime/index.ts: utf8Prefix, redacted, safeBoundary and captureOutput (capture_output);
--                    Stream is a whole stream of output, Bounds its limits
--   Runtime/Evidence runtime/index.ts: capturedTaskEvidence is captured_task_evidence; Visited is about
--                    its walk of the directory, Partition about what becomes of each declared path
--   Runtime/Execution
--                    runtime/index.ts: executeTask. The callbacks of the promise are deliver and close,
--                    Start has what runs before them and execute_task; Events and Outcome hold the
--                    invariants of the events and of the receipt
--   Runtime/Scheduler
--                    runtime/index.ts: canAllocate, impossible and allocate (acquire and release), and
--                    the while loop of runGraph (run_loop), whose for loop is scan
--   Runtime/Runs     runtime/index.ts: the rest of runGraph: the selection (select_tasks), the catch
--                    clause (caught), the finally clause and the receipt (conclude)
--   Tests            sample graphs and runs at concrete inputs
--
-- State. A Set is a list without repetitions, a Map a list of pairs; both keep the order of insertion.
-- The local variables of runGraph that change in the loop are the record Run; the two sets of the
-- cycle check are Marks; the sets and the queue of selectAffected are Selection.
--
-- World of a publication. A Platform gives the functions of node:path, the nonce, the directories above a
-- path, whether a link leads to something, and which operations of the file system fail; the operations
-- of the rollback do not. A Store says what stands at each path, by its name: a link among the parents
-- of a path is left out, and so is the move of a directory with its entries.
--
-- World of one execution. An Attempt says what the operating system answers to executeTask: whether the
-- scratch directory can be made, what the fitness preparation and the environment give, what the
-- evidence directory holds, and how the process ends. Its Signals are the callbacks (heartbeat, phase
-- budget, abort, data, error) in the order of the event loop.
--
-- The world. What the event loop and the operating system decide is an argument: a Round says for one
-- turn of the loop whether the abort signal is set when a task is reached, which running task settles
-- first (any choice has a number), and whether its promise is fulfilled with a receipt or rejected. A
-- World adds the checks of the execution context, the state's integrity and the removal of the scratch
-- directory. The case tables of the runtime (toLowerCase, the "i" flag) are CaseRules, or a function to
-- lower case for the validation; the digest of the execution context and posix.normalize are in
-- RunContext.
--
-- Fuel. The loop of runGraph takes one unit for each turn; 2n + 1 units are enough for n tasks, because
-- a turn with something running completes a task and a turn without either settles a task or ends the
-- loop. The cycle check takes one unit for each level of the search; n + 1 are enough, because every
-- level marks a task. selectAffected has one unit for each pending path, of which there are at most as
-- many as changed paths and outputs, and n + 1 levels for selectTask.
--
-- Numbers. Processor shares are doubles, whose arithmetic is the parameter Doubles: a double is a number
-- that stands for it, a multiple of one power of two as a count of that power up to a limit. With that
-- power as the unit, IEEE 754 computes exactly up to 2^53 units; IsExactUpTo says so, for the theorems
-- that need it. Shares such as 0.1 and 0.3 need a unit so
-- small that their sum is above that. The declaration's schema makes
-- the memory, ports and budgets integers. The exit code of a process may be negative.
--
-- Not modelled: the environment of a task's process, the listing and termination of process groups and
-- the choice of the secrets; the writing of receipts, the scratch directory and the event callbacks; the
-- schema checks of the declaration, the lock and the catalogue; the rest of the cache; the inputs,
-- bootstrap, maintenance, qualification, image and command-line parts of the package. They start processes, use the file system or cryptography, or
-- check data that is a parameter here.
pub mod Base
pub mod Cache
pub mod Canonical
pub mod Schema
pub mod Graph
pub mod Runtime
pub mod Tests
