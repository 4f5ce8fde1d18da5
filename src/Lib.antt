-- ===== src/Lib.antt =====
-- A Kubernetes controller for workflows: a workflow is a set of named steps with dependencies, and each
-- step is run as a job. This library models the controller's logic.
--
-- The parts, and how they work together:
--
-- - Api (pkg/api/types.go, pkg/api/constants.go): the resource types in Api.Types, over the Kubernetes
--   types with the fields the code names in Api.Meta, and the methods of a workflow in Api.Methods.
-- - Validation (pkg/validation/validation.go): Validation.Sort is `topologicalSort`, with the variables
--   that its closure captures as the record `SortState`; Validation.Workflow validates a workflow and
--   Validation.Update an update of one; Validation.Field has paths, errors and the record `Rules` of the
--   validators that are called.
-- - Expectations (pkg/workflow/utils.go): the store that keeps a step's job from being created twice;
--   Expectations.Refinement sets it against what its operations say of one step.
-- - Job (pkg/job/control.go): the labels of a step's job, `CreateJob`, and Job.Fake, the fake control.
-- - Cache (pkg/client/cache/listers.go): the lookups in the stores of the informers.
-- - Transitioner (pkg/workflow/transitioner.go): Transitioner.Status is `updateWorkflowStatus`,
--   Transitioner.Steps is `processSteps` and what it calls, and Transitioner.Process is `process` and
--   `transitionWorkflow`; Transitioner.State has the constants and the sharing of maps.
--   Transitioner.Steps.Found has what the job store listed for a step, by which a job is justified.
--   Transitioner.Steps.Completion repeats `processSteps` until the workflow is finished.
-- - Manager (pkg/workflow/manager.go): the handlers of the informers' events and a worker's round.
--   Manager.System is the manager at work: the events that happen to it, one after the other, over the
--   controller's state and the keys that were added to the queue; Manager.System.Count counts the jobs
--   that such a sequence creates for a step, and Manager.System.Worker is the worker's loop.
--   Manager.System.Turns alternates a worker's round with the report of what it sent; Labelled, Finish,
--   Submitted and Created beside it follow a labelled, a defaulted and a new workflow through such turns.
--   Manager.Race looks between the calls: the worker that processes one step and the informer that
--   reports the step's jobs make one move at a time, in any order; Manager.Race.Bound and
--   Manager.Race.Twice follow such moves, and Manager.Race.Runs has what the code does in one go.
-- - Client (pkg/client/workflows.go): the polls of `Watch`, which turn lists of workflows into events.
--   An event holds the address of the variable of a range loop, so that a poll is a list of writes to
--   its two variables and of events; Client.Memory has what a reader sees behind the addresses, and
--   Client.Aliased what is behind them once a poll is through. Client.Requests is `Update`, `List` and
--   `Get`; Client.ThirdParty (pkg/client/thirdparty.go) makes the client from a configuration.
--   Client.Replay and Client.Follow have a reader that looks at each event as it is sent.
--   Client.Watcher (pkg/watch/thirdparty.go, and the goroutine of `Watch`) has the watcher and its
--   channel, and the moves of the goroutine, of the reader and of whoever stops the watcher.
-- - Registration (main.go): `registerThirdPartyResource`; Startup (main.go): `main`.
-- - Dax (dax-to-json/main.go, dax-to-json/utils.go, dax-to-json/types.go): the conversion of a graph to
--   a workflow, and the command around it.
-- - World: the state that the code changes (the informer's store of workflows, the expectations, and
--   what was created, sent and recorded), actions that may panic and keep their changes, the rules of
--   postconditions, and the record `Cluster` of what lies outside.
-- - GoMap: Go's maps, nil or made; a write to a nil map panics. Base: shared helpers.
--
-- Events of workflows and jobs come to the handlers of Manager, which add the keys of workflows to
-- a queue; a worker takes a key from it and runs a transition. A transition reads the store, asks
-- the outside, validates through Validation, looks jobs up through Cache, creates them through Job
-- under the guard of Expectations, and sends the workflow. A property of whole transitions is asked of
-- their smallest parts only, the record `Parts` in Transitioner.Steps.Rule; Transitioner.Process.Rule
-- carries it on, and Manager.System uses it. Questions to the outside are numbered, and an answer
-- depends on its number, so that nothing is assumed of two questions that follow one another. The
-- updates and the versions of the outside are parameters; `over_client` in Client.Requests takes them
-- from the modelled client.
--
-- Conventions. A map is an association list in the order in which a range loop meets its keys; the
-- theorems hold for every such order. Times are numbers of nanoseconds, and a difference of times stops
-- at 0, where the code's is negative, which is not above the timeout either. A pointer is an `Option`.
-- The sort recurses on fuel, one more than the number of steps; the depth of the recursion is bounded by
-- the number of steps on the stack. The retries of an update and the tries to create the resource
-- recurse on the number that is left of the three and of the five allowed. The wait for the server in
-- Registration has no bound in the code; its fuel bounds the requests, and any number above that of the
-- requests that do not reach the server is enough. The loop of a worker does not end in the code, so
-- that a part of it is looked at.
--
-- Parameters. `Rules` and `Cluster` hold what is not the repository's own code: the validators of
-- Kubernetes, deep equality, `sort.Strings` (assumed to keep the elements of a list, where a theorem
-- needs it), references, encodings and conversions of objects, selectors, the informers' stores, the
-- clock and the API server. `KeyFunc` makes keys of names and namespaces (`KeysByName`, where a theorem
-- needs it), and the selector of a set of labels selects what has all of them (`SelectsWithin`, where a
-- theorem needs it). `Http`, `RestLibrary`, `Libraries`, `Files` and `Tools` hold the same for the
-- client, for `main` and for the converter: HTTP, JSON, XML, `path.Join` and the constructors of
-- clients.
--
-- Not modelled: logging, the text of errors but for the step names in them, and vendored code. The
-- queue and the informers are the libraries': a handler is modelled by the keys that it adds, and a
-- worker may be given any key at any time. In the sequences of Manager.System a transition is one event;
-- in the code an informer's event may come in the middle of it, which Manager.Race has for one step of a
-- workflow, and not for whole transitions. The stores that are read in a transition may change between
-- two questions. Flags are not parsed, and the ticker of the client is the sequence of its ticks.
pub mod Base
pub mod GoMap
pub mod Api
pub mod Validation
pub mod Expectations
pub mod World
pub mod Job
pub mod Cache
pub mod Transitioner
pub mod Manager
pub mod Client
pub mod Registration
pub mod Startup
pub mod Dax
mod Samples
mod Tests
