-- ===== src/Lib.antt =====
-- ANA runs agents in workspaces. The workspace controller installs a workspace, the probe scheduler
-- probes it periodically, and both write its status to one repository of workspaces. The manager keeps
-- plugins, in a repository of rows and a store of packages; the orchestrator keeps a registry of agents.
--
-- Base.antt and Base/: lists, maps as association lists, texts as lists of byte codes, results of
-- fallible calls, and sorting. The Go library's sort is an insertion sort here: the sorted rows have
-- pairwise different keys, so that any sort gives the same rows.
--
-- Workspace.antt: the types of pkg/manager/workspace/types.go.
-- Workspace/Value.antt, Workspace/Clone.antt: the copies (cloneWorkspace and below it) of
-- pkg/manager/workspace/clone.go and pkg/storage/memory/workspace_repo.go. A nil map or slice differs
-- from an empty one.
-- Workspace/Failure.antt: how pkg/manager/workspace/controller.go turns an error into a persisted one
-- (failureCode, failureFromError, failureFromProbeResult, failureForShutdown, classifyFailure).
--
-- Storage/WorkspaceRepo.antt: pkg/storage/memory/workspace_repo.go. The state is the map by id, the map
-- by namespace and alias, and the closed flag; each method is a function to an error or a new state.
-- Its children: Invariant (how the two maps agree), Effects (what a success writes), Calls (histories of
-- calls), Statuses (the life of a status), Reads (Get and GetByAlias), Listing (List, with the order,
-- the rows, the pages and the cursors below it). Storage/Cursor.antt and Storage/Base64.antt: the
-- cursors. Every method holds the mutex throughout, so that the calls of several goroutines are a list
-- of calls in the order in which they got it.
--
-- Scheduler.antt: probeOne and recordProbeOutcome of pkg/manager/workspace/scheduler.go. What a probe
-- sees of the outside is a record, with the calls that others make of the repository while it runs.
-- Scheduler/Tick.antt: runTick, with its watchdog over installations that take too long. Its children: Rows
-- (which rows are probed), Counts (the counters) and Watchdog.
-- Scheduler/ListAll.antt: listAll; its loop runs on fuel, and fuel above the number of rows is shown to
-- be enough. Scheduler/Lifecycle.antt: NewProbeScheduler, Start and Stop.
--
-- Controller.antt: the install queue of pkg/manager/workspace/controller.go: Start, Submit, the workers
-- and their dequeue, the cancellation and the completion of installs, Stop. Each critical section is one
-- step; Controller/Turns.antt has the histories of such steps, Tracking and Jobs the agreement of the jobs
-- that run with installRunning and installCancel, Workers the end of the workers, Deletion and Idle what
-- Delete may rely on.
--
-- Controller/Install.antt and Controller/Plugins.antt: runInstall with its retried writes of the
-- repository, and attachPlugins. Their children: Settles and Outcome (the status that an install leaves).
-- Controller/Delete.antt: the controller's Delete, after it has
-- taken the queued jobs away. Controller/Examples.antt and Controller/Installs.antt, like the
-- other Examples, apply the theorems to small states.
--
-- Registry.antt: pkg/orchestrator/registry/registry.go, the agents by their id and alias with at most one
-- default. Texts are code points here, for strings that are valid UTF-8; a factory is an opaque number.
-- Registry/Config.antt: the search for cycles in a runtime configuration and its deep copy, on a heap of Go
-- values (the keys of maps and unexported fields are shared by the copy). Both run on fuel; the depth of a finite configuration, and the number of its keys, are shown to be
-- enough. Their children and Agreement, Additions, Updates and Calls prove the theorems.
--
-- Protocol.antt: pkg/orchestrator/protocol/protocol.go, the directive at the head of a message. Its regular
-- expression is a scanner here. Protocol/Formatting.antt: what Format writes and ParseDirective reads.
--
-- Plugin.antt, Plugin/Clone.antt: pkg/manager/plugin/types.go and clone.go. Plugin/Metadata.antt: the bounds of
-- the metadata in pkg/manager/plugin/manifest.go, with the budget of nodes passed on; Bounds and Depth compare
-- what it accepts with what the copies keep.
--
-- Storage/PluginRepo.antt: pkg/storage/memory/plugin_repo.go. Its children: Listing (List), Invariant, Contract
-- (what the repository promises, as a step relation on the rows by their id) and Steps (each method is such a
-- step). Storage/PluginStorage.antt: pkg/storage/memory/plugin_storage.go, with SHA-256 as a parameter.
--
-- Manager.antt: the plugins of pkg/manager/manager.go. CreatePlugin is composed as the code composes it, of
-- the check of the request, the package store and the repository, with its rollback; opening a package is a
-- parameter. Manager/Validation.antt: the checks of pkg/manager/types.go. Manager/Packages.antt: what
-- CreatePlugin leaves, on all its branches. Manager/Keeping.antt and Rollback.antt: calls of the manager one
-- after the other. Manager/Undoing.antt and Rollback.antt: a CreatePlugin that fails, with the calls that others
-- make of the plugin repository between its write of the package and its write of the row (`meanwhile`); calls
-- of others that write packages in there are only in a test of Manager/Examples.antt.
--
-- Manager/Workspaces.antt: CreateWorkspace of pkg/manager/manager.go, composed of the check of the request,
-- ensureWorkspaceInfraUniqueness (whose loop over the pages runs on fuel; more than the number of workspaces on
-- local directories is enough), resolveAttachedPlugins, the insertion of the row, Submit, and the deletion of the
-- row if that fails. It runs under its own mutex; nobody else writes to the repository meanwhile. filepath.Clean
-- is a parameter. Manager/Workspaces/Dirs.antt: which directories are taken; Branches.antt and Creation.antt: all
-- branches of the call.
--
-- Instants and durations are nanoseconds in ℕ, with 0 for Go's zero time; limits and durations that are
-- not positive are 0, as the code treats these alike. Messages of errors are left out or stand for what
-- they quote. Two readings of the clock directly one after the other are one.
--
-- Not modelled: CountInflight, the ticker loop and the goroutines of the scheduler, logging, the contexts
-- that the repositories ignore, the reading and deletion of workspaces and the start of pkg/manager/manager.go,
-- the zip archives of pkg/manager/plugin, the wrapped factories of the registry, and the components of
-- pkg/orchestrator, pkg/bridge, pkg/agentio and of pkg/manager that no file above names.
pub mod Base
pub mod Workspace
pub mod Storage
pub mod Scheduler
pub mod Controller
pub mod Registry
pub mod Plugin
pub mod Manager
pub mod Protocol
