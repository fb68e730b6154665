-- ===== src/Lib.antt =====
-- Agent Workflow Supervisor takes an issue through routing, a worker, its review, an approval and the
-- merge. This library models the Python package src/agent_workflow_supervisor: its values and policy,
-- its lock directory, the registry, the workflow graph that ties them together, the service that runs it
-- and the relay of native workers.
--
-- Parts, and the files that model them:
--   models.py        Models          work items, sessions, reviews, changes; `active`, `ready`
--   config.py        Config          the fields that policy and graph read, and their validators
--   policy.py        Policy          select_model, capacity, select_credential_profile; its theorems
--                                    in Policy/Selection, Totality, Credentials, Capacity
--   identifiers.py   Identifiers     canonical_github_issue_id
--   locking.py       Locking/Contents, Records, Switch
--                                    the files of the lock directory, the reservations of workers,
--                                    the markers of account switches and the credential bindings;
--                                    theorems in Locking/RoundTrip, Clearing,
--                                    Markers, Damage
--   registry.py      Registry/Stored, Records, Projects
--                                    the registry's tables, accounts, model profiles, projects and
--                                    their pools; theorems in Registry/Edits, RoundTrip and Pools
--   service.py       Service/Jobs, Outcomes
--                                    JobStore: the dispatched work items, the decisions queued for
--                                    them, what their runs came to and the notices of it
--                    Service/Reconcile
--                                    reconcile_job, over a runtime of graphs
--                    Service/Notices deliver_pending_notifications
--                    Service/System  the service beside the commands that change its store;
--                                    theorems in Service/Replay, Delivery and Targets
--   ao_relay.py      Relay/Store     AoRelayStore: the watched workers
--                    Relay/Messages  reports, senders, outcomes and the message of the relay
--                    Relay/Rounds    the rounds of the relay; theorems in Relay/Targets,
--                                    with Relay/Choice, and Relay/Repeats
--   account_switch.py
--                    AccountSwitch/Helper
--                                    wait_until_idle and run_switch; theorems in
--                                    AccountSwitch/Waiting and Cleanup
--   ports.py         Graph/World     `Ports`, the locks, the log of calls, a person's answers
--   graph.py         Graph/State     SupervisorState and the status words
--                    Graph/Capacity  the nested functions that count sessions and reservations
--                    Graph/Routing   guard_existing_state, load_work_item, select_route,
--                                    check_capacity
--                    Graph/Acquire, Graph/Spawn
--                                    ensure_worker: settling a reservation, reuse, limits, spawn
--                    Graph/Watch, Graph/Review
--                                    inspect_worker with the watchdog, return_review_feedback
--                    Graph/Delivery  verify_change, approval_gate, merge_change, cleanup_worker
--                    Graph/Run       the edges, and runs along them
-- Theorems on the graph stand in Graph/MergeSafety, MergeTrace, Shadow, Locks, Reservations, Pending, Watchdog,
-- Approvals, Sanctions and Termination, on the lemmas of Graph/Effects, which say for each node what it does to the world.
-- Prelude holds Python's equality, dicts, lists and texts, Result the exceptions, and Exec the actions
-- that change the world and may raise; Exec/Relates, Exec/Yields and Exec/Costs
-- have the rules for what such an action can do, what it can return, and what that adds to a measure. Tables has the SQL of the two
-- stores, as queries and updates of lists of rows.
-- Tests tries the theorems on a small installation.
--
-- How the parts interact: a run starts at the guard and follows the edges. Each node takes the state
-- and the world. The policy is called on the state and the sessions that the runner lists; the lock
-- directory is read and written under the locks of ensure_worker and cleanup_worker; the runner, the
-- tracker and the clock are called through `Ports`.
--
-- The code and the model:
--   - A node is an action of type Exec: from a world to a result and a world. What was done before an
--     exception stays done. Methods of the runner, the tracker and the clock are fields of `Ports`, on
--     an environment of any type, and may raise. So are the hash, the resolution of paths, the process
--     table and the reading of ISO dates, which belong to the standard library or the system.
--   - Each call of the runner or the tracker is written to `calls`, the latest first, with the locks
--     that are held then.
--   - A node gives the whole next state; a field that the source does not return keeps its value, as
--     LangGraph merges it. `events` grows, as its reducer adds.
--   - `interrupt` raises unless the run was resumed with an answer, which it then takes. The node is
--     run again from its start, as LangGraph does.
--   - A run takes fuel, one for each node, and starts with 13. The edges have no cycle but that of the
--     approval, whose node takes the answer of a person: the longest way without it visits ten nodes,
--     and an answer lets two of them be visited again.
--   - Exceptions are kinds; their texts are left out. Texts are ASCII. Durations and times are
--     microseconds. The labels of a work item are a list, of which only membership is asked.
--   - A file of the lock directory is a JSON object, or the reason why reading it fails. Writes of the
--     lock directory do not fail. The JSON text is not modelled.
--
--   - The wait for a session takes fuel, one for each half second until the deadline, since a turn of its
--     loop that goes on sleeps as long.
--   - A table of SQLite is the list of its rows in the order of insertion; a transaction is one step. What
--     a store returns is read as its `_row` does, where an empty text is None.
--   - The runtime of graphs (LangGraph with its checkpoints), the AO command and the clock are records of
--     functions on an environment of any type, and may raise. What a theorem of Service or Relay says
--     holds for each of them. Resumptions of a gate and messages that were sent are written down.
--   - The registry is what its TOML text says: three tables, each of which may be missing.
--
-- Not modelled: of service.py, the process of the service (its ownership record, start and stop, signals
-- and sleeping); of ao_relay.py, the counts for the status; project_accounts.py, whose binding of an
-- account is any action in AccountSwitch; the adapters with process_worker.py, accounts.py,
-- model_health.py, cli.py and the rest of runtime.py: the state that they keep is outside the graph's, and
-- much of them is input and output. Of config.py, the reading of TOML; of identifiers.py,
-- canonical_github_repository, and hosts in brackets. LangGraph's storage of checkpoints and its threads
-- are not modelled either.
mod Prelude
pub mod Result
pub mod Models
pub mod Config
pub mod Policy
pub mod Locking
pub mod Identifiers
pub mod Exec
pub mod Graph
pub mod Tables
pub mod Service
pub mod Registry
pub mod Relay
pub mod AccountSwitch
mod Tests
