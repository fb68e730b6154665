-- ===== src/Graph/Acquire.antt =====
-- graph.py: the node `ensure_worker`. Under both locks it settles the reservation of the item, reuses
-- an active worker, or goes on to spawn one.
use agent_workflow_superviso.Prelude.{
  false, ℕ, String, ◌<>◌, Bool, true, not, ◌&&◌, Option, none, some, List, [], ◌∷◌, ◌++◌,
}
use agent_workflow_superviso.Prelude.{
  if◌then◌else◌, ◌==◌, option_eq, string_eq, nat_eq, any, select, first,
}
use agent_workflow_superviso.Prelude.Dict
use agent_workflow_superviso.Prelude.Dict.{Dict}
use agent_workflow_superviso.Result.{key_error, assertion_error, or_raise}
use agent_workflow_superviso.Models.{AgentSession, active, verdict_eq}
use agent_workflow_superviso.Locking.{
  AcquisitionRecord, ReservationState, read_acquisition_record, clear_acquisition_record,
  account_switch_pending,
}
use agent_workflow_superviso.Graph.State.{
  Status, SupervisorState, or_default, or_none, positive, truthy_or, event,
}
use agent_workflow_superviso.Graph.World.{
  SupervisorDependencies, Lock, Call, World, call, from_files, with_lock, set_files,
}
use agent_workflow_superviso.Exec.{case_option, case_list, case_one, Exec, pure, lift, gets}
use agent_workflow_superviso.Exec.{◌>>=◌ as ◌>>=◌, ◌>>◌ as ◌>>◌}
use agent_workflow_superviso.Graph.Capacity.{
  is_pending, is_in_project, profile_for_project, credential_resource_key, active_workers_for_item,
  worker_conflict, worker_names,
}
use agent_workflow_superviso.Graph.Routing.{all_sessions}
use agent_workflow_superviso.Graph.Spawn.{record_acquisition, check_and_allocate}

-- The outcome of one part: the node returns, or it goes on with the reservation and the workers.
pub data Settled : Type 0 where
  stop : SupervisorState → Settled
  go_on : Option AcquisitionRecord → List AgentSession → Settled

unfoldable pub has_id : String → AgentSession → Bool
has_id id session = session.id == id

unfoldable pub unverified_state : String → SupervisorState → SupervisorState
unfolding event
unverified_state id s = event "refused to discard an unverified worker reservation" (record s {
  status = some Status.worker_reservation_unverified;
  last_error = some (
      "AO could not verify reserved worker "
      <> (id <> "; the reservation was retained to prevent a duplicate"));
})

unfoldable pub conflict_state : AgentSession → SupervisorState → SupervisorState
unfolding event
conflict_state worker s = event "refused to replace a conflicting worker reservation" (record s {
  status = some Status.worker_reservation_conflict;
  last_error = some (
      "reserved worker "
      <> (worker.id <> (" now identifies work item " <> or_default worker.work_item_id "None")));
})

unfoldable pub route_conflict_state : List AgentSession → String → SupervisorState → SupervisorState
unfolding event
route_conflict_state workers harness s =
    event "refused to create a duplicate worker for the work item" (record s {
      status = some Status.worker_route_conflict;
      last_error = some (
          "active worker conflict for this work item: "
          <> (worker_names workers <> ("; current route requires " <> harness)));
    })

unfoldable pub held_back_state : SupervisorState → SupervisorState
unfolding event
held_back_state s = event "refused to spawn while an acquisition reservation is pending" (record s {
  status = some Status.worker_acquisition_pending;
  last_error =
      some
        "a previous worker acquisition may still be completing; manual resolution is required if no AO worker appears";
})

-- The session still names this work item, or none.
unfoldable pub is_same_item : String → AgentSession → Bool
is_same_item work_item_id session = elim session.work_item_id [
  | none ↦ true
  | some id ↦ id == work_item_id
]

-- The sessions that a pending reservation recovers.
unfoldable pub recoverable : AcquisitionRecord → AgentSession → Bool
unfolding is_in_project
recoverable r worker = is_in_project r.execution_project_id worker && worker.harness == r.harness

-- `reservation is not None and reservation.state == "pending"`
unfoldable pub holds_back : Option AcquisitionRecord → Bool
unfolding is_pending
holds_back none = false
holds_back (some r) = is_pending r

module _ {ℓ} {A : Type ℓ} where
  -- `a if a is not None else b`
  abbrev pub or_other : Option A → Option A → Option A
  or_other (some a) b = some a
  or_other none b = b

module _ {E : Type 0} (deps : SupervisorDependencies E) where
  -- A worker's record, and the session found for it.
  unfoldable pub settle_found :
      SupervisorState
      → String
      → String
      → AcquisitionRecord
      → AgentSession
      → List AgentSession
      → Exec (World E) Settled
  settle_found s project_id work_item_id r worker workers =
      if not (active worker)
      then (do
        files ←
            from_files (clear_acquisition_record deps.sha256 project_id work_item_id r.worker_id)
        set_files files
        pure (go_on none workers))
      else if not (is_same_item work_item_id worker)
      then pure (stop (conflict_state worker s))
      else if any (has_id worker.id) workers
      then pure (go_on (some r) workers)
      else pure (go_on (some r) (workers ++ worker ∷ []))

  unfoldable pub settle_worker :
      SupervisorState
      → String
      → String
      → AcquisitionRecord
      → List AgentSession
      → Exec (World E) Settled
  settle_worker s project_id work_item_id r workers = do
    id ← lift (or_raise r.worker_id assertion_error)
    found ←
        case_option (first (has_id id) workers) (call (Call.get_session id) (deps.get_session id))
          λ worker. pure (some worker)
    case_option found (pure (stop (unverified_state id s)))
        λ worker. settle_found s project_id work_item_id r worker workers

  -- A pending record that exactly one active session fits becomes the record of that worker.
  unfoldable pub settle_pending :
      String → String → AcquisitionRecord → List AgentSession → Exec (World E) Settled
  settle_pending project_id work_item_id r workers =
      case_one (select (recoverable r) workers)
        (λ worker. do
          record_acquisition deps project_id work_item_id (record {
            state = ReservationState.worker;
            execution_project_id = truthy_or worker.project_id r.execution_project_id;
            harness = worker.harness;
            worker_id = some worker.id;
            model_profile = r.model_profile;
            model_capacity = r.model_capacity;
            credential_key = r.credential_key;
            credential_capacity = r.credential_capacity;
          })
          again ← from_files (read_acquisition_record deps.sha256 project_id work_item_id)
          pure (go_on again workers))
        (pure (go_on (some r) workers))

  unfoldable pub settle :
      SupervisorState
      → String
      → String
      → Option AcquisitionRecord
      → List AgentSession
      → Exec (World E) Settled
  settle s project_id work_item_id reservation workers =
      case_option reservation (pure (go_on none workers)) λ r.
        if is_pending r
        then settle_pending project_id work_item_id r workers
        else settle_worker s project_id work_item_id r workers

  -- The login of the execution project that a reused worker runs in: its name, key and limit.
  unfoldable pub matching_login :
      AgentSession → String → Exec (World E) (Option (String × String × ℕ))
  matching_login worker harness = do
    profile ← lift (profile_for_project deps.config worker.project_id harness)
    case_option profile (pure none) λ name. do
      key ←
          from_files (λ files.
            credential_resource_key deps.sha256 deps.resolve deps.config files name harness)
      config ← lift (or_raise (Dict.get name deps.config.profiles) key_error)
      pure (some (name, key, config.max_workers))

  unfoldable pub reuse_worker :
      SupervisorState
      → String
      → String
      → String
      → Option AcquisitionRecord
      → AgentSession
      → Exec (World E) SupervisorState
  reuse_worker s project_id work_item_id harness reservation worker = do
    let own_project = or_default s.execution_project_id project_id
    let fallback : String = elim reservation [
      | none ↦ own_project
      | some r ↦ truthy_or (some r.execution_project_id) own_project
    ]
    let execution_project_id = truthy_or worker.project_id fallback
    login ← matching_login worker harness
    record_acquisition deps project_id work_item_id (record {
      state = ReservationState.worker;
      execution_project_id = execution_project_id;
      harness = worker.harness;
      worker_id = some worker.id;
      model_profile =
          or_other (elim reservation [ none ↦ none | some r ↦ r.model_profile ])
            (or_none s.model_profile);
      model_capacity =
          or_other (elim reservation [ none ↦ none | some r ↦ r.model_capacity ])
            (positive s.model_capacity);
      credential_key =
          or_other (elim reservation [ none ↦ none | some r ↦ r.credential_key ])
            (elim login [ none ↦ none | some (_, key, _) ↦ some key ]);
      credential_capacity =
          or_other (elim reservation [ none ↦ none | some r ↦ r.credential_capacity ])
            (elim login [ none ↦ none | some (_, _, limit) ↦ some limit ]);
    })
    pure (
        event ("reused worker " <> worker.id) (record s {
          worker_id = some worker.id;
          worker_status = some worker.status;
          execution_project_id = some execution_project_id;
          credential_profile = some (
              truthy_or (elim login [ none ↦ none | some (name, _, _) ↦ some name ])
                (or_default s.credential_profile ""));
          status = some Status.worker_running;
        }))

  -- No reservation is left that could hide a worker: the switch, then the limits.
  unfoldable pub after_switch :
      SupervisorState
      → String
      → String
      → String
      → List AgentSession
      → Exec (World E) SupervisorState
  after_switch s project_id work_item_id harness sessions = do
    alive ← gets (λ w. deps.alive w.env)
    (is_pending, files) ← from_files (account_switch_pending deps.sha256 alive project_id)
    set_files files
    if is_pending
        then pure (
            event "waiting for the scheduled account switch to finish"
              (record s { status = some Status.waiting_account_switch }))
        else check_and_allocate deps s project_id work_item_id harness sessions

  -- No active worker: a pending reservation or a scheduled account switch holds the spawn back.
  unfoldable pub acquire_new :
      SupervisorState
      → String
      → String
      → String
      → Option AcquisitionRecord
      → List AgentSession
      → Exec (World E) SupervisorState
  acquire_new s project_id work_item_id harness reservation sessions =
      if holds_back reservation
      then pure (held_back_state s)
      else after_switch s project_id work_item_id harness sessions

  -- The body of `ensure_worker` behind the settled reservation.
  unfoldable pub acquire_settled :
      SupervisorState
      → String
      → String
      → List AgentSession
      → Settled
      → Exec (World E) SupervisorState
  acquire_settled s project_id work_item_id sessions (stop s') = pure s'
  acquire_settled s project_id work_item_id sessions (go_on reservation workers) = do
    harness ← lift (or_raise s.harness key_error)
    if worker_conflict workers harness
        then pure (route_conflict_state workers harness s)
        else case_list workers (acquire_new s project_id work_item_id harness reservation sessions)
            λ worker. reuse_worker s project_id work_item_id harness reservation worker

  unfoldable pub acquire_locked : SupervisorState → String → String → Exec (World E) SupervisorState
  acquire_locked s project_id work_item_id = do
    reservation ← from_files (read_acquisition_record deps.sha256 project_id work_item_id)
    sessions ←
        all_sessions deps (elim reservation [ none ↦ [] | some r ↦ r.execution_project_id ∷ [] ])
    workers ← lift (active_workers_for_item deps.config sessions work_item_id)
    settled ← settle s project_id work_item_id reservation workers
    acquire_settled s project_id work_item_id sessions settled

  unfoldable pub ensure_worker : SupervisorState → Exec (World E) SupervisorState
  ensure_worker s = do
    project_id ← lift (or_raise s.project_id key_error)
    work_item_id ← lift (or_raise s.work_item_id key_error)
    with_lock Lock.global_capacity (
        with_lock (Lock.work_item project_id work_item_id)
          (acquire_locked s project_id work_item_id))
