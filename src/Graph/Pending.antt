-- ===== src/Graph/Pending.antt =====
-- What a pending reservation does to the next acquisition.
use agent_workflow_superviso.Prelude.{
  ◌≡◌, refl, ◌∙◌, false, true, Option, some, String, List, [], ◌∷◌, arith,
}
use agent_workflow_superviso.Prelude.{string_eq, option_eq, nat_eq, select}
use agent_workflow_superviso.Result.{Result, ok}
use agent_workflow_superviso.Models.{AgentSession}
use agent_workflow_superviso.Exec.{◌>>=◌ as ◌>>=◌, continue, case_option, case_list, pure, lift}
use agent_workflow_superviso.Exec.Relates.{
  IsPreorder, Relates, relates_rules, Relates-if, Relates-pure, Relates-bind, Relates-lift,
}
use agent_workflow_superviso.Exec.Yields.{
  Yields, Yields-pure, Yields-bind, Yields-if, Yields-case_one, Relates-with,
}
use agent_workflow_superviso.Locking.{
  Files, AcquisitionRecord, ReservationState, read_acquisition_record,
}
use agent_workflow_superviso.Graph.State.{SupervisorState}
use agent_workflow_superviso.Graph.World.{
  SupervisorDependencies, SpawnRequest, Call, Entry, World, perform, call, from_files, set_files,
}
use agent_workflow_superviso.Graph.Capacity.{active_workers_for_item, worker_conflict, is_pending}
use agent_workflow_superviso.Graph.Routing.{all_sessions}
use agent_workflow_superviso.Graph.Acquire.{
  Settled, stop, go_on, settle, settle_pending, acquire_settled, acquire_new, acquire_locked,
  holds_back, route_conflict_state, recoverable,
}
use agent_workflow_superviso.Graph.Effects.{IsRead, sessions-Relates, settle-Relates, reuse-Relates}

-- The requests to spawn among the calls.
unfoldable pub spawned : List Entry → List SpawnRequest
spawned [] = []
spawned (e ∷ entries) =
    let rest = spawned entries in
    elim e.call [ Call.spawn_worker request ↦ request ∷ rest | _ ↦ rest ]

-- Where no active worker is left, the reservation holds a spawn back.
HoldsBack : Settled → Type 0
HoldsBack (stop s) = Unit
HoldsBack (go_on reservation workers) = workers ≡ [] → holds_back reservation ≡ true

module _ {E : Type 0} (deps : SupervisorDependencies E) where
  abbrev SameSpawned : World E → World E → Type 0
  SameSpawned w w' = spawned w'.calls ≡ spawned w.calls

  SameSpawned-order : IsPreorder SameSpawned
  SameSpawned-order = record { same = λ w. refl; trans = λ w w' w'' a b. b ∙ a }

  read-SameSpawned :
      (A : Type 0) (c : Call) (f : E → Result A × E) → IsRead c → Relates SameSpawned (call c f)
  unfolding call perform spawned
  read-SameSpawned A (Call.list_sessions _) f h = record { at = λ w. refl }
  read-SameSpawned A (Call.get_session _) f h = record { at = λ w. refl }
  read-SameSpawned A (Call.get_review _) f h = record { at = λ w. refl }
  read-SameSpawned A (Call.get_work_item _) f h = record { at = λ w. refl }
  read-SameSpawned A (Call.get_change _ _) f h = record { at = λ w. refl }
  read-SameSpawned A (Call.spawn_worker _) f h = absurd h
  read-SameSpawned A (Call.trigger_review _) f h = absurd h
  read-SameSpawned A (Call.cancel_review _) f h = absurd h
  read-SameSpawned A (Call.send _ _) f h = absurd h
  read-SameSpawned A (Call.terminate _ _) f h = absurd h
  read-SameSpawned A (Call.merge_change _ _) f h = absurd h

  files-SameSpawned : (files : Files) → Relates SameSpawned (set_files files)
  unfolding set_files
  files-SameSpawned files = record { at = λ w. refl }

  nothing_selected :
      (r : AcquisitionRecord) (workers : List AgentSession) (worker : AgentSession)
      → workers ≡ []
      → select (recoverable r) workers ≡ worker ∷ []
      → ⊥
  unfolding select
  nothing_selected r [] worker empty one = cc
  nothing_selected r (w ∷ ws) worker empty one = cc

  new-SameSpawned :
      (s : SupervisorState) (project_id work_item_id harness : String)
      (reservation : Option AcquisitionRecord) (sessions : List AgentSession)
      → holds_back reservation ≡ true
      → Relates SameSpawned
          (acquire_new deps s project_id work_item_id harness reservation sessions)
  unfolding acquire_new
  new-SameSpawned s project_id work_item_id harness reservation sessions held =
      Relates-if _ _ _ (λ h. Relates-pure SameSpawned-order _)
        (λ (fails : holds_back reservation ≡ false). absurd (ground (arith, held)))

  settle-HoldsBack :
      (s : SupervisorState) (project_id work_item_id : String) (r : AcquisitionRecord)
      (workers : List AgentSession)
      → r.state ≡ ReservationState.pending
      → Yields HoldsBack (settle deps s project_id work_item_id (some r) workers)
  unfolding settle case_option is_pending settle_pending HoldsBack holds_back
  settle-HoldsBack s project_id work_item_id r workers held =
      Yields-if (is_pending r) _ _
        (λ pends.
          Yields-case_one (select (recoverable r) workers) _ _
            (λ worker one. Yields-bind _ _ λ u. Yields-bind _ _ λ again.
              Yields-pure _ (λ empty. absurd (nothing_selected r workers worker empty one)))
            (Yields-pure _ (λ empty. pends)))
        (λ fails. absurd (ground (arith, held)))

  settled-SameSpawned :
      (s : SupervisorState) (project_id work_item_id : String) (sessions : List AgentSession)
      (settled : Settled)
      → HoldsBack settled
      → Relates SameSpawned (acquire_settled deps s project_id work_item_id sessions settled)
  unfolding acquire_settled HoldsBack case_list
  settled-SameSpawned s project_id work_item_id sessions (stop s') h =
      search (relates_rules, SameSpawned-order)
  settled-SameSpawned s project_id work_item_id sessions (go_on reservation []) h =
      Relates-bind SameSpawned-order _ _ (Relates-lift SameSpawned-order _) λ harness.
        Relates-if (worker_conflict [] harness) (pure (route_conflict_state [] harness s)) _
          (λ conflict. Relates-pure SameSpawned-order _)
          (λ fits. new-SameSpawned s project_id work_item_id harness reservation sessions (h refl))
  settled-SameSpawned s project_id work_item_id sessions (go_on reservation (worker ∷ others)) h =
      Relates-bind SameSpawned-order _ _ (Relates-lift SameSpawned-order _) λ harness.
        Relates-if (worker_conflict (worker ∷ others) harness)
          (pure (route_conflict_state (worker ∷ others) harness s)) _
          (λ conflict. Relates-pure SameSpawned-order _)
          (λ fits.
            reuse-Relates deps SameSpawned SameSpawned-order read-SameSpawned files-SameSpawned s
              project_id work_item_id harness reservation worker)

  behind_record-SameSpawned :
      (s : SupervisorState) (project_id work_item_id : String) (r : AcquisitionRecord)
      → r.state ≡ ReservationState.pending
      → Relates SameSpawned (do
        sessions ← all_sessions deps (r.execution_project_id ∷ [])
        workers ← lift (active_workers_for_item deps.config sessions work_item_id)
        settled ← settle deps s project_id work_item_id (some r) workers
        acquire_settled deps s project_id work_item_id sessions settled)
  behind_record-SameSpawned s project_id work_item_id r held =
      let listed =
        sessions-Relates deps SameSpawned SameSpawned-order read-SameSpawned files-SameSpawned in
      let settles =
        settle-Relates deps SameSpawned SameSpawned-order read-SameSpawned files-SameSpawned in
      Relates-bind SameSpawned-order _ _ (listed _) λ sessions.
        Relates-bind SameSpawned-order _ _ (Relates-lift SameSpawned-order _) λ workers.
          Relates-with SameSpawned-order {Q = HoldsBack} _ _
            (settles s project_id work_item_id (some r) workers)
            (settle-HoldsBack s project_id work_item_id r workers held)
            (λ settled h. settled-SameSpawned s project_id work_item_id sessions settled h)

  -- If the record of the item is read as pending, an acquisition under its locks spawns nothing, whatever
  -- sessions there are, and whether it returns or raises.
  pub acquire_locked-spawned :
      (s : SupervisorState) (project_id work_item_id : String) (w : World E) (r : AcquisitionRecord)
      → read_acquisition_record deps.sha256 project_id work_item_id w.files ≡ ok (some r)
      → r.state ≡ ReservationState.pending
      → spawned (acquire_locked deps s project_id work_item_id w).1.calls ≡ spawned w.calls
  unfolding acquire_locked ◌>>=◌ from_files continue
  acquire_locked-spawned s project_id work_item_id w r found held =
      rw found ((behind_record-SameSpawned s project_id work_item_id r held).at w)
