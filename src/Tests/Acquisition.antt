-- ===== src/Tests/Acquisition.antt =====
-- The theorems on reservations and approvals at concrete inputs.
use agent_workflow_superviso.Prelude.{
  [], nat_eq, ◌≡◌, ◌⊎◌, refl, false, none, some, string_eq, option_eq, ℕ,
}
use agent_workflow_superviso.Result.{ok, err, external}
use agent_workflow_superviso.Locking.{
  AcquisitionRecord, ReservationState, read_acquisition_record, write_acquisition_record,
}
use agent_workflow_superviso.Locking.RoundTrip.{IsValid, IsNamed, IsPositive, read_written}
use agent_workflow_superviso.Graph.State.{SupervisorState}
use agent_workflow_superviso.Graph.World.{SupervisorDependencies, World, Response}
use agent_workflow_superviso.Graph.Routing.{item_from_state}
use agent_workflow_superviso.Graph.Spawn.{Allocation, reservation_for, spawn_worker}
use agent_workflow_superviso.Graph.Acquire.{acquire_locked}
use agent_workflow_superviso.Graph.Reservations.{spawn_worker_fails}
use agent_workflow_superviso.Graph.Pending.{spawned, acquire_locked-spawned}
use agent_workflow_superviso.Graph.Approvals.{Approves, IsRecorded, IsRejected, run-approval_gate}
use agent_workflow_superviso.Graph.Run.{approve, verify, finished, paused, run}
use agent_workflow_superviso.Tests.Setup.{fresh, world, item, ports, config}

-- The installation whose runner cannot spawn.
abbrev broken : SupervisorDependencies ℕ
broken = record {
  config = config false;
  ports = record ports { spawn_worker = λ request t. (err external, t) };
}

abbrev routed : SupervisorState
routed = record fresh {
  project_id = some "p";
  work_item_id = some "7";
  title = some "t";
  body = some "b";
  labels = some [];
  work_item_url = some "";
  harness = some "codex";
  change_id = some "42";
  change_head_sha = some "abc";
}

abbrev place : Allocation
place = record {
  execution_project_id = "p";
  credential_profile = "";
  credential_key = none;
  credential_capacity = none;
}

abbrev held : AcquisitionRecord
held = record {
  state = ReservationState.pending;
  execution_project_id = "p";
  harness = "codex";
  worker_id = none;
  model_profile = none;
  model_capacity = none;
  credential_key = none;
  credential_capacity = none;
}

held-IsValid : IsValid held
unfolding IsNamed IsPositive
held-IsValid = record {
  execution = λ p. cc;
  harness = λ p. cc;
  worker_known = λ p. cc;
  profile = λ s e q. cc;
  credential = λ s e q. cc;
  capacity = λ n e. cc;
  credential_capacity = λ n e. cc;
}

spawn_worker_fails_example :
    ((spawn_worker broken routed "p" "7" "codex" place world).0 ≡ err external)
    × (read_acquisition_record broken.sha256 "p" "7"
          (spawn_worker broken routed "p" "7" "codex" place world).1.files
        ≡ ok (some (reservation_for routed place ReservationState.pending "p" "codex" none)))
unfolding item_from_state reservation_for
spawn_worker_fails_example =
    spawn_worker_fails broken routed "p" "7" "codex" place world item external refl (λ r. refl)
      (λ p. cc) (λ p. cc) held-IsValid

abbrev after_crash : World ℕ
after_crash = record world { files = write_acquisition_record broken.sha256 1 "p" "7" held [] }

acquire_locked-spawned_example :
    spawned (acquire_locked broken routed "p" "7" after_crash).1.calls ≡ spawned after_crash.calls
acquire_locked-spawned_example =
    acquire_locked-spawned broken routed "p" "7" after_crash held
      (read_written broken.sha256 1 "p" "7" held [] (λ p. cc) (λ p. cc) held-IsValid) refl

answered_world : World ℕ
answered_world = record world { resume = some (Response.action (some "approve")) }

run-approval_gate_example :
    ((answered_world.resume ≡ none)
      × (run broken 4 approve routed answered_world ≡ (paused routed, answered_world)))
    ⊎ ((response : Response) × (s' : SupervisorState) × (answered_world.resume ≡ some response)
        × ((Approves response
              × IsRecorded routed s'
              × (run broken 4 approve routed answered_world
                  ≡ run broken 3 verify s' (record answered_world { resume = none })))
            ⊎ ((¬ Approves response)
                × IsRejected s'
                × (run broken 4 approve routed answered_world
                    ≡ (finished s', record answered_world { resume = none })))))
run-approval_gate_example =
    run-approval_gate broken 3 routed answered_world "7" "42" "abc" refl refl refl
