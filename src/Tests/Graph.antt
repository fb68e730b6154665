-- ===== src/Tests/Graph.antt =====
-- The theorems on the graph at concrete inputs.
use agent_workflow_superviso.Graph.Sanctions.{SameApproval}
use agent_workflow_superviso.Graph.Sanctions.Bodies.{body-SameApproval}
use agent_workflow_superviso.Prelude.{
  ◌+◌, [], nat_eq, ◌≡◌, ◌≢◌, refl, false, true, some, string_eq, option_eq,
}
use agent_workflow_superviso.Models.{ready, active}
use agent_workflow_superviso.Exec.{◌>>=◌, case_option}
use agent_workflow_superviso.Graph.State.{Status, SupervisorState, event}
use agent_workflow_superviso.Graph.World.{perform, call, read_clock}
use agent_workflow_superviso.Graph.Delivery.{verify_change, verified_state}
use agent_workflow_superviso.Graph.Run.{body, guard, verify, run, out_of_fuel, invoke, resume_gate}
use agent_workflow_superviso.Graph.Watchdog.Budget.{triggers, IsPaid}
use agent_workflow_superviso.Graph.Watchdog.Inspection.{inspect_worker-IsPaid}
use agent_workflow_superviso.Result.{Result, ok, err}
use agent_workflow_superviso.Graph.World.{SupervisorDependencies, World}
use agent_workflow_superviso.Graph.Review.{inspect_worker, inspect_active, healthy}
use agent_workflow_superviso.Graph.Watch
use agent_workflow_superviso.Graph.Watch.{
  review_timed_out, missing_timed_out, restarted, trigger_review, iso_now,
}
use agent_workflow_superviso.Prelude.Text
use agent_workflow_superviso.Prelude.{ℕ, arith, none}
use agent_workflow_superviso.Graph.Shadow.{AllReads, run-AllReads}
use agent_workflow_superviso.Graph.Locks.{AllLocked, run-AllLocked}
use agent_workflow_superviso.Graph.Termination.{invoke_ends}
use agent_workflow_superviso.Graph.MergeSafety.{
  IsMergeReady, AllGuarded, verify_change-IsMergeReady,
}
use agent_workflow_superviso.Graph.MergeTrace.{run-AllGuarded}
use agent_workflow_superviso.Tests.Setup.{deps, fresh, world, change, config, ports}

-- A state whose review approved the change.
abbrev reviewed : SupervisorState
reviewed = record fresh {
  project_id = some "p";
  worker_id = some "w1";
  change_id = some "42";
  review_target_sha = some "abc";
  status = some Status.review_approved;
}

run-AllReads_example : AllReads (run (deps true) 13 guard fresh world).1.calls
run-AllReads_example = run-AllReads (deps true) refl 13 guard fresh world tt

run-AllLocked_example :
    ((run (deps false) 13 guard fresh world).1.held ≡ [])
    × AllLocked (run (deps false) 13 guard fresh world).1.calls
run-AllLocked_example = run-AllLocked (deps false) 13 guard fresh world tt

invoke_ends_example :
    ((invoke (deps false) fresh world).0 ≢ out_of_fuel)
    × ((resume_gate (deps false) fresh world).0 ≢ out_of_fuel)
invoke_ends_example = invoke_ends (deps false) fresh world

verified : SupervisorState
unfolding verified_state event
verified = verified_state reviewed "abc" change

verify_change-IsMergeReady_example :
    IsMergeReady verified (verify_change (deps false) reviewed world).1
unfolding verify_change ◌>>=◌ perform verified ready string_eq option_eq nat_eq
verify_change-IsMergeReady_example =
    verify_change-IsMergeReady (deps false) reviewed verified world refl refl

body-SameApproval_example : SameApproval reviewed verified
unfolding body verify_change ◌>>=◌ perform verified ready string_eq option_eq nat_eq
body-SameApproval_example =
    body-SameApproval (deps false) verify reviewed verified world (λ p. absurd (cc)) refl

run-AllGuarded_example : AllGuarded (run (deps false) 5 verify reviewed world).1.calls
run-AllGuarded_example = run-AllGuarded (deps false) 5 verify reviewed world (λ p. cc) tt

-- A review that was triggered once and disappeared, after its time.
abbrev without_review : SupervisorDependencies ℕ
without_review = record {
  config = config false;
  ports = record ports { get_review = λ id t. (ok none, t) };
}

abbrev inspecting : SupervisorState
inspecting = record fresh {
  project_id = some "p";
  worker_id = some "w1";
  review_worker_id = some "w1";
  review_triggered_for_sha = some "abc";
  review_started_at = some "t";
  review_attempts = some 1;
}

abbrev late : World ℕ
late = record world { env = 100 }

abbrev state_of : Result SupervisorState → SupervisorState
state_of (ok s) = s
state_of (err e) = inspecting

inspect_worker-IsPaid_example :
    (n : ℕ) × (triggers (inspect_worker without_review inspecting late).1.calls
      ≡ n + triggers late.calls)
    × IsPaid without_review inspecting n
        (state_of (inspect_worker without_review inspecting late).0)
unfolding inspect_worker ◌>>=◌ call perform case_option healthy active string_eq inspect_active
    Watch.without_review Text.casefold nat_eq option_eq review_timed_out read_clock
    missing_timed_out restarted trigger_review iso_now
inspect_worker-IsPaid_example =
    inspect_worker-IsPaid without_review inspecting
      (state_of (inspect_worker without_review inspecting late).0) late (omega arith) (omega arith)
      refl
