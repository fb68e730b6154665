-- ===== src/Tests/Service.antt =====
-- The service on one work item: it is dispatched, waits at the gate of its change, is approved once, and
-- is merged.
use agent_workflow_superviso.Prelude.{ℕ, ◌≤◌, true, false, none, some, List, [], ◌∷◌}
use agent_workflow_superviso.Prelude.{◌==◌, count_if, option_eq, string_eq, nat_eq}
use agent_workflow_superviso.Result.{ok}
use agent_workflow_superviso.Service.Jobs.{QueuedWork, queued}
use agent_workflow_superviso.Service.Reconcile.{GraphRuntime, Resumed}
use agent_workflow_superviso.Service.System.{
  System, Action, act_all, new_system, dispatched, decided, reconciled,
}
use agent_workflow_superviso.Service.Decisions.{same}
use agent_workflow_superviso.Service.Replay.{resumed-le-given}
use agent_workflow_superviso.Tests.Setup.{config}

-- The thread pauses at its gate, and ends when it is resumed.
abbrev runtime : GraphRuntime ℕ
runtime = record {
  get_state = λ thread g.
      (ok (record { at_gate = g == 1; change_id = some "42"; change_head_sha = some "abc" }), g);
  resume = λ thread action g. (
    ok (record {
      interrupted = false;
      change_id = some "42";
      change_head_sha = some "abc";
      status = some "completed";
      last_error = none;
    }),
    2,
  );
  invoke = λ thread id g. (
    ok (record {
      interrupted = true;
      change_id = some "42";
      change_head_sha = some "abc";
      status = some "awaiting_approval";
      last_error = none;
    }),
    1,
  );
  utc_now = λ g. "t";
  describe = λ e. "error";
}

abbrev decision : Resumed
decision = record { work_item_id = "7"; decision = "approve"; change_id = "42"; target_sha = "abc" }

abbrev job : QueuedWork
job = queued "t" "7" none

abbrev actions : List Action
actions =
    dispatched "t" "7" none
    ∷ reconciled job
    ∷ decided "t" decision
    ∷ reconciled job
    ∷ reconciled job
    ∷ []

abbrev after : System ℕ
after = act_all (config false) runtime actions (new_system 0)

resumed-le-given_example :
    count_if (same decision) after.service.resumed ≤ count_if (same decision) after.given
resumed-le-given_example = resumed-le-given (config false) runtime decision actions 0
