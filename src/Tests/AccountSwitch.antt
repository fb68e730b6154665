-- ===== src/Tests/AccountSwitch.antt =====
-- The helper on a session that is idle after a second, and on its marker.
use agent_workflow_superviso.Prelude.{ℕ, ◌+◌, String, Bool, false, none, some, [], ◌≡◌, arith}
use agent_workflow_superviso.Result.{Result, ok}
use agent_workflow_superviso.Locking.{mark_account_switch_pending}
use agent_workflow_superviso.AccountSwitch.Helper.{
  Ao, SessionJson, Waited, Desk, wait_until_idle, run_switch,
}
use agent_workflow_superviso.AccountSwitch.Waiting.{IsRest, wait_until_idle_ends}
use agent_workflow_superviso.AccountSwitch.Cleanup.{IsCleared, run_switch-IsCleared}

abbrev idle : SessionJson
idle = record { terminated = false; activity_state = some "idle"; status = none }

-- The environment is the time.
abbrev ao : Ao ℕ
ao = record {
  get_session = λ project session time. (ok (some idle), time + 1000);
  now = λ time. time;
  sleep = λ d time. time + d;
}

wait_until_idle_ends_example :
    (w : Waited) × ((wait_until_idle ao "p" "s" 300000000 7).0 ≡ some w) × IsRest w
wait_until_idle_ends_example =
    wait_until_idle_ends ao "p" "s" (λ p s time. omega arith) (λ d time. omega arith) 300000000 7

abbrev same : String → String
same text = text

abbrev desk : Desk ℕ
desk = record { files = mark_account_switch_pending same 12 "p" "switch" []; env = 7 }

abbrev binds : Bool → Desk ℕ → Result String × Desk ℕ
binds missing d = (ok "new", d)

run_switch-IsCleared_example :
    IsCleared same "p" "switch" (run_switch same ao binds "p" "s" (some "switch") desk).1.files
run_switch-IsCleared_example = run_switch-IsCleared same ao binds "p" "s" "switch" desk
