-- ===== src/AccountSwitch/Helper.antt =====
-- account_switch.py: `wait_until_idle` and `run_switch`.
-- `Ao` is what the helper uses of the command `ao`, and the monotonic clock with `time.sleep`, in
-- microseconds; `external` is an AdapterCommandError.
use agent_workflow_superviso.Prelude.{
  ℕ, zero, suc, ◌+◌, ◌/◌, String, Bool, Option, none, some, [], ◌∷◌,
}
use agent_workflow_superviso.Prelude.{if◌then◌else◌, ◌==◌, contains, ltb, string_eq}
use agent_workflow_superviso.Result.{Error, external, Result, ok, err}
use agent_workflow_superviso.Graph.State.{truthy_or}
use agent_workflow_superviso.Locking.{Files, clear_account_switch_pending}

-- The object `session` of the answer: `isTerminated`, `activity.state` and `status`.
pub record SessionJson : Type 0 where
  pub terminated : Bool
  pub activity_state : Option String
  pub status : Option String

-- The answer is `none` where it has no object `session`.
pub record Ao (E : Type 0) : Type 0 where
  pub get_session : String → String → E → Result (Option SessionJson) × E
  pub now : E → ℕ
  pub sleep : ℕ → E → E

-- What `_session_state` makes of an answer.
unfoldable pub state_of : Result (Option SessionJson) → Result String
unfolding truthy_or
state_of (err external) = ok "missing"
state_of (err e) = err e
state_of (ok none) = ok "terminated"
state_of (ok (some s)) = ok (
    if s.terminated
    then "terminated"
    else truthy_or s.activity_state (truthy_or s.status "unknown"))

-- How the wait ends: with a state, at the deadline, or by an exception.
pub data Waited : Type 0 where
  settled : String → Waited
  timed_out : Waited
  failed : Error → Waited

abbrev pub second : ℕ
second = 1000000

abbrev pub half_second : ℕ
half_second = 500000

module _ {E : Type 0} (ao : Ao E) (project_id session_id : String) where
  unfoldable pub session_state : E → Result String × E
  unfolding state_of
  session_state e =
      let (answer, e') = ao.get_session project_id session_id e in (state_of answer, e')

  -- The second look at an idle session.
  unfoldable pub confirm : Result String → E → Option Waited × E
  confirm (err x) e = (some (failed x), e)
  confirm (ok state) e =
      if state == "idle" then (some (settled "idle"), e) else (none, ao.sleep half_second e)

  unfoldable pub judge : Result String → E → Option Waited × E
  unfolding session_state confirm
  judge (err x) e = (some (failed x), e)
  judge (ok state) e =
      let (again, e') = session_state (ao.sleep second e) in
      if contains ("missing" ∷ "terminated" ∷ []) state
      then (some (settled state), e)
      else if state == "idle"
      then confirm again e'
      else (none, ao.sleep half_second e)

  -- The body of the loop: how the wait ends, if it does.
  unfoldable pub look : E → Option Waited × E
  unfolding session_state judge
  look e = let (state, e') = session_state e in judge state e'

  unfoldable pub follow : (E → Option Waited × E) → Option Waited × E → Option Waited × E
  follow rest (some w, e) = (some w, e)
  follow rest (none, e) = rest e

  -- The loop, on fuel; `none` is a lack of fuel.
  unfoldable pub wait : ℕ → ℕ → E → Option Waited × E
  unfolding look follow
  wait zero deadline e = (none, e)
  wait (suc fuel) deadline e =
      if ltb (ao.now e) deadline then follow (wait fuel deadline) (look e) else (some timed_out, e)

  -- `wait_until_idle`: a turn of the loop that goes on takes half a second.
  unfoldable pub wait_until_idle : ℕ → E → Option Waited × E
  unfolding wait
  wait_until_idle timeout e = wait (suc (timeout / half_second + 1)) (ao.now e + timeout) e

-- The files of the lock directory beside the environment.
pub record Desk (E : Type 0) : Type 0 where
  pub files : Files
  pub env : E

-- How the switch ends: `completed` with the state that the session settled in and the new session, or
-- without success.
pub data Switched : Type 0 where
  completed : String → String → Switched
  not_settled : Waited → Switched
  raised : Error → Switched

unfoldable pub outcome : String → Result String → Switched
outcome state (ok session) = completed state session
outcome state (err x) = raised x

module _ {E : Type 0} (sha256 : String → String) (ao : Ao E)
    (bind : Bool → Desk E → Result String × Desk E) where
  -- The `try`: `bind` is `bind_ao_project_account` of project_accounts.py, told whether the session may
  -- be missing.
  unfoldable pub bound : Option Waited × E → Files → Switched × Desk E
  unfolding outcome
  bound (some (settled state), e) files =
      let (session, d) =
        bind (contains ("missing" ∷ "terminated" ∷ []) state) (record { files = files; env = e }) in
      (outcome state session, d)
  bound (some w, e) files = (not_settled w, record { files = files; env = e })
  bound (none, e) files = (not_settled timed_out, record { files = files; env = e })

  -- The `finally`, which clears the marker of the switch; a raise here replaces what was.
  unfoldable pub clear : String → Option String → Switched × Desk E → Switched × Desk E
  unfolding clear_account_switch_pending
  clear project_id none (r, d) = (r, d)
  clear project_id (some switch_id) (r, d) =
      elim (clear_account_switch_pending sha256 project_id switch_id d.files) [
        | ok files ↦ (r, record d { files = files })
        | err x ↦ (raised x, d)
      ]

  -- `run_switch`, which waits for 300 seconds
  unfoldable pub run_switch : String → String → Option String → Desk E → Switched × Desk E
  unfolding wait_until_idle bound clear
  run_switch project_id session_id switch_id d =
      clear project_id switch_id
        (bound (wait_until_idle ao project_id session_id 300000000 d.env) d.files)
