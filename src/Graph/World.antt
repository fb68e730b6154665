-- ===== src/Graph/World.antt =====
-- ports.py and the dependencies of the graph, and the world that its nodes act on.
-- `Ports` holds what is not in this repository or is the operating system: the runner, the tracker,
-- the clock, the process table, the hash and the resolution of paths. Each call of the runner or the
-- tracker is written down with the locks that are held then.
use agent_workflow_superviso.Prelude.{ℕ, String, Bool, Option, List, ◌∷◌}
use agent_workflow_superviso.Prelude.{option_eq, string_eq, nat_eq}
use agent_workflow_superviso.Result.{Result, ok}
use agent_workflow_superviso.Models.{
  WorkItem, AgentSession, verdict_eq, ReviewResult, ChangeRequest,
}
use agent_workflow_superviso.Config.{AppConfig}
use agent_workflow_superviso.Locking.{Files}
use agent_workflow_superviso.Exec.{Exec}

pub record SpawnRequest : Type 0 where
  pub project_id : String
  pub work_item : WorkItem
  pub harness : String
  pub model : Option String
  pub provider : Option String
  pub credential_profile : Option String
  pub prompt : String

-- `RunnerPort` and `TrackerPort`; every call may raise, and changes an environment `E`.
pub record Ports (E : Type 0) : Type 0 where
  pub list_sessions : String → E → Result (List AgentSession) × E
  pub get_session : String → E → Result (Option AgentSession) × E
  pub spawn_worker : SpawnRequest → E → Result AgentSession × E
  pub get_review : String → E → Result (Option ReviewResult) × E
  pub trigger_review : String → E → Result (Unit {0}) × E
  pub cancel_review : String → E → Result (Unit {0}) × E
  pub send : String → String → E → Result Bool × E
  pub terminate : String → String → E → Result (Unit {0}) × E
  pub get_work_item : String → E → Result WorkItem × E
  pub get_change : String → E → Result ChangeRequest × E
  pub merge_change : String → String → E → Result (Unit {0}) × E
  pub now : E → ℕ × E
  pub isoformat : ℕ → String
  pub fromisoformat : String → Option ℕ
  pub alive : E → ℕ → Bool
  pub pid : ℕ
  pub sha256 : String → String
  pub resolve : String → String

-- `SupervisorDependencies`
pub record SupervisorDependencies (E : Type 0) : Type 0 where
  pub config : AppConfig
  pub ports : Ports E
  pub open ports use *

-- The locks of locking.py that the graph takes.
pub data Lock : Type 0 where
  global_capacity : Lock
  work_item : String → String → Lock

-- The calls of the ports; of `get_change` the answer too.
pub data Call : Type 0 where
  list_sessions get_session get_review trigger_review cancel_review get_work_item : String → Call
  spawn_worker : SpawnRequest → Call
  send terminate merge_change : String → String → Call
  get_change : String → Result ChangeRequest → Call

-- What a person answers to an interrupt: a dictionary with or without an action, or another value.
pub data Response : Type 0 where
  action : Option String → Response
  value : String → Response

pub record Entry : Type 0 where
  pub held : List Lock
  pub call : Call

pub record World (E : Type 0) : Type 0 where
  pub env : E
  pub files : Files
  pub held : List Lock
  -- The latest call first.
  pub calls : List Entry
  -- The answer that the run was resumed with, until an interrupt takes it.
  pub resume : Option Response

module _ {E A : Type 0} where
  -- A call of a port, and its entry, which may tell the answer.
  unfoldable pub perform : (Result A → Call) → (E → Result A × E) → Exec (World E) A
  perform c f w =
      let (r, e) = f w.env in
      (r, record w { env = e; calls = record { held = w.held; call = c r } ∷ w.calls })

  unfoldable pub call : Call → (E → Result A × E) → Exec (World E) A
  call c = perform (λ _. c)

  -- A function of the lock directory, which may raise.
  unfoldable pub from_files : (Files → Result A) → Exec (World E) A
  from_files f w = (f w.files, w)

  -- `with lock:`; the lock is released on every way out.
  unfoldable pub with_lock : Lock → Exec (World E) A → Exec (World E) A
  with_lock l m w =
      let (r, w') = m (record w { held = l ∷ w.held }) in (r, record w' { held = w.held })

module _ {E : Type 0} where
  unfoldable pub set_files : Files → Exec (World E) (Unit {0})
  set_files files w = (ok tt, record w { files = files })

  -- The clock is read, and nothing else of the world changes but the environment.
  unfoldable pub read_clock : (E → ℕ × E) → Exec (World E) ℕ
  read_clock f w = let (t, e) = f w.env in (ok t, record w { env = e })
