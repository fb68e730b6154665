-- ===== src/Tests/Setup.antt =====
-- A small installation, on which the theorems are tried: one project, one worker, one change.
use agent_workflow_superviso.Prelude.{ℕ, ◌+◌, String, ◌<>◌, Bool, true, false, none, some, [], ◌∷◌}
use agent_workflow_superviso.Prelude.{option_eq, string_eq, nat_eq}
use agent_workflow_superviso.Result.{ok}
use agent_workflow_superviso.Models.{
  WorkItem, AgentSession, approved, verdict_eq, ReviewResult, ChangeRequest,
}
use agent_workflow_superviso.Config.{AppConfig, PolicyConfig, CredentialProfileConfig}
use agent_workflow_superviso.Graph.State.{SupervisorState, status_text}
use agent_workflow_superviso.Graph.World.{Ports, SupervisorDependencies, Response, World}
use agent_workflow_superviso.Config.{manual}
use agent_workflow_superviso.Graph.Run.{
  Outcome, paused, finished, failed, out_of_fuel, invoke, resume_gate,
}

abbrev pub login : CredentialProfileConfig
login = record { execution_project_id = "p-work"; max_workers = 1; claude_config_dir = some "/c" }

abbrev pub policy : PolicyConfig
policy = record {
  merge_mode = manual;
  default_harness = "claude-code";
  default_model_profile = some "fast";
  skip_labels = "ao:skip" ∷ [];
  approval_labels = [];
  capacity = ("claude-code", 2) ∷ [];
  models = [];
  report_only_harnesses = [];
  model_profiles =
      ("fast", record { harness = "claude-code"; model = "m"; provider = none; capacity = 2 }) ∷ [];
  credential_profiles = ("claude-code", "work" ∷ []) ∷ [];
  routes =
      record { profile = none; harness = some "codex"; labels_any = "art" ∷ []; labels_all = [] }
      ∷ [];
}

abbrev pub config : Bool → AppConfig
config shadow = record {
  supervisor = record { review_timeout = 60; review_max_attempts = 2; shadow_mode = shadow };
  project_id = "p";
  repository = "o/r";
  review_credential_profile = none;
  profiles = ("work", login) ∷ [];
  policy = policy;
}

abbrev pub worker : AgentSession
worker = record {
  id = "w1";
  role = "worker";
  status = "pr_open";
  harness = "claude-code";
  terminated = false;
  work_item_id = some "7";
  project_id = some "p-work";
  display_name = "";
  created_at = "";
  updated_at = "";
  last_activity_at = "";
}

abbrev pub review : ReviewResult
review = record {
  status = "completed";
  verdict = approved;
  feedback = "";
  change_id = some "42";
  change_url = "u";
  target_sha = "abc";
  run_id = "r1";
  started_at = "";
}

abbrev pub change : ChangeRequest
change = record {
  id = "42";
  url = "u";
  state = "open";
  head_sha = "abc";
  draft = false;
  mergeable = true;
  merge_state = "CLEAN";
  checks = record { name = "ci"; status = "success" } ∷ [];
}

abbrev pub item : WorkItem
item = record { id = "7"; title = "t"; body = "b"; labels = []; url = "" }

-- The environment is the clock; no session is listed, and every call succeeds.
abbrev pub ports : Ports ℕ
ports = record {
  list_sessions = λ id t. (ok [], t);
  get_session = λ id t. (ok (some worker), t);
  spawn_worker = λ request t. (ok worker, t);
  get_review = λ id t. (ok (some review), t);
  trigger_review = λ id t. (ok tt, t);
  cancel_review = λ id t. (ok tt, t);
  send = λ id message t. (ok true, t);
  terminate = λ p id t. (ok tt, t);
  get_work_item = λ id t. (ok item, t);
  get_change = λ id t. (ok change, t);
  merge_change = λ id sha t. (ok tt, t);
  now = λ t. (t, t + 1);
  isoformat = λ t. "t";
  fromisoformat = λ s. some 0;
  alive = λ t pid. false;
  pid = 100;
  sha256 = λ s. s;
  resolve = λ p. p;
}

abbrev pub deps : Bool → SupervisorDependencies ℕ
deps shadow = record { config = config shadow; ports = ports }

abbrev pub fresh : SupervisorState
fresh = record {
  project_id = none;
  work_item_id = some "#7";
  title = none;
  body = none;
  labels = none;
  work_item_url = none;
  harness = none;
  model = none;
  provider = none;
  model_profile = none;
  model_capacity = none;
  credential_profile = none;
  execution_project_id = none;
  worker_id = none;
  worker_status = none;
  review_status = none;
  review_verdict = none;
  review_target_sha = none;
  review_triggered_for_sha = none;
  review_worker_id = none;
  review_run_id = none;
  review_started_at = none;
  review_attempts = none;
  change_id = none;
  change_url = none;
  change_head_sha = none;
  requires_approval = none;
  report_only = none;
  report_started = none;
  report_idle_observations = none;
  approval = none;
  approval_change_id = none;
  approval_target_sha = none;
  status = none;
  last_error = none;
  events = [];
}

abbrev pub world : World ℕ
world = record { env = 0; files = []; held = []; calls = []; resume = none }

first_run : Outcome × World ℕ
first_run = invoke (deps false) fresh world

shadow_run : Outcome × World ℕ
shadow_run = invoke (deps true) fresh world

ending : Outcome → String
ending (finished s) = status_text s.status
ending (paused s) = "paused: " <> status_text s.status
ending (failed e n s) = "failed"
ending out_of_fuel = "fuel"

first_ending : String
first_ending = ending first_run.0

resumed_ending : String
resumed_ending = resumed first_run
  where
    resumed : Outcome × World ℕ → String
    resumed (paused s, w) =
        ending
          (resume_gate (deps false) s
            (record w { resume = some (Response.action (some "approve")) })).0
    resumed (o, w) = "not paused"

shadow_ending : String
shadow_ending = ending shadow_run.0
