-- ===== src/Models.antt =====
-- models.py: the values that the workflow and the adapters share.
use agent_workflow_superviso.Prelude.{String, Bool, not, ◌&&◌, Option, List, [], ◌∷◌}
use agent_workflow_superviso.Prelude.{Eq, ◌==◌, contains, option_eq, string_eq, nat_eq, all}
use agent_workflow_superviso.Prelude.Text

-- `labels` is a frozenset; only membership is asked of it.
pub record WorkItem : Type 0 where
  pub id : String
  pub title : String
  pub body : String
  pub labels : List String
  pub url : String

pub record AgentSession : Type 0 where
  pub id : String
  pub role : String
  pub status : String
  pub harness : String
  pub terminated : Bool
  pub work_item_id : Option String
  pub project_id : Option String
  pub display_name : String
  pub created_at : String
  pub updated_at : String
  pub last_activity_at : String

abbrev inactive_statuses : List String
inactive_statuses =
    "completed" ∷ "done" ∷ "error" ∷ "exited" ∷ "failed" ∷ "merged" ∷ "terminated" ∷ []

unfoldable pub active : AgentSession → Bool
active session = not session.terminated && not (contains inactive_statuses session.status)

pub data ReviewVerdict : Type 0 where
  approved changes_requested pending unknown : ReviewVerdict

verdict_discrete : Discrete ReviewVerdict
verdict_discrete = hlevel

instance unfoldable pub verdict_eq : Eq ReviewVerdict
unfolding verdict_discrete
verdict_eq = record { dec = verdict_discrete }

pub record ReviewResult : Type 0 where
  pub status : String
  pub verdict : ReviewVerdict
  pub feedback : String
  pub change_id : Option String
  pub change_url : String
  pub target_sha : String
  pub run_id : String
  pub started_at : String

pub record CheckResult : Type 0 where
  pub name : String
  pub status : String

unfoldable pub successful : CheckResult → Bool
unfolding Text.upper
successful check = contains ("SUCCESS" ∷ "NEUTRAL" ∷ "SKIPPED" ∷ []) (Text.upper check.status)

pub record ChangeRequest : Type 0 where
  pub id : String
  pub url : String
  pub state : String
  pub head_sha : String
  pub draft : Bool
  pub mergeable : Bool
  pub merge_state : String
  pub checks : List CheckResult

unfoldable pub ready : ChangeRequest → Bool
unfolding successful all
ready change =
    Text.upper change.state == "OPEN"
    && not change.draft
    && change.mergeable
    && Text.upper change.merge_state == "CLEAN"
    && all successful change.checks
