-- ===== src/Graph/Sanctions.antt =====
-- graph.py: the recorded approval, and what changes it.
pub mod Bodies
mod Nodes
mod Inspection
mod Acquisition
use agent_workflow_superviso.Prelude.{◌≡◌}
use agent_workflow_superviso.Graph.State.{SupervisorState}

-- The decision, and the change and the head that it was for.
abbrev pub SameApproval : SupervisorState → SupervisorState → Type 0
SameApproval s s' =
    (s'.approval ≡ s.approval)
    × (s'.approval_change_id ≡ s.approval_change_id)
    × (s'.approval_target_sha ≡ s.approval_target_sha)
