-- ===== src/Graph/Effects/Calls.antt =====
-- The calls of the ports, by what they do.
use agent_workflow_superviso.Graph.World.{Call}

-- The calls that only ask.
abbrev pub IsRead : Call → Type 0
IsRead (Call.list_sessions _) = Unit
IsRead (Call.get_session _) = Unit
IsRead (Call.get_review _) = Unit
IsRead (Call.get_work_item _) = Unit
IsRead (Call.get_change _ _) = Unit
IsRead _ = ⊥

-- The calls that change the outside, but for the spawn and the merge.
abbrev pub IsChange : Call → Type 0
IsChange (Call.trigger_review _) = Unit
IsChange (Call.cancel_review _) = Unit
IsChange (Call.send _ _) = Unit
IsChange (Call.terminate _ _) = Unit
IsChange _ = ⊥
