-- ===== src/Graph/Shadow.antt =====
-- Shadow mode over the whole graph: the runner and the tracker are only asked.
use agent_workflow_superviso.Prelude.{ℕ, ◌≡◌, true, List, [], ◌∷◌, arith}
use agent_workflow_superviso.Prelude.{string_eq, option_eq}
use agent_workflow_superviso.Exec.Relates.{IsPreorder, Relates}
use agent_workflow_superviso.Graph.State.{SupervisorState}
use agent_workflow_superviso.Graph.World.{
  SupervisorDependencies, Entry, World, perform, call, with_lock, set_files, read_clock,
}
use agent_workflow_superviso.Graph.Delivery.{interrupt}
use agent_workflow_superviso.Graph.Run.{Node, body, run}
use agent_workflow_superviso.Graph.Effects.{IsRead, body-Relates, run-Relates}

-- Every call that was made only asks.
abbrev pub AllReads : List Entry → Type 0
AllReads [] = Unit
AllReads (e ∷ es) = IsRead e.call × AllReads es

module _ {E : Type 0} (deps : SupervisorDependencies E) where
  abbrev KeepsReads : World E → World E → Type 0
  KeepsReads w w' = AllReads w.calls → AllReads w'.calls

  KeepsReads-preorder : IsPreorder KeepsReads
  KeepsReads-preorder = record { same = λ s h. h; trans = λ s t u p q h. q (p h) }

  module _ (shadow : deps.config.supervisor.shadow_mode ≡ true) where
    body-KeepsReads : (n : Node) (s : SupervisorState) → Relates KeepsReads (body deps n s)
    unfolding call perform set_files read_clock with_lock interrupt
    body-KeepsReads =
        body-Relates deps KeepsReads KeepsReads-preorder
          (λ A c f read. record { at = λ w h. (read, h) }) (λ A c f change live. cc)
          (λ A request f live. cc) (λ A id sha f live. cc) (λ id f. record { at = λ w h. (tt, h) })
          (λ files. record { at = λ w h. h }) (λ f. record { at = λ w h. h })
          (λ A l m km. record { at = λ w. km.at (record w { held = l ∷ w.held }) })
          (record { at = λ w h. ground arith })

    -- In shadow mode a run of any length, from any node and any state, makes no call that changes
    -- the outside: no spawn, review, cancellation, message, termination or merge.
    pub run-AllReads :
        (fuel : ℕ) (n : Node) (s : SupervisorState) (w : World E)
        → AllReads w.calls
        → AllReads (run deps fuel n s w).1.calls
    run-AllReads = run-Relates deps KeepsReads KeepsReads-preorder body-KeepsReads
