-- ===== src/Graph/MergeTrace.antt =====
-- Every merge of a run follows the tracker's answer that the change is ready at that head.
use agent_workflow_superviso.Prelude.{
  ap, ◌∙◌, ℕ, zero, suc, ◌≡◌, ◌≢◌, refl, false, Option, some, String, List, ◌∷◌, inl, inr, arith,
}
use agent_workflow_superviso.Prelude.{string_eq, option_eq, Option-cases}
use agent_workflow_superviso.Result.{interrupted, Result, ok, err}
use agent_workflow_superviso.Models.{ChangeRequest}
use agent_workflow_superviso.Locking.{Files}
use agent_workflow_superviso.Exec.{Exec, ◌>>=◌}
use agent_workflow_superviso.Exec.Relates.{IsPreorder, Relates}
use agent_workflow_superviso.Graph.State.{Status, SupervisorState}
use agent_workflow_superviso.Graph.World.{
  SpawnRequest, SupervisorDependencies, Lock, Call, Entry, World, perform, call, with_lock,
  set_files, read_clock,
}
use agent_workflow_superviso.Graph.Delivery.{interrupt, merge_change}
use agent_workflow_superviso.Graph.Run.{
  Node, guard, load, route, check, ensure, inspect, feedback, verify, approve, merge, cleanup, body,
  next, Outcome, move, follow, run,
}
use agent_workflow_superviso.Graph.Effects.{
  IsRead, IsChange, ensure-Relates, guard-Relates, load-Relates, route-Relates, check-Relates,
  inspect-Relates, feedback-Relates, verify-Relates, approve-Relates, cleanup-Relates,
}
use agent_workflow_superviso.Graph.MergeSafety.{
  IsMergeReady, AllGuarded, GuardedCall, verify_change-IsMergeReady,
}

module _ {E : Type 0} (deps : SupervisorDependencies E) where
  abbrev KeepsGuarded : World E → World E → Type 0
  KeepsGuarded w w' = AllGuarded w.calls → AllGuarded w'.calls

  KeepsGuarded-preorder : IsPreorder KeepsGuarded
  KeepsGuarded-preorder = record { same = λ s h. h; trans = λ s t u p q h. q (p h) }

  read-GuardedCall : (c : Call) (earlier : List Entry) → IsRead c → GuardedCall c earlier
  read-GuardedCall (Call.merge_change id sha) earlier h = absurd h
  read-GuardedCall _ earlier h = tt

  change-GuardedCall : (c : Call) (earlier : List Entry) → IsChange c → GuardedCall c earlier
  change-GuardedCall (Call.merge_change id sha) earlier h = absurd h
  change-GuardedCall _ earlier h = tt

  -- The merge itself, where the verification has just been.
  merge_change-AllGuarded :
      (s : SupervisorState) (w : World E)
      → IsMergeReady s w
      → AllGuarded w.calls
      → AllGuarded (merge_change deps s w).1.calls
  unfolding merge_change ◌>>=◌ call perform
  merge_change-AllGuarded s w r h = ground (arith, r.named, r.same_head, r.answered, r.is_ready)

  read-Keeps :
      (A : Type 0) (c : Call) (f : E → Result A × E) → IsRead c → Relates KeepsGuarded (call c f)
  unfolding call perform
  read-Keeps A c f read = record { at = λ w h. (read-GuardedCall c w.calls read, h) }

  change-Keeps :
      (A : Type 0) (c : Call) (f : E → Result A × E)
      → IsChange c
      → deps.config.supervisor.shadow_mode ≡ false
      → Relates KeepsGuarded (call c f)
  unfolding call perform
  change-Keeps A c f change live = record { at = λ w h. (change-GuardedCall c w.calls change, h) }

  spawn-Keeps :
      (A : Type 0) (request : SpawnRequest) (f : E → Result A × E)
      → deps.config.supervisor.shadow_mode ≡ false
      → Relates KeepsGuarded (call (Call.spawn_worker request) f)
  unfolding call perform
  spawn-Keeps A request f live = record { at = λ w h. (tt, h) }

  get_change-Keeps :
      (id : String) (f : E → Result ChangeRequest × E)
      → Relates KeepsGuarded (perform (Call.get_change id) f)
  unfolding perform
  get_change-Keeps id f = record { at = λ w h. (tt, h) }

  files-Keeps : (files : Files) → Relates KeepsGuarded (set_files files)
  unfolding set_files
  files-Keeps files = record { at = λ w h. h }

  clock-Keeps : (f : E → ℕ × E) → Relates KeepsGuarded (read_clock f)
  unfolding read_clock
  clock-Keeps f = record { at = λ w h. h }

  lock-Keeps :
      (A : Type 0) (l : Lock) (m : Exec (World E) A)
      → Relates KeepsGuarded m
      → Relates KeepsGuarded (with_lock l m)
  unfolding with_lock
  lock-Keeps A l m km = record { at = λ w. km.at (record w { held = l ∷ w.held }) }

  interrupt-Keeps : Relates KeepsGuarded interrupt
  unfolding interrupt
  interrupt-Keeps = record { at = λ w h. ground arith }

  body-KeepsGuarded :
      (n : Node) (s : SupervisorState) → n ≢ merge → Relates KeepsGuarded (body deps n s)
  unfolding body
  body-KeepsGuarded guard s h =
      guard-Relates deps KeepsGuarded KeepsGuarded-preorder read-Keeps change-Keeps get_change-Keeps
        files-Keeps clock-Keeps lock-Keeps interrupt-Keeps s
  body-KeepsGuarded load s h =
      load-Relates deps KeepsGuarded KeepsGuarded-preorder read-Keeps change-Keeps get_change-Keeps
        files-Keeps clock-Keeps lock-Keeps interrupt-Keeps s
  body-KeepsGuarded route s h =
      route-Relates deps KeepsGuarded KeepsGuarded-preorder read-Keeps change-Keeps get_change-Keeps
        files-Keeps clock-Keeps lock-Keeps interrupt-Keeps s
  body-KeepsGuarded check s h =
      check-Relates deps KeepsGuarded KeepsGuarded-preorder read-Keeps change-Keeps get_change-Keeps
        files-Keeps clock-Keeps lock-Keeps interrupt-Keeps s
  body-KeepsGuarded ensure s h =
      ensure-Relates deps KeepsGuarded KeepsGuarded-preorder read-Keeps spawn-Keeps files-Keeps
        lock-Keeps s
  body-KeepsGuarded inspect s h =
      inspect-Relates deps KeepsGuarded KeepsGuarded-preorder read-Keeps change-Keeps
        get_change-Keeps files-Keeps clock-Keeps lock-Keeps interrupt-Keeps s
  body-KeepsGuarded feedback s h =
      feedback-Relates deps KeepsGuarded KeepsGuarded-preorder read-Keeps change-Keeps
        get_change-Keeps files-Keeps clock-Keeps lock-Keeps interrupt-Keeps s
  body-KeepsGuarded verify s h =
      verify-Relates deps KeepsGuarded KeepsGuarded-preorder read-Keeps change-Keeps
        get_change-Keeps files-Keeps clock-Keeps lock-Keeps interrupt-Keeps s
  body-KeepsGuarded approve s h =
      approve-Relates deps KeepsGuarded KeepsGuarded-preorder read-Keeps change-Keeps
        get_change-Keeps files-Keeps clock-Keeps lock-Keeps interrupt-Keeps s
  body-KeepsGuarded merge s h = absurd (h refl)
  body-KeepsGuarded cleanup s h =
      cleanup-Relates deps KeepsGuarded KeepsGuarded-preorder read-Keeps change-Keeps
        get_change-Keeps files-Keeps clock-Keeps lock-Keeps interrupt-Keeps s

-- Only the verification leads to the merge, and only by this status.
next-merge :
    (n : Node) (status : Option Status)
    → next n status ≡ some merge
    → (n ≡ verify) × (status ≡ some Status.ready_to_merge)
unfolding next
next-merge verify status e = ground arith
next-merge _ status e = ground arith

module _ {E : Type 0} (deps : SupervisorDependencies E) where
  body-AllGuarded :
      (n : Node) (s : SupervisorState) (w : World E)
      → (n ≡ merge → IsMergeReady s w)
      → AllGuarded w.calls
      → AllGuarded (body deps n s w).1.calls
  unfolding body
  body-AllGuarded merge s w r h = merge_change-AllGuarded deps s w (r refl) h
  body-AllGuarded n s w r h = (body-KeepsGuarded deps n s (λ p. cc)).at w h

  body-IsMergeReady :
      (n : Node) (s s' : SupervisorState) (w : World E)
      → (body deps n s w).0 ≡ ok s'
      → next n s'.status ≡ some merge
      → IsMergeReady s' (body deps n s w).1
  unfolding body
  body-IsMergeReady verify s s' w r e =
      verify_change-IsMergeReady deps s s' w r (next-merge verify s'.status e).1
  body-IsMergeReady n s s' w r e = absurd (ground (arith, next-merge n s'.status e))

  follow-AllGuarded :
      (rest : Node → SupervisorState → World E → Outcome × World E) (n : Node) (s : SupervisorState)
      (r : Result SupervisorState) (w : World E)
      → AllGuarded w.calls
      → ((m : Node) (s' : SupervisorState)
          → r ≡ ok s'
          → next n s'.status ≡ some m
          → AllGuarded (rest m s' w).1.calls)
      → AllGuarded (follow rest (move n s r) w).1.calls
  unfolding follow move
  follow-AllGuarded rest n s (err interrupted) w g h = g
  follow-AllGuarded rest n s (err _) w g h = g
  follow-AllGuarded rest n s (ok s') w g h = elim (Option-cases (next n s'.status)) [
    | inl e ↦ rw (e, follow) g
    | inr (m, e) ↦ rw (e, follow) (h m s' refl e)
  ]

  -- Over a run of any length that does not start at the merge, each merge of a change at a head comes
  -- directly after the tracker has answered, for the same change, that its head is that one and that
  -- it is ready: open, no draft, mergeable, clean and with every check successful.
  pub run-AllGuarded :
      (fuel : ℕ) (n : Node) (s : SupervisorState) (w : World E)
      → (n ≡ merge → IsMergeReady s w)
      → AllGuarded w.calls
      → AllGuarded (run deps fuel n s w).1.calls
  unfolding run
  run-AllGuarded zero n s w r h = h
  run-AllGuarded (suc fuel) n s w r h =
      let after = (body deps n s w).1 in
      follow-AllGuarded (run deps fuel) n s (body deps n s w).0 after (body-AllGuarded n s w r h)
        λ m s' result e.
          run-AllGuarded fuel m s' after (λ p. body-IsMergeReady n s s' w result (e ∙ ap some p))
            (body-AllGuarded n s w r h)
