-- ===== src/Graph/Locks.antt =====
-- The locks of `ensure_worker` over the whole graph.
use agent_workflow_superviso.Prelude.{
  ℕ, ◌≡◌, refl, false, String, List, [], ◌∷◌, ◌⊎◌, inl, inr, arith,
}
use agent_workflow_superviso.Prelude.{string_eq, option_eq}
use agent_workflow_superviso.Result.{Result}
use agent_workflow_superviso.Models.{ChangeRequest}
use agent_workflow_superviso.Locking.{Files}
use agent_workflow_superviso.Exec.{Exec}
use agent_workflow_superviso.Exec.Relates.{IsPreorder, Relates, relates_rules}
use agent_workflow_superviso.Graph.State.{SupervisorState}
use agent_workflow_superviso.Graph.World.{
  SupervisorDependencies, Lock, Call, Entry, World, perform, call, with_lock, set_files, read_clock,
}
use agent_workflow_superviso.Graph.Delivery.{interrupt}
use agent_workflow_superviso.Graph.Run.{
  Node, guard, load, route, check, ensure, inspect, feedback, verify, approve, merge, cleanup, body,
  run,
}
use agent_workflow_superviso.Graph.Effects.{
  IsRead, IsChange, run-Relates, locked-Relates, guard-Relates, load-Relates, route-Relates,
  check-Relates, inspect-Relates, feedback-Relates, verify-Relates, approve-Relates, merge-Relates,
  cleanup-Relates,
}
use agent_workflow_superviso.Graph.Acquire.{acquire_locked, ensure_worker}

abbrev pub Holds : Lock → List Lock → Type 0
Holds l [] = ⊥
Holds l (k ∷ ks) = (l ≡ k) ⊎ Holds l ks

-- The lock on allocation and the lock of a work item are held.
abbrev pub HoldsBoth : List Lock → Type 0
HoldsBoth held =
    Holds Lock.global_capacity held
    × ((project_id : String) × (work_item_id : String) × Holds
          (Lock.work_item project_id work_item_id) held)

-- A spawn needs both locks; other calls need none.
abbrev pub LockedCall : List Lock → Call → Type 0
LockedCall held (Call.spawn_worker request) = HoldsBoth held
LockedCall held _ = Unit

abbrev pub AllLocked : List Entry → Type 0
AllLocked [] = Unit
AllLocked (e ∷ es) = LockedCall e.held e.call × AllLocked es

read-LockedCall : (held : List Lock) (c : Call) → IsRead c → LockedCall held c
read-LockedCall held (Call.spawn_worker r) h = absurd h
read-LockedCall held _ h = tt

change-LockedCall : (held : List Lock) (c : Call) → IsChange c → LockedCall held c
change-LockedCall held (Call.spawn_worker r) h = absurd h
change-LockedCall held _ h = tt

HoldsBoth-cons : (l : Lock) (held : List Lock) → HoldsBoth held → HoldsBoth (l ∷ held)
HoldsBoth-cons l held (g, (p, i, h)) = (inr g, (p, i, inr h))

module _ {E : Type 0} where
  -- The locks held are the same again, and every spawn was made under both.
  abbrev pub KeepsLocked : World E → World E → Type 0
  KeepsLocked w w' = (w'.held ≡ w.held) × (AllLocked w.calls → AllLocked w'.calls)

  -- The same, where both are held already.
  abbrev Inside : World E → World E → Type 0
  Inside w w' = (w'.held ≡ w.held) × (HoldsBoth w.held → AllLocked w.calls → AllLocked w'.calls)

  KeepsLocked-preorder : IsPreorder KeepsLocked
  KeepsLocked-preorder = record {
    same = λ s. (refl, λ h. h);
    trans = λ s t u p q. (cc, λ h. q.1 (p.1 h));
  }

  Inside-preorder : IsPreorder Inside
  Inside-preorder = record {
    same = λ s. (refl, λ b h. h);
    trans = λ s t u p q. (cc, λ b h. q.1 (rw p.0 b) (p.1 b h));
  }

  lock-Inside :
      (A : Type 0) (l : Lock) (m : Exec (World E) A)
      → Relates Inside m
      → Relates Inside (with_lock l m)
  unfolding with_lock
  lock-Inside A l m km = record {
    at = λ w. (refl, λ b. (km.at (record w { held = l ∷ w.held })).1 (HoldsBoth-cons l w.held b));
  }

  lock-KeepsLocked :
      (A : Type 0) (l : Lock) (m : Exec (World E) A)
      → Relates KeepsLocked m
      → Relates KeepsLocked (with_lock l m)
  unfolding with_lock
  lock-KeepsLocked A l m km = record {
    at = λ w. (refl, (km.at (record w { held = l ∷ w.held })).1);
  }

  both_locks-KeepsLocked :
      {A : Type 0} (p i : String) (m : Exec (World E) A)
      → Relates Inside m
      → Relates KeepsLocked (with_lock Lock.global_capacity (with_lock (Lock.work_item p i) m))
  unfolding with_lock
  both_locks-KeepsLocked p i m km = record {
    at = λ w.
        let held = Lock.work_item p i ∷ Lock.global_capacity ∷ w.held in
        (refl, (km.at (record w { held = held })).1 (inr (inl refl), (p, i, inl refl)));
  }

module _ {E : Type 0} (deps : SupervisorDependencies E) where
  acquire_locked-Inside :
      (s : SupervisorState) (p i : String) → Relates Inside (acquire_locked deps s p i)
  unfolding call perform set_files
  acquire_locked-Inside =
      locked-Relates deps Inside Inside-preorder
        (λ A c f read. record { at = λ w. (refl, λ b h. (read-LockedCall w.held c read, h)) })
        (λ A request f live. record { at = λ w. (refl, λ b h. (b, h)) })
        (λ files. record { at = λ w. (refl, λ b h. h) }) lock-Inside

  ensure-KeepsLocked : (s : SupervisorState) → Relates KeepsLocked (ensure_worker deps s)
  unfolding ensure_worker
  ensure-KeepsLocked s =
      search (relates_rules, KeepsLocked-preorder, both_locks-KeepsLocked, acquire_locked-Inside)
        depth 12

  read-KeepsLocked :
      (A : Type 0) (c : Call) (f : E → Result A × E) → IsRead c → Relates KeepsLocked (call c f)
  unfolding call perform
  read-KeepsLocked A c f read = record { at = λ w. (refl, λ h. (read-LockedCall w.held c read, h)) }

  change-KeepsLocked :
      (A : Type 0) (c : Call) (f : E → Result A × E)
      → IsChange c
      → deps.config.supervisor.shadow_mode ≡ false
      → Relates KeepsLocked (call c f)
  unfolding call perform
  change-KeepsLocked A c f change live = record {
    at = λ w. (refl, λ h. (change-LockedCall w.held c change, h));
  }

  merge-KeepsLocked :
      (A : Type 0) (id sha : String) (f : E → Result A × E)
      → deps.config.supervisor.shadow_mode ≡ false
      → Relates KeepsLocked (call (Call.merge_change id sha) f)
  unfolding call perform
  merge-KeepsLocked A id sha f live = record { at = λ w. (refl, λ h. (tt, h)) }

  get_change-KeepsLocked :
      (id : String) (f : E → Result ChangeRequest × E)
      → Relates KeepsLocked (perform (Call.get_change id) f)
  unfolding perform
  get_change-KeepsLocked id f = record { at = λ w. (refl, λ h. (tt, h)) }

  files-KeepsLocked : (files : Files) → Relates KeepsLocked (set_files {E = E} files)
  unfolding set_files
  files-KeepsLocked files = record { at = λ w. (refl, λ h. h) }

  clock-KeepsLocked : (f : E → ℕ × E) → Relates KeepsLocked (read_clock f)
  unfolding read_clock
  clock-KeepsLocked f = record { at = λ w. (refl, λ h. h) }

  interrupt-KeepsLocked : Relates KeepsLocked (interrupt {E = E})
  unfolding interrupt
  interrupt-KeepsLocked = record { at = λ w. ground arith }

  body-KeepsLocked : (n : Node) (s : SupervisorState) → Relates KeepsLocked (body deps n s)
  unfolding body
  body-KeepsLocked guard s =
      guard-Relates deps KeepsLocked KeepsLocked-preorder read-KeepsLocked change-KeepsLocked
        get_change-KeepsLocked files-KeepsLocked clock-KeepsLocked lock-KeepsLocked
        interrupt-KeepsLocked s
  body-KeepsLocked load s =
      load-Relates deps KeepsLocked KeepsLocked-preorder read-KeepsLocked change-KeepsLocked
        get_change-KeepsLocked files-KeepsLocked clock-KeepsLocked lock-KeepsLocked
        interrupt-KeepsLocked s
  body-KeepsLocked route s =
      route-Relates deps KeepsLocked KeepsLocked-preorder read-KeepsLocked change-KeepsLocked
        get_change-KeepsLocked files-KeepsLocked clock-KeepsLocked lock-KeepsLocked
        interrupt-KeepsLocked s
  body-KeepsLocked check s =
      check-Relates deps KeepsLocked KeepsLocked-preorder read-KeepsLocked change-KeepsLocked
        get_change-KeepsLocked files-KeepsLocked clock-KeepsLocked lock-KeepsLocked
        interrupt-KeepsLocked s
  body-KeepsLocked ensure s = ensure-KeepsLocked s
  body-KeepsLocked inspect s =
      inspect-Relates deps KeepsLocked KeepsLocked-preorder read-KeepsLocked change-KeepsLocked
        get_change-KeepsLocked files-KeepsLocked clock-KeepsLocked lock-KeepsLocked
        interrupt-KeepsLocked s
  body-KeepsLocked feedback s =
      feedback-Relates deps KeepsLocked KeepsLocked-preorder read-KeepsLocked change-KeepsLocked
        get_change-KeepsLocked files-KeepsLocked clock-KeepsLocked lock-KeepsLocked
        interrupt-KeepsLocked s
  body-KeepsLocked verify s =
      verify-Relates deps KeepsLocked KeepsLocked-preorder read-KeepsLocked change-KeepsLocked
        get_change-KeepsLocked files-KeepsLocked clock-KeepsLocked lock-KeepsLocked
        interrupt-KeepsLocked s
  body-KeepsLocked approve s =
      approve-Relates deps KeepsLocked KeepsLocked-preorder read-KeepsLocked change-KeepsLocked
        get_change-KeepsLocked files-KeepsLocked clock-KeepsLocked lock-KeepsLocked
        interrupt-KeepsLocked s
  body-KeepsLocked merge s = merge-Relates deps KeepsLocked KeepsLocked-preorder merge-KeepsLocked s
  body-KeepsLocked cleanup s =
      cleanup-Relates deps KeepsLocked KeepsLocked-preorder read-KeepsLocked change-KeepsLocked
        get_change-KeepsLocked files-KeepsLocked clock-KeepsLocked lock-KeepsLocked
        interrupt-KeepsLocked s

  -- Over a run of any length, from any node and state, every worker is spawned while the lock on
  -- allocation and the lock of a work item are held, and in the end the locks held are those held
  -- at its start, however the run ends.
  pub run-AllLocked :
      (fuel : ℕ) (n : Node) (s : SupervisorState) (w : World E)
      → AllLocked w.calls
      → ((run deps fuel n s w).1.held ≡ w.held) × AllLocked (run deps fuel n s w).1.calls
  run-AllLocked fuel n s w h =
      let (same, keeps) =
        run-Relates deps KeepsLocked KeepsLocked-preorder body-KeepsLocked fuel n s w in
      (same, keeps h)
