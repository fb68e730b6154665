-- ===== src/Graph/MergeSafety.antt =====
-- What stands behind every merge: the answer of the tracker just before it, the review and the approval.
use agent_workflow_superviso.Prelude.{
  sym, ap, ◌∙◌, ◌≡◌, ◌≢◌, refl, false, true, Option, none, some, String, List, [], ◌∷◌, ◌⊎◌, inl,
  inr, arith,
}
use agent_workflow_superviso.Prelude.{string_eq, option_eq, Option-cases}
use agent_workflow_superviso.Result.{ok, Result-cases}
use agent_workflow_superviso.Models.{ChangeRequest, ready}
use agent_workflow_superviso.Exec.{◌>>=◌}
use agent_workflow_superviso.Graph.State.{Status, SupervisorState, event, or_default}
use agent_workflow_superviso.Graph.World.{SupervisorDependencies, Lock, Call, Entry, World, perform}
use agent_workflow_superviso.Graph.Delivery.{verified_state, verify_change, approval_matches}

-- The tracker has just answered that this change is ready, at the head that the review was of; and
-- where an approval is required, it was given for this change and head.
pub record IsMergeReady {E : Type 0} (s : SupervisorState) (w : World E) : Type 0 where
  pub change : ChangeRequest
  pub id : String
  pub held : List Lock
  pub earlier : List Entry
  pub named : s.change_id ≡ some id
  pub answered : w.calls ≡ record { held = held; call = Call.get_change id (ok change) } ∷ earlier
  pub is_ready : ready change ≡ true
  pub same_head : s.change_head_sha ≡ some change.head_sha
  pub reviewed : s.review_target_sha ≡ some change.head_sha
  pub head_known : change.head_sha ≢ ""
  pub allowed : or_default s.requires_approval false ≡ true → approval_matches s change ≡ true

-- The answer that a merge needs directly before it.
abbrev pub Answers : String → String → Call → Type 0
Answers id sha (Call.get_change j (ok change)) =
    (j ≡ id) × (change.head_sha ≡ sha) × (ready change ≡ true)
Answers id sha _ = ⊥

abbrev pub JustAnswered : String → String → List Entry → Type 0
JustAnswered id sha [] = ⊥
JustAnswered id sha (e ∷ es) = Answers id sha e.call

abbrev pub GuardedCall : Call → List Entry → Type 0
GuardedCall (Call.merge_change id sha) earlier = JustAnswered id sha earlier
GuardedCall _ earlier = Unit

-- Each merge among the calls follows such an answer.
abbrev pub AllGuarded : List Entry → Type 0
AllGuarded [] = Unit
AllGuarded (e ∷ es) = GuardedCall e.call es × AllGuarded es

some_default :
    (o : Option String) {t : String} → t ≡ or_default o "" → or_default o "" ≢ "" → o ≡ some t
some_default none e known = absurd (known refl)
some_default (some a) e known = cc

module _ {E : Type 0} (deps : SupervisorDependencies E) where
  verified-IsMergeReady :
      (s : SupervisorState) (sha : String) (change : ChangeRequest)
      → (verified_state s sha change).status ≡ some Status.ready_to_merge
      → (ready change ≡ true)
        × (change.head_sha ≡ sha)
        × (or_default s.requires_approval false ≡ true → approval_matches s change ≡ true)
  unfolding verified_state event
  verified-IsMergeReady s sha change h = (ground arith, ground arith, λ r. ground arith)

  -- What the verification leaves alone, and the head that it writes down.
  verified_state-kept :
      (s : SupervisorState) (sha : String) (change : ChangeRequest)
      → let v = verified_state s sha change in
        (v.change_id ≡ s.change_id)
        × (v.review_target_sha ≡ s.review_target_sha)
        × (v.requires_approval ≡ s.requires_approval)
        × (approval_matches v change ≡ approval_matches s change)
        × (v.change_head_sha ≡ some change.head_sha)
  unfolding verified_state approval_matches
  verified_state-kept s sha change =
      (ground arith, ground arith, ground arith, ground arith, ground arith)

  -- The verification after the tracker has answered.
  verify_change-answered :
      (s : SupervisorState) (w : World E) (id : String) (change : ChangeRequest)
      → or_default s.review_target_sha "" ≢ ""
      → s.change_id ≡ some id
      → (deps.get_change id w.env).0 ≡ ok change
      → ((verify_change deps s w).0
          ≡ ok (verified_state s (or_default s.review_target_sha "") change))
        × ((verify_change deps s w).1.calls
            ≡ record { held = w.held; call = Call.get_change id (ok change) } ∷ w.calls)
  unfolding verify_change ◌>>=◌ perform
  verify_change-answered s w id change known named answer = (ground arith, ground arith)

  verify_change-eq-ok :
      (s s' : SupervisorState) (w : World E)
      → (verify_change deps s w).0 ≡ ok s'
      → (s'.status ≡ some Status.review_invalid)
        ⊎ ((id : String) × (change : ChangeRequest) × (or_default s.review_target_sha "" ≢ "")
            × (s.change_id ≡ some id)
            × ((deps.get_change id w.env).0 ≡ ok change))
  unfolding verify_change ◌>>=◌ perform event
  verify_change-eq-ok s s' w h = elim (string_eq.dec (or_default s.review_target_sha "") "") [
    | yes p ↦ inl (ground arith)
    | no p ↦ elim (Option-cases s.change_id) [
      | inl e ↦ absurd (ground arith)
      | inr (id, e) ↦ elim (Result-cases (deps.get_change id w.env).0) [
        | inl (change, a) ↦ inr (id, change, p, e, a)
        | inr (x, a) ↦ absurd (ground arith)
      ]
    ]
  ]

  -- When the verification sends the run to the merge, the tracker has just answered that the change
  -- is ready, its head is the known head that the approved review was of, and where an approval is
  -- required, it was recorded for this change and this head.
  pub verify_change-IsMergeReady :
      (s s' : SupervisorState) (w : World E)
      → (verify_change deps s w).0 ≡ ok s'
      → s'.status ≡ some Status.ready_to_merge
      → IsMergeReady s' (verify_change deps s w).1
  verify_change-IsMergeReady s s' w h ready_status = elim (verify_change-eq-ok s s' w h) [
    | inl invalid ↦ absurd (ground arith)
    | inr (id, change, known, named, answer) ↦
        let (result, calls) = verify_change-answered s w id change known named answer in
        let e : s' ≡ verified_state s (or_default s.review_target_sha "") change = cc in
        let (is_ready, head, allowed) = verified-IsMergeReady s _ change (rw e at ready_status) in
        let kept = verified_state-kept s (or_default s.review_target_sha "") change in
        record {
          change = change;
          id = id;
          held = w.held;
          earlier = w.calls;
          named = cc (kept.0);
          answered = calls;
          is_ready = is_ready;
          same_head = cc (kept.4);
          reviewed = rw e (rw kept.1 (some_default s.review_target_sha head known));
          head_known = λ p. known (cc);
          allowed = rw e (λ r. kept.3 ∙ allowed (sym (ap (λ o. or_default o false) kept.2) ∙ r));
        }
  ]
