-- ===== src/Locking/Clearing.antt =====
-- locking.py: what `clear_acquisition_record` removes, and what damaged files do.
use agent_workflow_superviso.Prelude.{
  String, Option, none, some, ◌≡◌, ◌≢◌, refl, arith, inl, inr, ◌⊎◌,
}
use agent_workflow_superviso.Prelude.{option_eq, string_eq, nat_eq}
use agent_workflow_superviso.Prelude.Dict
use mathlib.Core.Option.{none-ne-some}
use agent_workflow_superviso.Prelude.Dict.{Dict, get-erase_same, get-erase_other}
use agent_workflow_superviso.Result.{ok}
use agent_workflow_superviso.Locking.Contents.{Files, file_name_eq}
use agent_workflow_superviso.Locking.Records.{
  ReservationState, pending, worker, AcquisitionRecord, record_path, read_acquisition_record,
  clear_acquisition_record,
}

state_cases : (s : ReservationState) → (s ≡ pending) ⊎ (s ≡ worker)
state_cases pending = inl refl
state_cases worker = inr refl

-- A record that is of this worker: neither missing nor pending.
pub IsOwn : String → Option AcquisitionRecord → Type 0
IsOwn worker_id found =
    (r : AcquisitionRecord) × (found ≡ some r) × (r.state ≡ worker) × (r.worker_id ≡ some worker_id)

pending-≢-worker : pending ≢ worker
pending-≢-worker h = cc

module _ (sha256 : String → String) (project_id work_item_id worker_id : String) where
  -- The files without the reservation if it was this worker's, and else the files as they were.
  pub ClearAnswer : Option AcquisitionRecord → Files → Files → Type 0
  ClearAnswer found before after =
      (IsOwn worker_id found
        × (after ≡ Dict.erase (record_path sha256 project_id work_item_id) before))
      ⊎ ((¬ IsOwn worker_id found) × (after ≡ before))

  -- Where the reservation can be read, clearing it for a worker returns. It removes the record if it
  -- is of this worker, and changes nothing if it is missing, pending or of another worker.
  pub clear_acquisition_record-ClearAnswer :
      (before : Files) (found : Option AcquisitionRecord)
      → read_acquisition_record sha256 project_id work_item_id before ≡ ok found
      → (after : Files) × (clear_acquisition_record sha256 project_id work_item_id
            (some worker_id)
            before
          ≡ ok after)
        × ClearAnswer found before after
  unfolding clear_acquisition_record ClearAnswer IsOwn
  clear_acquisition_record-ClearAnswer before none e =
      (before, rw e refl, inr (λ own. none-ne-some own.0 own.1, refl))
  clear_acquisition_record-ClearAnswer before (some r) e = elim (state_cases r.state) [
    | inl held ↦ (before, ground arith, inr (λ own. let (s, p, w, q) = own in cc, refl))
    | inr started ↦ elim (option_eq.dec r.worker_id (some worker_id)) [
      | yes own ↦ (
        Dict.erase (record_path sha256 project_id work_item_id) before,
        ground arith,
        inl ((r, refl, started, own), refl),
      )
      | no foreign ↦ (before, ground arith, inr (λ own. let (s, p, w, q) = own in foreign cc, refl))
    ]
  ]
