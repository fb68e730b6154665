-- ===== src/AccountSwitch/Cleanup.antt =====
-- account_switch.py: no switch leaves its own marker behind.
use agent_workflow_superviso.Prelude.{
  String, Bool, false, none, some, ◌≡◌, inl, inr, refl, Bool-cases, Option-cases,
}
use agent_workflow_superviso.Prelude.{string_eq}
use agent_workflow_superviso.Prelude.Dict
use agent_workflow_superviso.Result.{
  Error, value_error, runtime_error, Result, ok, err, Result-cases,
}
use agent_workflow_superviso.Locking.{
  Content, file_name_eq, undecodable, not_json, not_object, document, Files, Fields, field, is_text,
  marker_path, read_marker, clear_account_switch_pending,
}
use agent_workflow_superviso.AccountSwitch.Helper.{
  Ao, Desk, Switched, bound, clear, wait_until_idle, run_switch,
}

module _ (sha256 : String → String) (project_id : String) where
  -- The marker is not readable, or it is not there, or another switch's.
  pub data IsCleared (switch_id : String) (files : Files) : Type 0 where
    unreadable :
        (e : Error) → read_marker sha256 project_id files ≡ err e → IsCleared switch_id files
    missing : read_marker sha256 project_id files ≡ ok none → IsCleared switch_id files
    other :
        (raw : Fields)
        → read_marker sha256 project_id files ≡ ok (some raw)
        → is_text switch_id (field "switch_id" raw) ≡ false
        → IsCleared switch_id files

  erased :
      (files : Files)
      → read_marker sha256 project_id (Dict.erase (marker_path sha256 project_id) files) ≡ ok none
  unfolding read_marker
  erased files = rw (Dict.get-erase_same (marker_path sha256 project_id) files, read_marker) refl

  -- What the clearing leaves in the files; where it raises, what was there.
  abbrev kept : Files → Result Files → Files
  kept before (ok after) = after
  kept before (err e) = before

  abbrev left : String → Files → Files
  left switch_id files = kept files (clear_account_switch_pending sha256 project_id switch_id files)

  cleared :
      (switch_id : String) (c : Content) (files : Files)
      → Dict.get (marker_path sha256 project_id) files ≡ some c
      → IsCleared switch_id (left switch_id files)
  unfolding read_marker clear_account_switch_pending
  cleared switch_id (document raw) files found =
      elim (Bool-cases (is_text switch_id (field "switch_id" raw))) [
        | inl own ↦ rw (found, clear_account_switch_pending, own) (missing (erased files))
        | inr differ ↦
            rw (found, clear_account_switch_pending, differ)
              (other raw (rw (found, read_marker) refl) differ)
      ]
  cleared switch_id undecodable files found =
      rw (found, clear_account_switch_pending)
        (unreadable value_error (rw (found, read_marker) refl))
  cleared switch_id Content.unreadable files found =
      rw (found, clear_account_switch_pending)
        (unreadable runtime_error (rw (found, read_marker) refl))
  cleared switch_id not_json files found =
      rw (found, clear_account_switch_pending)
        (unreadable runtime_error (rw (found, read_marker) refl))
  cleared switch_id not_object files found =
      rw (found, clear_account_switch_pending)
        (unreadable runtime_error (rw (found, read_marker) refl))

  left-IsCleared : (switch_id : String) (files : Files) → IsCleared switch_id (left switch_id files)
  unfolding clear_account_switch_pending read_marker
  left-IsCleared switch_id files =
      elim (Option-cases (Dict.get (marker_path sha256 project_id) files)) [
        | inr (c, found) ↦ cleared switch_id c files found
        | inl none_found ↦
            rw (none_found, clear_account_switch_pending)
              (missing (rw (none_found, read_marker) refl))
      ]

module _ {E : Type 0} (sha256 : String → String) (ao : Ao E)
    (bind : Bool → Desk E → Result String × Desk E) where
  clear-left :
      (project_id switch_id : String) (r : Switched) (d : Desk E)
      → (clear sha256 ao bind project_id (some switch_id) (r, d)).1.files
        ≡ left sha256 project_id switch_id d.files
  unfolding clear
  clear-left project_id switch_id r d =
      elim (Result-cases (clear_account_switch_pending sha256 project_id switch_id d.files)) [
        | inl (files, done) ↦ rw (done, clear) refl
        | inr (e, failed) ↦ rw (failed, clear) refl
      ]

  -- However the wait for the session ends, and whatever the switch of the account does to the files or
  -- raises: after a run of the helper with an id, the project's marker is not that of this switch. It is
  -- gone, or another switch's, or cannot be read.
  pub run_switch-IsCleared :
      (project_id session_id switch_id : String) (d : Desk E)
      → IsCleared sha256 project_id switch_id
          (run_switch sha256 ao bind project_id session_id (some switch_id) d).1.files
  unfolding run_switch
  run_switch-IsCleared project_id session_id switch_id d =
      let (r, d') =
        bound sha256 ao bind (wait_until_idle ao project_id session_id 300000000 d.env) d.files in
      rw (clear-left project_id switch_id r d')
        (left-IsCleared sha256 project_id switch_id d'.files)
