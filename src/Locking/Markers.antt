-- ===== src/Locking/Markers.antt =====
-- locking.py: the life of an account-switch marker.
use agent_workflow_superviso.Prelude.{
  ℕ, suc, String, Bool, true, false, none, some, [], ◌∷◌, ◌≡◌, ◌≢◌, refl, sym, arith, inl, inr, ◌⊎◌,
  Bool-cases,
}
use agent_workflow_superviso.Prelude.{option_eq, string_eq, nat_eq}
use agent_workflow_superviso.Prelude.Dict
use agent_workflow_superviso.Prelude.Dict.{get-put_same}
use agent_workflow_superviso.Result.{ok}
use agent_workflow_superviso.Locking.Contents.{
  null, int, text, Fields, document, Files, file_name_eq, field, truthy, nonempty_text,
}
use agent_workflow_superviso.Locking.Switch.{
  process_alive, is_text, marker_path, read_marker, write_marker, mark_account_switch_pending,
  account_switch_pending, pending_id, account_switch_id, clear_account_switch_pending,
}

module _ (sha256 : String → String) (project_id : String) where
  marker : ℕ → String → Fields
  marker pid switch_id =
      ("project_id", text project_id)
      ∷ ("switch_id", text switch_id)
      ∷ ("owner_pid", int pid)
      ∷ ("helper_pid", null)
      ∷ []

  read_marked :
      (pid : ℕ) (switch_id : String) (files : Files)
      → Dict.get
          (marker_path sha256 project_id)
          (mark_account_switch_pending sha256 pid project_id switch_id files)
        ≡ some (document (marker pid switch_id))
  unfolding mark_account_switch_pending write_marker marker
  read_marked pid switch_id files =
      get-put_same (marker_path sha256 project_id) (document (marker pid switch_id)) files

  module _ (pid : ℕ) (switch_id : String) (files : Files)
      (found : Dict.get (marker_path sha256 project_id) files
        ≡ some (document (marker pid switch_id))) where
    read_lem : read_marker sha256 project_id files ≡ ok (some (marker pid switch_id))
    unfolding read_marker
    read_lem = rw (found, read_marker) refl

    pending_lem :
        (alive : ℕ → Bool)
        → process_alive alive (int pid) ≡ true
        → account_switch_pending sha256 alive project_id files ≡ ok (true, files)
    unfolding account_switch_pending marker field truthy Dict.get string_eq nat_eq
    pending_lem alive lives = rw (read_lem, lives) refl

    reclaimed_lem :
        (alive : ℕ → Bool)
        → process_alive alive (int pid) ≡ false
        → account_switch_pending sha256 alive project_id files
          ≡ ok (false, Dict.erase (marker_path sha256 project_id) files)
    unfolding account_switch_pending marker field truthy Dict.get string_eq nat_eq
    reclaimed_lem alive dead = rw (read_lem, dead) refl

    named_lem :
        switch_id ≢ "" → nonempty_text (field "switch_id" (marker pid switch_id)) ≡ some switch_id
    unfolding nonempty_text marker field Dict.get string_eq
    named_lem named = ground arith

    pending_id_lem : switch_id ≢ "" → pending_id sha256 project_id files ≡ ok (some switch_id)
    unfolding pending_id
    pending_id_lem named = rw (read_lem, named_lem named) refl

    switch_field : field "switch_id" (marker pid switch_id) ≡ text switch_id
    unfolding marker field Dict.get string_eq
    switch_field = refl

    is_own : is_text switch_id (field "switch_id" (marker pid switch_id)) ≡ true
    unfolding is_text
    is_own = rw switch_field (ground arith)

    is_other :
        (other : String)
        → switch_id ≢ other
        → is_text other (field "switch_id" (marker pid switch_id)) ≡ false
    unfolding is_text
    is_other other differ = rw switch_field (ground arith)

    clear_own :
        clear_account_switch_pending sha256 project_id switch_id files
        ≡ ok (Dict.erase (marker_path sha256 project_id) files)
    unfolding clear_account_switch_pending
    clear_own = rw (found, clear_account_switch_pending, is_own) refl

    clear_other :
        (other : String)
        → switch_id ≢ other
        → clear_account_switch_pending sha256 project_id other files ≡ ok files
    unfolding clear_account_switch_pending
    clear_other other differ = rw (found, clear_account_switch_pending, is_other other differ) refl

  -- After a switch with a nonempty id is marked by a process with a positive id, its id is reported
  -- while that process lives, with the files as they are; once it is dead, no switch is reported and
  -- the marker is gone.
  pub account_switch_id-mark :
      (alive : ℕ → Bool) (n : ℕ) (switch_id : String) (files : Files)
      → switch_id ≢ ""
      → let marked = mark_account_switch_pending sha256 (suc n) project_id switch_id files in
        ((alive (suc n) ≡ true)
          × (account_switch_id sha256 alive project_id marked ≡ ok (some switch_id, marked)))
        ⊎ ((alive (suc n) ≡ false)
            × (account_switch_id sha256 alive project_id marked
                ≡ ok (none, Dict.erase (marker_path sha256 project_id) marked)))
  unfolding account_switch_id process_alive
  account_switch_id-mark alive n switch_id files named =
      let marked = mark_account_switch_pending sha256 (suc n) project_id switch_id files in
      let found = read_marked (suc n) switch_id files in
      elim (Bool-cases (alive (suc n))) [
        | inl lives ↦ inl (
          lives,
          rw
              (
                pending_lem (suc n) switch_id marked found alive lives,
                pending_id_lem (suc n) switch_id marked found named,
              )
              refl,
        )
        | inr dead ↦ inr (dead, rw (reclaimed_lem (suc n) switch_id marked found alive dead) refl)
      ]

  -- Clearing a marked switch under its own id removes the marker; under another id nothing changes.
  pub clear-mark :
      (pid : ℕ) (switch_id other : String) (files : Files)
      → let marked = mark_account_switch_pending sha256 pid project_id switch_id files in
        ((switch_id ≡ other)
          × (clear_account_switch_pending sha256 project_id other marked
              ≡ ok (Dict.erase (marker_path sha256 project_id) marked)))
        ⊎ ((switch_id ≢ other)
            × (clear_account_switch_pending sha256 project_id other marked ≡ ok marked))
  clear-mark pid switch_id other files =
      let marked = mark_account_switch_pending sha256 pid project_id switch_id files in
      let found = read_marked pid switch_id files in
      elim (string_eq.dec switch_id other) [
        | yes same ↦ inl (same, rw (sym same) (clear_own pid switch_id marked found))
        | no differ ↦ inr (differ, clear_other pid switch_id marked found other differ)
      ]
