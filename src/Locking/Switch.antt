-- ===== src/Locking/Switch.antt =====
-- locking.py: the markers of scheduled account switches, and the credential bindings.
-- `alive` is whether `os.kill(pid, 0)` finds a process; `resolve` is `Path(p).expanduser().resolve()`.
use agent_workflow_superviso.Prelude.{
  ℕ, zero, suc, String, Bool, true, false, not, Option, none, some, [], ◌∷◌,
}
use agent_workflow_superviso.Prelude.{if◌then◌else◌, ◌==◌, option_eq, string_eq, nat_eq}
use agent_workflow_superviso.Prelude.Dict
use agent_workflow_superviso.Prelude.Dict.{Dict}
use agent_workflow_superviso.Result.{
  value_error, runtime_error, assertion_error, Result, ok, err, ◌>>=◌, ◌>>◌, or_raise, raise_if,
}
use agent_workflow_superviso.Locking.Contents.{
  Json, null, bool, int, text, Fields, undecodable, document, FileName, marker_file, binding_file,
  file_name_eq, Files, field, nonempty_text, truthy, text_or_null,
}
use agent_workflow_superviso.Locking.Records.{joined}

-- `_process_alive`: `True` is the process 1.
unfoldable pub process_alive : (ℕ → Bool) → Json → Bool
process_alive alive (int zero) = false
process_alive alive (int (suc n)) = alive (suc n)
process_alive alive (bool b) = if b then alive 1 else false
process_alive alive _ = false

-- `j == s`
unfoldable pub is_text : String → Json → Bool
is_text s (text t) = t == s
is_text s _ = false

-- A known directory is a text or `null`.
bound_dir : Json → Result (Bool × Option String)
bound_dir null = ok (true, none)
bound_dir (text s) = ok (true, some s)
bound_dir _ = err runtime_error

module _ (sha256 : String → String) where
  unfoldable pub marker_path : String → FileName
  unfolding joined
  marker_path project_id = marker_file (sha256 (joined "account-switch-pending" project_id))

  unfoldable pub binding_path : String → FileName
  unfolding joined
  binding_path project_id = binding_file (sha256 (joined "execution-credential" project_id))

  -- `_read_account_switch_marker`
  unfoldable pub read_marker : String → Files → Result (Option Fields)
  unfolding marker_path
  read_marker project_id files = elim (Dict.get (marker_path project_id) files) [
    | none ↦ ok none
    | some (document raw) ↦ ok (some raw)
    | some undecodable ↦ err value_error
    | some _ ↦ err runtime_error
  ]

  unfoldable pub write_marker : String → Fields → Files → Files
  unfolding marker_path
  write_marker project_id payload = Dict.put (marker_path project_id) (document payload)

  unfoldable pub mark_account_switch_pending : ℕ → String → String → Files → Files
  unfolding write_marker
  mark_account_switch_pending pid project_id switch_id = write_marker project_id (
      ("project_id", text project_id)
      ∷ ("switch_id", text switch_id)
      ∷ ("owner_pid", int pid)
      ∷ ("helper_pid", null)
      ∷ [])

  unfoldable pub attach_account_switch_helper : String → String → ℕ → Files → Result Files
  unfolding read_marker write_marker field is_text
  attach_account_switch_helper project_id switch_id helper_pid files = do
    found ← read_marker project_id files
    raw ← or_raise found runtime_error
    raise_if (not (is_text switch_id (field "switch_id" raw))) runtime_error
    ok (write_marker project_id (Dict.put "helper_pid" (int helper_pid) raw) files)

  -- Whether a switch is pending, and the files: the marker of a dead process goes.
  unfoldable pub account_switch_pending : (ℕ → Bool) → String → Files → Result (Bool × Files)
  unfolding read_marker process_alive truthy field
  account_switch_pending alive project_id files = do
    found ← read_marker project_id files
    ok (elim found [
      | none ↦ (false, files)
      | some raw ↦
          let helper = field "helper_pid" raw in
          let responsible = if truthy helper then helper else field "owner_pid" raw in
          if process_alive alive responsible
          then (true, files)
          else (false, Dict.erase (marker_path project_id) files)
    ])

  -- The id that a marker known to be pending holds.
  unfoldable pub pending_id : String → Files → Result (Option String)
  unfolding read_marker nonempty_text field
  pending_id project_id files = do
    found ← read_marker project_id files
    raw ← or_raise found assertion_error
    switch_id ← or_raise (nonempty_text (field "switch_id" raw)) runtime_error
    ok (some switch_id)

  unfoldable pub account_switch_id : (ℕ → Bool) → String → Files → Result (Option String × Files)
  unfolding account_switch_pending pending_id
  account_switch_id alive project_id files = do
    (is_pending, files') ← account_switch_pending alive project_id files
    switch_id ← elim is_pending [ true ↦ pending_id project_id files' | false ↦ ok none ]
    ok (switch_id, files')

  unfoldable pub clear_account_switch_pending : String → String → Files → Result Files
  unfolding marker_path field is_text
  clear_account_switch_pending project_id switch_id files =
      elim (Dict.get (marker_path project_id) files) [
        | some (document raw) ↦ ok (
            if is_text switch_id (field "switch_id" raw)
            then Dict.erase (marker_path project_id) files
            else files)
        | some undecodable ↦ err value_error
        | _ ↦ ok files
      ]

  unfoldable pub record_execution_credential_identity :
      (String → String) → String → Option String → Files → Files
  unfolding binding_path text_or_null
  record_execution_credential_identity resolve project_id config_dir =
      Dict.put (binding_path project_id) (
        document (
          (
            "claude_config_dir",
            text_or_null (elim config_dir [ none ↦ none | some d ↦ some (resolve d) ]),
          )
          ∷ ("execution_project_id", text project_id)
          ∷ []))

  -- Whether a binding is known, and its directory.
  unfoldable pub execution_credential_identity : String → Files → Result (Bool × Option String)
  unfolding binding_path field is_text bound_dir
  execution_credential_identity project_id files = elim (Dict.get (binding_path project_id) files) [
    | none ↦ ok (false, none)
    | some undecodable ↦ err value_error
    | some (document raw) ↦
        if is_text project_id (field "execution_project_id" raw)
        then bound_dir (field "claude_config_dir" raw)
        else err runtime_error
    | some _ ↦ err runtime_error
  ]
