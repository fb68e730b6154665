-- ===== src/Locking/Records.antt =====
-- locking.py: reservations of workers, one file for each work item.
-- `sha256` is the hash of the standard library, as hexadecimal text, and `pid` is `os.getpid()`.
use agent_workflow_superviso.Prelude.{
  ℕ, String, ◌<>◌, Bool, false, Option, none, some, List, [], ◌∷◌,
}
use agent_workflow_superviso.Prelude.{if◌then◌else◌, ◌==◌, ◌!=◌, option_eq, string_eq, nat_eq}
use agent_workflow_superviso.Prelude.Dict
use agent_workflow_superviso.Prelude.Dict.{Dict}
use agent_workflow_superviso.Result.{
  value_error, runtime_error, type_error, Result, ok, err, ◌>>=◌, ◌>>◌, or_raise, raise_if,
}
use Prim.Native.Char.{nul}
use Prim.Native.Nat.{Ordering}
use Prim.Native.String
use agent_workflow_superviso.Locking.Contents.{
  Json, null, text, int, Fields, Content, unreadable, undecodable, not_json, not_object, document,
  FileName, record_file, file_name_eq, Files, field, nonempty_text, positive_int, is_null,
  is_unhashable, text_or_null, int_or_null,
}

pub data ReservationState : Type 0 where
  pending worker : ReservationState

pub record AcquisitionRecord : Type 0 where
  pub state : ReservationState
  pub execution_project_id : String
  pub harness : String
  pub worker_id : Option String
  pub model_profile : Option String
  pub model_capacity : Option ℕ
  pub credential_key : Option String
  pub credential_capacity : Option ℕ

-- `f"{a}\0{b}"`
unfoldable pub joined : String → String → String
joined a b = a <> String.◌∷◌ nul b

unfoldable pub state_of : Json → Option ReservationState
state_of (text s) =
    if s == "pending" then some pending else if s == "worker" then some worker else none
state_of _ = none

-- `j is not None and not isinstance(j, str)`, or the text, where the empty text reads as `None`.
unfoldable pub optional_text : Json → Result (Option String)
optional_text null = ok none
optional_text (text s) = ok (if s == "" then none else some s)
optional_text _ = err runtime_error

unfoldable pub optional_capacity : Json → Result (Option ℕ)
unfolding is_null positive_int
optional_capacity j =
    if is_null j
    then ok none
    else elim (positive_int j) [ none ↦ err runtime_error | some n ↦ ok (some n) ]

-- `worker_id if isinstance(worker_id, str) else None`, after the test of a worker's record
unfoldable pub worker_of : ReservationState → Json → Result (Option String)
unfolding nonempty_text
worker_of pending (text s) = ok (some s)
worker_of pending _ = ok none
worker_of worker j = do s ← or_raise (nonempty_text j) runtime_error; ok (some s)

unfoldable pub expected : Option String → String → Result (Unit {0})
expected none s = ok tt
expected (some e) s = raise_if (s != e) runtime_error

unfoldable pub decode_state : Json → Result ReservationState
unfolding state_of is_unhashable
decode_state j = if is_unhashable j then err type_error else or_raise (state_of j) runtime_error

-- `_decode_acquisition_record` of an object; the tests stand in the source's order, which only the
-- kind of the exception shows.
unfoldable pub decode_fields :
    Option String → Option String → Fields → Result (String × String × AcquisitionRecord)
unfolding field nonempty_text optional_text optional_capacity worker_of expected decode_state
decode_fields expected_project_id expected_work_item_id raw = do
  project_id ← or_raise (nonempty_text (field "project_id" raw)) runtime_error
  work_item_id ← or_raise (nonempty_text (field "work_item_id" raw)) runtime_error
  expected expected_project_id project_id
  expected expected_work_item_id work_item_id
  state ← decode_state (field "state" raw)
  execution_project_id ← or_raise (nonempty_text (field "execution_project_id" raw)) runtime_error
  harness ← or_raise (nonempty_text (field "harness" raw)) runtime_error
  worker_id ← worker_of state (field "worker_id" raw)
  model_profile ← optional_text (field "model_profile" raw)
  model_capacity ← optional_capacity (field "model_capacity" raw)
  credential_key ← optional_text (field "credential_key" raw)
  credential_capacity ← optional_capacity (field "credential_capacity" raw)
  ok (
    project_id,
    work_item_id,
    record {
      state = state;
      execution_project_id = execution_project_id;
      harness = harness;
      worker_id = worker_id;
      model_profile = model_profile;
      model_capacity = model_capacity;
      credential_key = credential_key;
      credential_capacity = credential_capacity;
    },
  )

unfoldable pub state_text : ReservationState → String
state_text pending = "pending"
state_text worker = "worker"

-- The payload of `_write_acquisition_record`, its keys sorted.
unfoldable pub encode_record : ℕ → String → String → AcquisitionRecord → Fields
unfolding state_text text_or_null int_or_null
encode_record pid project_id work_item_id r =
    ("credential_capacity", int_or_null r.credential_capacity)
    ∷ ("credential_key", text_or_null r.credential_key)
    ∷ ("execution_project_id", text r.execution_project_id)
    ∷ ("harness", text r.harness)
    ∷ ("model_capacity", int_or_null r.model_capacity)
    ∷ ("model_profile", text_or_null r.model_profile)
    ∷ ("owner_pid", int pid)
    ∷ ("project_id", text project_id)
    ∷ ("state", text (state_text r.state))
    ∷ ("work_item_id", text work_item_id)
    ∷ ("worker_id", text_or_null r.worker_id)
    ∷ []

module _ (sha256 : String → String) where
  -- The record's path of `_paths`.
  unfoldable pub record_path : String → String → FileName
  unfolding joined
  record_path project_id work_item_id = record_file (sha256 (joined project_id work_item_id))

  -- What a read of one record file gives, the caller expecting an owner of it.
  unfoldable pub decode_content :
      Option String → Option String → Content → Result (String × String × AcquisitionRecord)
  decode_content p i unreadable = err runtime_error
  decode_content p i undecodable = err value_error
  decode_content p i not_json = err runtime_error
  decode_content p i not_object = err runtime_error
  decode_content p i (document raw) = decode_fields p i raw

  unfoldable pub read_acquisition_record :
      String → String → Files → Result (Option AcquisitionRecord)
  unfolding record_path decode_content
  read_acquisition_record project_id work_item_id files =
      elim (Dict.get (record_path project_id work_item_id) files) [
        | none ↦ ok none
        | some content ↦ do
          entry ← decode_content (some project_id) (some work_item_id) content
          ok (some entry.2)
      ]

  unfoldable pub write_acquisition_record : ℕ → String → String → AcquisitionRecord → Files → Files
  unfolding record_path encode_record
  write_acquisition_record pid project_id work_item_id r =
      Dict.put (record_path project_id work_item_id)
        (document (encode_record pid project_id work_item_id r))

  -- `clear_acquisition_record`; without a worker the file goes whatever it holds.
  unfoldable pub clear_acquisition_record : String → String → Option String → Files → Result Files
  unfolding record_path
  clear_acquisition_record project_id work_item_id none files =
      ok (Dict.erase (record_path project_id work_item_id) files)
  clear_acquisition_record project_id work_item_id (some worker_id) files = do
    found ← read_acquisition_record project_id work_item_id files
    ok (elim found [
      | none ↦ files
      | some r ↦ elim r.state [
        | pending ↦ files
        | worker ↦
            if r.worker_id == some worker_id
            then Dict.erase (record_path project_id work_item_id) files
            else files
      ]
    ])

-- `sorted(LOCK_ROOT.glob("*.json"))`, with the contents
insert_sorted : String × Content → List (String × Content) → List (String × Content)
insert_sorted e [] = e ∷ []
insert_sorted e (f ∷ fs) =
    let rest = insert_sorted e fs in
    elim (String.compare e.0 f.0) [ Ordering.gt ↦ f ∷ rest | _ ↦ e ∷ f ∷ fs ]

unfoldable pub record_files : Files → List (String × Content)
unfolding insert_sorted
record_files [] = []
record_files ((record_file k, c) ∷ files) = insert_sorted (k, c) (record_files files)
record_files ((_, c) ∷ files) = record_files files

-- `raw.get("project_id") == project_id`
unfoldable pub is_owned : String → Json → Bool
is_owned project_id (text s) = s == project_id
is_owned project_id _ = false

-- One round of `list_acquisition_records`: files of other projects, and what is no JSON, are skipped.
unfoldable pub list_project :
    String → List (String × Content) → Result (List (String × AcquisitionRecord))
unfolding field is_owned
list_project project_id [] = ok []
list_project project_id ((k, unreadable) ∷ rest) = list_project project_id rest
list_project project_id ((k, undecodable) ∷ rest) = err value_error
list_project project_id ((k, not_json) ∷ rest) = list_project project_id rest
list_project project_id ((k, not_object) ∷ rest) = list_project project_id rest
list_project project_id ((k, document raw) ∷ rest) =
    let others = list_project project_id rest in
    if is_owned project_id (field "project_id" raw)
    then (do
      entry ← decode_fields (some project_id) none raw
      records ← others
      ok ((entry.1, entry.2) ∷ records))
    else others

unfoldable pub list_acquisition_records :
    String → Files → Result (List (String × AcquisitionRecord))
unfolding record_files list_project
list_acquisition_records project_id files = list_project project_id (record_files files)

-- `list_all_acquisition_records`: only JSON, system and runtime errors are skipped.
unfoldable pub list_all :
    List (String × Content) → Result (List (String × String × AcquisitionRecord))
list_all [] = ok []
list_all ((k, undecodable) ∷ rest) = err value_error
list_all ((k, document raw) ∷ rest) =
    let others = list_all rest in
    elim (decode_fields none none raw) [
      | ok entry ↦ do records ← others; ok (entry ∷ records)
      | err runtime_error ↦ others
      | err e ↦ err e
    ]
list_all ((k, _) ∷ rest) = list_all rest

unfoldable pub list_all_acquisition_records :
    Files → Result (List (String × String × AcquisitionRecord))
unfolding record_files list_all
list_all_acquisition_records files = list_all (record_files files)
