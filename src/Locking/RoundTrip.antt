-- ===== src/Locking/RoundTrip.antt =====
-- locking.py: what a reservation's record file gives back after `_write_acquisition_record`.
use agent_workflow_superviso.Prelude.{ℕ, String, Option, none, some, ◌≡◌, ◌≢◌, refl, arith, ◌≤◌}
use agent_workflow_superviso.Prelude.{option_eq, string_eq, nat_eq}
use agent_workflow_superviso.Prelude.Dict
use agent_workflow_superviso.Prelude.Dict.{Dict, get-put_same, get-put_other}
use agent_workflow_superviso.Result.{ok, ◌>>=◌}
use agent_workflow_superviso.Locking.Contents.{
  text, Fields, Content, document, record_file, file_name_eq, Files, field, nonempty_text,
  positive_int, is_null, is_unhashable, text_or_null, int_or_null,
}
use agent_workflow_superviso.Locking.Records.{
  ReservationState, pending, worker, AcquisitionRecord, joined, state_of, optional_text,
  optional_capacity, worker_of, expected, decode_state, decode_fields, state_text, encode_record,
  record_path, decode_content, read_acquisition_record, write_acquisition_record,
}

-- An optional text is not the empty one.
unfoldable pub IsNamed : Option String → Type 0
IsNamed o = (s : String) → o ≡ some s → s ≢ ""

-- An optional capacity is at least 1.
unfoldable pub IsPositive : Option ℕ → Type 0
IsPositive o = (n : ℕ) → o ≡ some n → 1 ≤ n

-- What the program puts in records: nonempty names, positive capacities, and the worker's id once
-- the state is `worker`.
pub record IsValid (r : AcquisitionRecord) : Type 0 where
  pub execution : r.execution_project_id ≢ ""
  pub harness : r.harness ≢ ""
  pub worker_known : r.state ≡ worker → (s : String) × (r.worker_id ≡ some s) × (s ≢ "")
  pub profile : IsNamed r.model_profile
  pub credential : IsNamed r.credential_key
  pub capacity : IsPositive r.model_capacity
  pub credential_capacity : IsPositive r.credential_capacity

nonempty_text-text : (s : String) → s ≢ "" → nonempty_text (text s) ≡ some s
unfolding nonempty_text
nonempty_text-text s h = ground arith

optional_text-text_or_null : (o : Option String) → IsNamed o → optional_text (text_or_null o) ≡ ok o
unfolding IsNamed optional_text text_or_null
optional_text-text_or_null none h = refl
optional_text-text_or_null (some s) h = let named = h s refl in ground arith

optional_capacity-int_or_null :
    (o : Option ℕ) → IsPositive o → optional_capacity (int_or_null o) ≡ ok o
unfolding IsPositive optional_capacity int_or_null is_null positive_int
optional_capacity-int_or_null none h = refl
optional_capacity-int_or_null (some n) h = let positive = h n refl in ground arith

decode_state-state_text : (s : ReservationState) → decode_state (text (state_text s)) ≡ ok s
unfolding decode_state state_of is_unhashable state_text string_eq
decode_state-state_text pending = refl
decode_state-state_text worker = refl

worker_of-text_or_null :
    (state : ReservationState) (o : Option String)
    → (state ≡ worker → (s : String) × (o ≡ some s) × (s ≢ ""))
    → worker_of state (text_or_null o) ≡ ok o
unfolding worker_of text_or_null nonempty_text
worker_of-text_or_null pending none h = refl
worker_of-text_or_null pending (some s) h = refl
worker_of-text_or_null worker o h = let (s, e, named) = h refl in rw e (ground arith)

expected-same : (s : String) → expected (some s) s ≡ ok tt
unfolding expected
expected-same s = ground arith

module _ (pid : ℕ) (project_id work_item_id : String) (r : AcquisitionRecord) where
  abbrev fields : Fields
  fields = encode_record pid project_id work_item_id r

  decode_fields-encode_record :
      project_id ≢ ""
      → work_item_id ≢ ""
      → IsValid r
      → decode_fields (some project_id) (some work_item_id) fields
        ≡ ok (project_id, work_item_id, r)
  unfolding decode_fields encode_record field Dict.get string_eq
  decode_fields-encode_record p i v =
      rw
        (
          nonempty_text-text project_id p,
          nonempty_text-text work_item_id i,
          expected-same project_id,
          expected-same work_item_id,
          decode_state-state_text r.state,
          nonempty_text-text r.execution_project_id v.execution,
          nonempty_text-text r.harness v.harness,
          worker_of-text_or_null r.state r.worker_id v.worker_known,
          optional_text-text_or_null r.model_profile v.profile,
          optional_capacity-int_or_null r.model_capacity v.capacity,
          optional_text-text_or_null r.credential_key v.credential,
          optional_capacity-int_or_null r.credential_capacity v.credential_capacity,
        )
        refl

module _ (sha256 : String → String) where
  -- A read looks at no other file.
  pub read-get :
      (project_id work_item_id : String) (files files' : Files)
      → Dict.get (record_path sha256 project_id work_item_id) files
        ≡ Dict.get (record_path sha256 project_id work_item_id) files'
      → read_acquisition_record sha256 project_id work_item_id files
        ≡ read_acquisition_record sha256 project_id work_item_id files'
  unfolding read_acquisition_record
  read-get project_id work_item_id files files' same = rw (same, read_acquisition_record) refl

  pub read_found :
      (project_id work_item_id : String) (files : Files) (content : Content)
      → Dict.get (record_path sha256 project_id work_item_id) files ≡ some content
      → read_acquisition_record sha256 project_id work_item_id files ≡ (do
        entry ← decode_content sha256 (some project_id) (some work_item_id) content
        ok (some entry.2))
  unfolding read_acquisition_record
  read_found project_id work_item_id files content found = rw (found, read_acquisition_record) refl

  pub read_written :
      (pid : ℕ) (project_id work_item_id : String) (r : AcquisitionRecord) (files : Files)
      → project_id ≢ ""
      → work_item_id ≢ ""
      → IsValid r
      → read_acquisition_record sha256 project_id work_item_id
          (write_acquisition_record sha256 pid project_id work_item_id r files)
        ≡ ok (some r)
  unfolding write_acquisition_record decode_content
  read_written pid project_id work_item_id r files p i v =
      let path = record_path sha256 project_id work_item_id in
      let content = document (encode_record pid project_id work_item_id r) in
      rw
        (
          read_found project_id work_item_id (Dict.put path content files) content
              (get-put_same path content files),
          decode_fields-encode_record pid project_id work_item_id r p i v,
        )
        refl

  read_other :
      (pid : ℕ) (project_id work_item_id other_project other_item : String) (r : AcquisitionRecord)
      (files : Files)
      → sha256 (joined other_project other_item) ≢ sha256 (joined project_id work_item_id)
      → read_acquisition_record sha256 other_project other_item
          (write_acquisition_record sha256 pid project_id work_item_id r files)
        ≡ read_acquisition_record sha256 other_project other_item files
  unfolding write_acquisition_record record_path
  read_other pid project_id work_item_id other_project other_item r files differ =
      read-get other_project other_item
        (write_acquisition_record sha256 pid project_id work_item_id r files) files
        (get-put_other (record_file (sha256 (joined other_project other_item)))
          (record_file (sha256 (joined project_id work_item_id)))
          (document (encode_record pid project_id work_item_id r)) files (λ same. differ cc))

  -- After a valid reservation is written for a project and a work item with nonempty names, a read
  -- for them returns it, and a read for any names whose key has another hash returns what it
  -- returned before the write.
  pub read-write :
      (pid : ℕ) (project_id work_item_id : String) (r : AcquisitionRecord) (files : Files)
      (other_project other_item : String)
      → project_id ≢ ""
      → work_item_id ≢ ""
      → IsValid r
      → sha256 (joined other_project other_item) ≢ sha256 (joined project_id work_item_id)
      → (read_acquisition_record sha256 project_id work_item_id
            (write_acquisition_record sha256 pid project_id work_item_id r files)
          ≡ ok (some r))
        × (read_acquisition_record sha256 other_project other_item
              (write_acquisition_record sha256 pid project_id work_item_id r files)
            ≡ read_acquisition_record sha256 other_project other_item files)
  read-write pid project_id work_item_id r files other_project other_item p i v differ = (
    read_written pid project_id work_item_id r files p i v,
    read_other pid project_id work_item_id other_project other_item r files differ,
  )
