-- ===== src/Locking/Damage.antt =====
-- locking.py: the listing of all reservations over damaged files.
use agent_workflow_superviso.Prelude.{
  String, Bool, true, false, none, List, [], ◌∷◌, ◌≡◌, refl, arith, inl, inr, ◌⊎◌, any,
}
use agent_workflow_superviso.Result.{
  Error, ok, err, Result-cases, value_error, runtime_error, type_error, key_error, assertion_error,
  external, interrupted,
}
use agent_workflow_superviso.Locking.Contents.{
  Content, undecodable, document, unreadable, not_json, not_object, Files,
}
use agent_workflow_superviso.Locking.Records.{
  AcquisitionRecord, decode_fields, list_all, list_all_acquisition_records, record_files,
}

abbrev Entry : Type 0
Entry = String × String × AcquisitionRecord

-- A file whose exception the loop does not catch: bytes that are no UTF-8, or an object whose
-- decoding raises something else than a `RuntimeError`.
unfoldable pub breaks : String × Content → Bool
breaks (k, undecodable) = true
breaks (k, document raw) = elim (decode_fields none none raw) [
  | ok entry ↦ false
  | err runtime_error ↦ false
  | err e ↦ true
]
breaks (k, _) = false

-- The records of the files that hold a valid one.
unfoldable pub valid_entries : List (String × Content) → List Entry
valid_entries [] = []
valid_entries ((k, document raw) ∷ rest) =
    let others = valid_entries rest in
    elim (decode_fields none none raw) [ ok entry ↦ entry ∷ others | err e ↦ others ]
valid_entries (_ ∷ rest) = valid_entries rest

-- The listing raises, or it gives what is valid.
Answer : List (String × Content) → Type 0
Answer fs =
    ((any breaks fs ≡ true) × ((e : Error) × (list_all fs ≡ err e)))
    ⊎ ((any breaks fs ≡ false) × (list_all fs ≡ ok (valid_entries fs)))

list_all-Answer : (fs : List (String × Content)) → Answer fs
unfolding Answer any list_all breaks valid_entries
list_all-Answer [] = inr (refl, refl)
list_all-Answer ((k, unreadable) ∷ rest) = list_all-Answer rest
list_all-Answer ((k, undecodable) ∷ rest) = inl (refl, (value_error, refl))
list_all-Answer ((k, not_json) ∷ rest) = list_all-Answer rest
list_all-Answer ((k, not_object) ∷ rest) = list_all-Answer rest
list_all-Answer ((k, document raw) ∷ rest) = elim (Result-cases (decode_fields none none raw)) [
  | inl (entry, e) ↦ elim (list_all-Answer rest) [
    | inl (some_break, (x, raised)) ↦ inl (ground arith, (x, ground arith))
    | inr (no_break, listed) ↦ inr (ground arith, ground arith)
  ]
  | inr (runtime_error, e) ↦ elim (list_all-Answer rest) [
    | inl (some_break, (x, raised)) ↦ inl (ground arith, (x, ground arith))
    | inr (no_break, listed) ↦ inr (ground arith, ground arith)
  ]
  | inr (value_error, e) ↦ inl (ground arith, (value_error, ground arith))
  | inr (key_error, e) ↦ inl (ground arith, (key_error, ground arith))
  | inr (assertion_error, e) ↦ inl (ground arith, (assertion_error, ground arith))
  | inr (type_error, e) ↦ inl (ground arith, (type_error, ground arith))
  | inr (external, e) ↦ inl (ground arith, (external, ground arith))
  | inr (interrupted, e) ↦ inl (ground arith, (interrupted, ground arith))
]

-- `list_all_acquisition_records` returns the valid records of all files, the others skipped, if no
-- file has bytes that are no UTF-8 and none decodes to another exception than a `RuntimeError`. One
-- such file is enough for it to raise.
pub list_all_acquisition_records_answers :
    (files : Files)
    → ((any breaks (record_files files) ≡ true)
        × ((e : Error) × (list_all_acquisition_records files ≡ err e)))
      ⊎ ((any breaks (record_files files) ≡ false)
          × (list_all_acquisition_records files ≡ ok (valid_entries (record_files files))))
unfolding list_all_acquisition_records Answer
list_all_acquisition_records_answers files = list_all-Answer (record_files files)
