-- ===== src/Tests/Locking.antt =====
-- The theorems on the lock directory at concrete inputs.
use agent_workflow_superviso.Prelude.{
  String, [], ◌∷◌, ◌≡◌, refl, none, some, arith, true, false, any, ◌⊎◌,
}
use agent_workflow_superviso.Prelude.{string_eq, option_eq, nat_eq}
use agent_workflow_superviso.Result.{Error, ok, err, type_error}
use agent_workflow_superviso.Locking.{Files, record_file, document, array, text}
use agent_workflow_superviso.Locking.{
  AcquisitionRecord, worker, read_acquisition_record, write_acquisition_record,
  clear_acquisition_record, list_all_acquisition_records, record_files, decode_fields, joined,
}
use agent_workflow_superviso.Locking.RoundTrip.{IsValid, read-write, IsNamed, IsPositive}
use agent_workflow_superviso.Locking.Clearing.{ClearAnswer, clear_acquisition_record-ClearAnswer}
use agent_workflow_superviso.Locking.Markers.{account_switch_id-mark, clear-mark}
use agent_workflow_superviso.Locking.{
  mark_account_switch_pending, account_switch_id, marker_path, clear_account_switch_pending,
  file_name_eq,
}
use agent_workflow_superviso.Prelude.{ℕ, Bool, ◌==◌, ◌≢◌}
use agent_workflow_superviso.Prelude.Dict
use agent_workflow_superviso.Locking.Damage.{
  breaks, valid_entries, list_all_acquisition_records_answers,
}

abbrev started : AcquisitionRecord
started = record {
  state = worker;
  execution_project_id = "p-work";
  harness = "claude-code";
  worker_id = some "w1";
  model_profile = none;
  model_capacity = some 2;
  credential_key = some "work";
  credential_capacity = some 1;
}

-- A hash without collisions.
abbrev plain : String → String
plain s = s

started-IsValid : IsValid started
unfolding IsNamed IsPositive
started-IsValid = record {
  execution = λ p. cc;
  harness = λ p. cc;
  worker_known = λ p. ("w1", refl, λ q. cc);
  profile = λ s e q. cc;
  credential = λ s e q. cc;
  capacity = λ n e. ground arith;
  credential_capacity = λ n e. ground arith;
}

read-write_example :
    (read_acquisition_record plain "p" "7" (write_acquisition_record plain 1 "p" "7" started [])
      ≡ ok (some started))
    × (read_acquisition_record plain "p" "77" (write_acquisition_record plain 1 "p" "7" started [])
        ≡ read_acquisition_record plain "p" "77" [])
unfolding joined
read-write_example =
    read-write plain 1 "p" "7" started [] "p" "77" (λ p. cc) (λ p. cc) started-IsValid (λ p. cc)

clear_acquisition_record-ClearAnswer_example :
    (after : Files) × (clear_acquisition_record plain "p" "7"
        (some "w1")
        (write_acquisition_record plain 1 "p" "7" started [])
      ≡ ok after)
    × ClearAnswer plain "p" "7" "w1"
        (some started)
        (write_acquisition_record plain 1 "p" "7" started [])
        after
clear_acquisition_record-ClearAnswer_example =
    clear_acquisition_record-ClearAnswer plain "p" "7" "w1"
      (write_acquisition_record plain 1 "p" "7" started []) (some started) read-write_example.0

-- A record whose state is an array.
abbrev damaged : Files
damaged =
    (
      record_file "x",
      document (("project_id", text "p") ∷ ("work_item_id", text "7") ∷ ("state", array "[]") ∷ []),
    )
    ∷ []

list_all_acquisition_records_answers_example :
    ((any breaks (record_files damaged) ≡ true)
      × ((e : Error) × (list_all_acquisition_records damaged ≡ err e)))
    ⊎ ((any breaks (record_files damaged) ≡ false)
        × (list_all_acquisition_records damaged ≡ ok (valid_entries (record_files damaged))))
list_all_acquisition_records_answers_example = list_all_acquisition_records_answers damaged

damaged_stops_listing : list_all_acquisition_records damaged ≡ err type_error
unfolding list_all_acquisition_records decode_fields string_eq option_eq nat_eq
damaged_stops_listing = refl

-- Only the process 5 lives.
abbrev living : ℕ → Bool
living n = n == 5

abbrev marked : Files
marked = mark_account_switch_pending plain 5 "p" "s1" []

account_switch_id-mark_example :
    ((living 5 ≡ true) × (account_switch_id plain living "p" marked ≡ ok (some "s1", marked)))
    ⊎ ((living 5 ≡ false)
        × (account_switch_id plain living "p" marked
            ≡ ok (none, Dict.erase (marker_path plain "p") marked)))
account_switch_id-mark_example = account_switch_id-mark plain "p" living 4 "s1" [] (λ p. cc)

abbrev first_switch : String
first_switch = "s1"

abbrev second_switch : String
second_switch = "s2"

clear-mark_example :
    ((first_switch ≡ second_switch)
      × (clear_account_switch_pending plain "p" second_switch marked
          ≡ ok (Dict.erase (marker_path plain "p") marked)))
    ⊎ ((first_switch ≢ second_switch)
        × (clear_account_switch_pending plain "p" second_switch marked ≡ ok marked))
clear-mark_example = clear-mark plain "p" 5 first_switch second_switch []
