-- ===== src/Tests/Witnesses.antt =====
-- The theorems on the reservations and the queue at the samples.
use linebot.Prelude.{
  ℕ, ◌+◌, ◌/◌, ◌%◌, ◌≤◌, ◌<◌, ◌≡◌, refl, true, false, none, some, [], ◌∷◌, codes, arith, All,
  length, count_where, update_where, ◌==◌, ◌⊎◌,
}
use linebot.Database.Tables.{Status, Database}
use linebot.Database.Rows.{is_active_of}
use linebot.Queue.Number.{
  allocate_admin_reservation_no, admin_digit, get_management_no, next_sequence_after,
}
use linebot.Queue.Number.Sequence.{current_sequence, ticket_sequence, allocate_parts}
use linebot.Queue.Calls.{is_callable, cancel_row, expire_called_reservations, auto_call_owner}
use linebot.Queue.Calls.Fifo.{Calls, StaysFor, auto_call_owner_lem}
use linebot.Database.RateLimit.{cleanup_rate_limit_records}
use linebot.Database.Settings.{set_settings}
use linebot.Database.Runtime.{get_runtime_settings}
use linebot.Queue.WaitTime.{
  refresh_wait_time_estimate, should_run_call_batch, should_run_midnight_cancel,
}
use linebot.Queue.Calls.{revert_calls}
use linebot.Queue.Batch.{
  BatchReport, process_queued_calls, maintain, call_batch, take_back, auto_call_all,
}
use linebot.Queue.Batch.Report.{AddsUp, process_queued_calls-AddsUp}
use linebot.Reserve.Insert.{reserved, exhausted, allocation_attempts, has_number, is_numbered}
use linebot.Reserve.Insert.Attempts.{
  candidate, drawn, finds_free, reserved_db, reserved_if_free, exhausted_if_taken,
}
use linebot.Reserve.Message.{handle_message, cancel_reservation}
use linebot.Reserve.Message.Cancel.{cancel_reservation_lem}
use linebot.Admin.Reservations.{admin_call, admin_cancel}
use linebot.Admin.Reservations.Undelivered.{admin_call-undelivered}
use linebot.Invariant.{IsConsistent}
use linebot.Prelude.{strip}
use linebot.Queue.Batch.Summary.{call_batch_lem}
use linebot.Queue.Batch.{Maintained}
use linebot.Database.Runtime.{RuntimeSettings, build_auto_call_summary, is_accepting_new}
use linebot.Validators.{normalize_type_name, validate_type_name}
use linebot.Reserve.Message.{request_reservation}
use linebot.Reserve.Message.Admission.{Decided, request_reservation_lem}
use linebot.System.History.{Grows}
use linebot.System.History.Kept.{reachable-Grows}
use linebot.System.Retired.{Retires}
use linebot.System.Retired.Kept.{reachable-Retires}
use linebot.Invariant.Admin.{admin_cancel-IsConsistent}
use linebot.System.{Reach, message, batch, stay, then_step}
use linebot.System.Safety.{reachable_unique, reachable-IsConsistent}
use linebot.Tests.Samples.{
  config, row, busy_db, busy_db-IsConsistent, empty_db, clock, chance, env, reserve_event, silent,
  silent_call,
}

-- The first reservation, made by a message.
abbrev booked_db : Database
booked_db = (handle_message env none true reserve_event empty_db).1

booked-Reach : Reach empty_db booked_db
booked-Reach =
    then_step empty_db empty_db booked_db (stay empty_db)
      (message env none true reserve_event empty_db (λ k d. stay d))

reachable_unique_example :
    (count_where (is_active_of (codes "ann")) booked_db.reservations ≤ 1)
    × (count_where (is_numbered 3 1520) booked_db.reservations ≤ 1)
    × (count_where (λ r. r.id == 1) booked_db.reservations ≤ 1)
reachable_unique_example =
    reachable_unique empty_db booked_db (codes "ann") 3 1520 1 booked-Reach refl

abbrev called_db : Database
called_db = (process_queued_calls config silent clock busy_db).1

reachable-IsConsistent_example : IsConsistent called_db
reachable-IsConsistent_example =
    reachable-IsConsistent busy_db called_db
      (then_step busy_db busy_db called_db (stay busy_db)
        (batch config silent clock busy_db (λ k d. stay d)))
      busy_db-IsConsistent

auto_call_owner_example :
    (length (auto_call_owner 300 3 1 busy_db).0 ≤ 1)
    × Calls
        (is_callable busy_db 3)
        300
        (StaysFor 1 (auto_call_owner 300 3 1 busy_db).0 (is_callable busy_db 3))
        busy_db.reservations
        (auto_call_owner 300 3 1 busy_db).1.reservations
        (auto_call_owner 300 3 1 busy_db).0
    × All
        (λ r. (r.status ≡ Status.called) × (r.called_at ≡ some 300))
        (auto_call_owner 300 3 1 busy_db).0
auto_call_owner_example = auto_call_owner_lem 300 3 1 busy_db busy_db-IsConsistent

reserved_if_free_example :
    (j : ℕ) × (j < 10)
    × (has_number 3 (candidate 3 5 busy_db) busy_db.reservations ≡ false)
    × (finds_free chance 3 busy_db j 0 ≡ false)
    × (allocation_attempts chance 300 (codes "joe") 1 3 10 0 busy_db
        ≡ reserved
            (candidate 3 5 busy_db)
            (4 + j)
            (reserved_db 300 (codes "joe") 1 3 (candidate 3 5 busy_db) (drawn j busy_db)))
unfolding next_sequence_after get_management_no
reserved_if_free_example =
    reserved_if_free 300 (codes "joe") 1 3 chance (λ _ _. refl) 10 0 busy_db refl refl refl

-- The sequence has come round to a number that a row still has.
abbrev full_db : Database
full_db = record busy_db { reservations = row 1 (codes "ann") Status.done none none 4520 ∷ [] }

exhausted_if_taken_example :
    allocation_attempts chance 300 (codes "joe") 1 3 10 0 full_db ≡ exhausted (drawn 10 full_db)
unfolding next_sequence_after get_management_no
exhausted_if_taken_example =
    exhausted_if_taken 300 (codes "joe") 1 3 chance (λ _ _. refl) 10 0 full_db refl refl refl

cancel_reservation_example : (cancel_reservation env (codes "bob") busy_db).1 ≡ record busy_db {
  reservations = update_where (is_active_of (codes "bob")) (cancel_row 300) busy_db.reservations;
}
cancel_reservation_example = cancel_reservation_lem env (codes "bob") busy_db busy_db-IsConsistent

admin_call-undelivered_example : (admin_call silent_call 300 (some 3) 2 busy_db).1 ≡ busy_db
admin_call-undelivered_example =
    admin_call-undelivered silent_call 300 (some 3) 2 busy_db (λ _. refl) (λ _. refl)
      busy_db-IsConsistent

abbrev silent_report : BatchReport
silent_report = record {
  processed = true;
  timed_out_count = 0;
  midnight_cancel_count = 0;
  auto_call_count = 1;
  auto_selected_count = 1;
  sent_count = 0;
  failed_ids = 2 ∷ [];
  wait_time = record {
    run_at = codes "2026-01-01 11:35";
    waiting_count = 2;
    avg_service_seconds = 0;
    estimated_seconds = 180;
  };
}

process_queued_calls-AddsUp_example : AddsUp silent_report
unfolding process_queued_calls should_run_call_batch get_runtime_settings refresh_wait_time_estimate
    set_settings cleanup_rate_limit_records maintain should_run_midnight_cancel
    expire_called_reservations call_batch take_back auto_call_all auto_call_owner revert_calls
process_queued_calls-AddsUp_example =
    process_queued_calls-AddsUp config silent clock busy_db silent_report (λ k d c. c)
      busy_db-IsConsistent refl

allocate_parts_example :
    (4520 / 1000 ≡ ticket_sequence (current_sequence 3 busy_db.reservation_number_sequences))
    × (4520 / 100 % 10 ≡ 5)
    × (4520 / 10 % 10 ≡ admin_digit 3)
    × (4520 % 10 ≡ get_management_no (some 3) busy_db)
    × (1000 ≤ 4520)
    × (4520 < 1000000)
    × (current_sequence 3
          (record busy_db {
            reservation_number_sequences = record { owner_admin_id = 3; next_sequence = 5 } ∷ [];
          }).reservation_number_sequences
        ≡ next_sequence_after (current_sequence 3 busy_db.reservation_number_sequences))
unfolding allocate_admin_reservation_no
allocate_parts_example =
    allocate_parts 3 5 busy_db
      (record busy_db {
        reservation_number_sequences = record { owner_admin_id = 3; next_sequence = 5 } ∷ [];
      })
      4520 (omega arith) refl

abbrev no_count : Maintained
no_count = record { timed_out_count = 0; midnight_cancel_count = 0; db = busy_db }

abbrev runtime : RuntimeSettings
runtime = record {
  accepting_new = true;
  auto_call_count = 1;
  configs = record { owner_admin_id = 3; auto_call_count = 1 } ∷ [];
  last_auto_call = record { run_at = []; sent_count = 0; failed_count = 0; selected_count = 0 };
  latest_auto_call = record { run_at = []; sent_count = 0; failed_count = 0; selected_count = 0 };
}

call_batch_example :
    build_auto_call_summary (codes "last") (call_batch silent clock no_count runtime busy_db).1
    ≡ some (record {
      run_at = clock.minute_label;
      sent_count = (call_batch silent clock no_count runtime busy_db).0.sent_count;
      failed_count = length (call_batch silent clock no_count runtime busy_db).0.failed_ids;
      selected_count = (call_batch silent clock no_count runtime busy_db).0.auto_selected_count;
    })
unfolding strip
call_batch_example = call_batch_lem silent clock no_count runtime busy_db refl refl

request_reservation_example :
    ((request_reservation env (codes "joe") (codes "予約 cut") busy_db).1 ≡ busy_db)
    ⊎ ((is_accepting_new none busy_db ≡ true)
        × (validate_type_name config (normalize_type_name (codes " cut")) ≡ true)
        × Decided env
            (codes "joe")
            (normalize_type_name (codes " cut"))
            busy_db
            (request_reservation env (codes "joe") (codes "予約 cut") busy_db))
request_reservation_example = request_reservation_lem env (codes "joe") (codes "予約 cut") busy_db

reachable-Grows_example : Grows busy_db.reservations called_db.reservations
reachable-Grows_example =
    reachable-Grows busy_db called_db
      (then_step busy_db busy_db called_db (stay busy_db)
        (batch config silent clock busy_db (λ k d. stay d)))
      (tt, λ k d. tt)

-- Ann was called, and an admin cancelled it.
abbrev cancelled_db : Database
cancelled_db = (admin_cancel 250 (some 3) 1 busy_db).1

reachable-Retires_example :
    Retires cancelled_db.reservations
      (process_queued_calls config silent clock cancelled_db).1.reservations
reachable-Retires_example =
    reachable-Retires cancelled_db (process_queued_calls config silent clock cancelled_db).1
      (then_step cancelled_db cancelled_db _ (stay cancelled_db)
        (batch config silent clock cancelled_db (λ k d. stay d)))
      (tt, λ k d. tt) (tt, λ k d. tt)
      (admin_cancel-IsConsistent 250 (some 3) 1 busy_db busy_db-IsConsistent)
