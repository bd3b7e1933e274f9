-- ===== src/Tests/Runs.antt =====
-- The code at the samples.
use linebot.Prelude.{
  ℕ, ◌≡◌, refl, true, Option, none, some, List, [], ◌∷◌, codes, map, strip, decimal,
}
use linebot.Database.Tables.{Status, Reservation}
use linebot.Database.Webhook.{claim_webhook_event}
use linebot.Database.RateLimit.{is_user_request_rate_limited, cleanup_rate_limit_records}
use linebot.Database.Runtime.{is_accepting_new, get_runtime_settings}
use linebot.Database.Settings.{set_settings}
use linebot.Validators.{normalize_type_name, validate_type_name}
use linebot.Reserve.Insert.{allocation_attempts, attempt, insert_reservation}
use linebot.Reserve.Message.{
  handle_message, process_reservation, should_ignore_reply_message, request_reservation,
  reserve_type, reserve, cancel_reservation,
}
use linebot.Queue.WaitTime.{
  refresh_wait_time_estimate, should_run_call_batch, should_run_midnight_cancel,
}
use linebot.Queue.Calls.{expire_called_reservations, auto_call_owner, revert_calls}
use linebot.Queue.Batch.{process_queued_calls, maintain, call_batch, take_back, auto_call_all}
use linebot.Queue.Number.{fmt_no, allocate_admin_reservation_no}
use linebot.Tests.Samples.{config, env, clock, reserve_event, empty_db, busy_db, silent}

numbers : List Reservation → List (Option ℕ)
numbers rows = map (λ r. r.reservation_no) rows

reserved_number :
    numbers (handle_message env none true reserve_event empty_db).1.reservations ≡ some 1520 ∷ []
unfolding numbers handle_message claim_webhook_event should_ignore_reply_message
    is_user_request_rate_limited process_reservation request_reservation is_accepting_new
    normalize_type_name validate_type_name reserve_type reserve allocation_attempts attempt
    allocate_admin_reservation_no insert_reservation refresh_wait_time_estimate
reserved_number = refl

statuses : List Reservation → List Status
statuses rows = map (λ r. r.status) rows

cancelled :
    statuses (process_reservation env (codes "bob") (codes " キャンセル ") busy_db).1.reservations
    ≡ Status.called ∷ Status.cancelled ∷ Status.waiting ∷ []
unfolding process_reservation statuses strip cancel_reservation
cancelled = refl

-- The batch takes back the call that it could not deliver.
taken_back :
    statuses (process_queued_calls config silent clock busy_db).1.reservations
    ≡ Status.called ∷ Status.waiting ∷ Status.waiting ∷ []
unfolding process_queued_calls statuses should_run_call_batch get_runtime_settings
    refresh_wait_time_estimate set_settings cleanup_rate_limit_records maintain
    should_run_midnight_cancel expire_called_reservations call_batch take_back auto_call_all
    auto_call_owner revert_calls
taken_back = refl

called_first :
    statuses
      (process_queued_calls config
        (record silent { delivers = λ _. true })
        clock
        busy_db).1.reservations
    ≡ Status.called ∷ Status.called ∷ Status.waiting ∷ []
unfolding process_queued_calls statuses should_run_call_batch get_runtime_settings
    refresh_wait_time_estimate set_settings cleanup_rate_limit_records maintain
    should_run_midnight_cancel expire_called_reservations call_batch take_back auto_call_all
    auto_call_owner revert_calls
called_first = refl

printed : fmt_no 1520 ≡ codes "001520"
unfolding fmt_no decimal
printed = refl
