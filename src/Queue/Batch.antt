-- ===== src/Queue/Batch.antt =====
-- services/queue_service.py: `process_queued_calls`, the batch that a scheduler runs every minute.
pub mod Report
pub mod Summary
use linebot.Prelude.{
  ℕ, Bool, true, false, Option, none, some, List, [], ◌∷◌, ◌++◌, Text, codes, decimal, is_empty,
  length, map, select_where, not, if◌then◌else◌,
}
use linebot.Config.{Config}
use linebot.Database.Tables.{Reservation, Database}
use linebot.Database.Settings.{set_settings}
use linebot.Database.RateLimit.{cleanup_rate_limit_records}
use linebot.Database.Runtime.{
  AutoCallConfig, AutoCallSummary, RuntimeSettings, get_runtime_settings, sum_counts,
}
use linebot.Queue.WaitTime.{
  Clock, WaitTime, should_run_call_batch, should_run_midnight_cancel, refresh_wait_time_estimate,
}
use linebot.Queue.Calls.{
  Push, push_of, expire_called_reservations, cancel_active_reservations_without_notification,
  auto_call_owner, revert_calls,
}

-- What the batch meets outside: whether a push message is delivered, whether the database answers the sweep (0)
-- and the cleanup (1), which catch what it raises, and what other transactions commit before the cleanup (0), the
-- estimate (1), the reading of the settings (2) and the calls (3), and while the messages are being sent (4).
pub record World : Type 0 where
  pub delivers : Push → Bool
  pub online : ℕ → Bool
  pub meanwhile : ℕ → Database → Database

pub record Maintained : Type 0 where
  pub timed_out_count : ℕ
  pub midnight_cancel_count : ℕ
  pub db : Database

-- The first half: the midnight cancellation, or else the time limit of the calls.
unfoldable pub maintain : Config → Bool → Clock → Database → Maintained
maintain config online clock db =
    if should_run_midnight_cancel clock
    then (let (count, db') = cancel_active_reservations_without_notification online clock.now db in
        record { timed_out_count = 0; midnight_cancel_count = count; db = db' })
    else (let swept = expire_called_reservations config online clock.now db in
        record { timed_out_count = swept.count; midnight_cancel_count = 0; db = swept.db })

-- The loop over the owners, in one transaction.
unfoldable pub auto_call_all : ℕ → List AutoCallConfig → Database → List Reservation × Database
auto_call_all now [] db = ([], db)
auto_call_all now (c ∷ rest) db =
    let (rows, db') = auto_call_owner now c.owner_admin_id c.auto_call_count db in
    let (more, db'') = auto_call_all now rest db' in (rows ++ more, db'')

abbrev pub failed_ids : (Push → Bool) → List Reservation → List ℕ
failed_ids delivers rows = map (λ r. r.id) (select_where (λ r. not (delivers (push_of r))) rows)

abbrev pub sent_ids : (Push → Bool) → List Reservation → List ℕ
sent_ids delivers rows = map (λ r. r.id) (select_where (λ r. delivers (push_of r)) rows)

abbrev pub previous_settings : AutoCallSummary → List (Text × Text)
previous_settings s =
    if is_empty s.run_at
    then []
    else (codes "previous_auto_call_run_at", s.run_at)
      ∷ (codes "previous_auto_call_sent_count", decimal s.sent_count)
      ∷ (codes "previous_auto_call_failed_count", decimal s.failed_count)
      ∷ (codes "previous_auto_call_selected_count", decimal s.selected_count)
      ∷ []

abbrev pub batch_settings : Text → ℕ → ℕ → ℕ → AutoCallSummary → List (Text × Text)
batch_settings minute_label sent failed selected previous =
    (codes "last_auto_call_run_at", minute_label)
    ∷ (codes "last_auto_call_sent_count", decimal sent)
    ∷ (codes "last_auto_call_failed_count", decimal failed)
    ∷ (codes "last_auto_call_selected_count", decimal selected)
    ∷ previous_settings previous

pub record BatchReport : Type 0 where
  pub processed : Bool
  pub timed_out_count : ℕ
  pub midnight_cancel_count : ℕ
  pub auto_call_count : ℕ
  pub auto_selected_count : ℕ
  pub sent_count : ℕ
  pub failed_ids : List ℕ
  pub wait_time : WaitTime

-- UPDATE only where there is something to take back.
unfoldable pub take_back : List ℕ → Database → Database
take_back [] db = db
take_back (i ∷ ids) db = revert_calls (i ∷ ids) db

-- The second half of a due run, from the settings that it read.
unfoldable pub call_batch :
    World → Clock → Maintained → RuntimeSettings → Database → BatchReport × Database
call_batch world clock m runtime db =
    let (rows, called) = auto_call_all clock.now runtime.configs db in
    let failed = failed_ids world.delivers rows in
    let sent = length (sent_ids world.delivers rows) in
    let settled = take_back failed (world.meanwhile 4 called) in
    let saved =
      set_settings
        (batch_settings clock.minute_label sent (length failed) (length rows)
          runtime.latest_auto_call)
        settled in
    let (wait, db') = refresh_wait_time_estimate clock none saved in
    (
      record {
        processed = true;
        timed_out_count = m.timed_out_count;
        midnight_cancel_count = m.midnight_cancel_count;
        auto_call_count = sum_counts runtime.configs;
        auto_selected_count = length rows;
        sent_count = sent;
        failed_ids = failed;
        wait_time = wait;
      },
      db',
    )

abbrev pub run_due :
    World → Clock → Maintained → Option RuntimeSettings → Database → Option BatchReport × Database
run_due world clock m none db = (none, db)
run_due world clock m (some runtime) db =
    let (report, db') = call_batch world clock m runtime db in (some report, db')

-- `none` is a run that ends in the ValueError of a damaged count among the settings.
unfoldable pub process_queued_calls :
    Config → World → Clock → Database → Option BatchReport × Database
process_queued_calls config world clock db =
    let m = maintain config (world.online 0) clock db in
    let cleaned = cleanup_rate_limit_records (world.online 1) clock.now (world.meanwhile 0 m.db) in
    let (wait, db') = refresh_wait_time_estimate clock none (world.meanwhile 1 cleaned) in
    let read = world.meanwhile 2 db' in
    if should_run_call_batch clock
    then run_due world clock m (get_runtime_settings none read) (world.meanwhile 3 read)
    else (
      some (record {
        processed = false;
        timed_out_count = m.timed_out_count;
        midnight_cancel_count = m.midnight_cancel_count;
        auto_call_count = 0;
        auto_selected_count = 0;
        sent_count = 0;
        failed_ids = [];
        wait_time = wait;
      }),
      db',
    )
