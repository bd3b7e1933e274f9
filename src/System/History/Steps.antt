-- ===== src/System/History/Steps.antt =====
-- The batch (services/queue_service.py) keeps the reservations that there are.
use linebot.Prelude.{
  ℕ, ◌≡◌, Bool, true, false, Option, none, some, List, [], ◌∷◌, leb, update_where, Bool-cases, inl,
  inr,
}
use linebot.Config.{Config}
use linebot.Database.Tables.{Reservation, Database, call_origin_auto}
use linebot.Database.Settings.{set_settings}
use linebot.Database.RateLimit.{cleanup_rate_limit_records}
use linebot.Database.Runtime.{AutoCallConfig, RuntimeSettings, get_runtime_settings}
use linebot.Queue.WaitTime.{
  Clock, refresh_wait_time_estimate, save_wait_time, should_run_midnight_cancel,
  should_run_call_batch,
}
use linebot.Queue.Calls.{
  cancel_row, call_row, expire_called_reservations, cancel_active_reservations_without_notification,
  auto_call_owner, revert_calls,
}
use linebot.Queue.Batch.{
  World, Maintained, maintain, auto_call_all, take_back, call_batch, run_due, process_queued_calls,
}
use linebot.System.History.{Grows, Grows-update, cancel-KeepsSame, call-KeepsSame, wait-KeepsSame}

module _ (rows : List Reservation) where
  -- The rows from the beginning are still there.
  abbrev pub P : Database → Type 0
  P db = Grows rows db.reservations

  pub same-P :
      (db db' : Database)
      → db'.reservations ≡ db.reservations
      → db'.next_reservation_id ≡ db.next_reservation_id
      → P db
      → P db'
  same-P db db' e n h = rw e h

  pub cancel-P :
      (now : ℕ) (p : Reservation → Bool) (db : Database)
      → P db
      → P (record db { reservations = update_where p (cancel_row now) db.reservations })
  cancel-P now p db h =
      Grows-update p (cancel_row now) rows db.reservations (cancel-KeepsSame now) h

  pub expire-P :
      (config : Config) (online : Bool) (now : ℕ) (db : Database)
      → P db
      → P (expire_called_reservations config online now db).db
  unfolding expire_called_reservations
  expire-P config false now db h = h
  expire-P config true now db h = elim (Bool-cases (leb config.call_timeout_minutes 0)) [
    | inl off ↦ rw off h
    | inr on ↦ rw on (cancel-P now _ db h)
  ]

  midnight-P :
      (online : Bool) (now : ℕ) (db : Database)
      → P db
      → P (cancel_active_reservations_without_notification online now db).1
  unfolding cancel_active_reservations_without_notification
  midnight-P false now db h = h
  midnight-P true now db h = cancel-P now _ db h

  auto_call_all-P :
      (now : ℕ) (configs : List AutoCallConfig) (db : Database)
      → P db
      → P (auto_call_all now configs db).1
  unfolding auto_call_all auto_call_owner
  auto_call_all-P now [] db h = h
  auto_call_all-P now (a ∷ rest) db h =
      auto_call_all-P now rest (auto_call_owner now a.owner_admin_id a.auto_call_count db).1 (
        Grows-update _ (call_row now call_origin_auto) rows db.reservations
          (call-KeepsSame now call_origin_auto) h)

  pub revert-P : (ids : List ℕ) (db : Database) → P db → P (revert_calls ids db)
  unfolding revert_calls
  revert-P ids db h = Grows-update _ _ rows db.reservations wait-KeepsSame h

  take_back-P : (ids : List ℕ) (db : Database) → P db → P (take_back ids db)
  unfolding take_back
  take_back-P [] db h = h
  take_back-P (i ∷ ids) db h = revert-P (i ∷ ids) db h

  maintain-P :
      (config : Config) (online : Bool) (clock : Clock) (db : Database)
      → P db
      → P (maintain config online clock db).db
  unfolding maintain
  maintain-P config online clock db h = elim (Bool-cases (should_run_midnight_cancel clock)) [
    | inl night ↦ rw night (midnight-P online clock.now db h)
    | inr day ↦ rw day (expire-P config online clock.now db h)
  ]

  cleanup-P :
      (online : Bool) (now : ℕ) (db : Database)
      → P db
      → P (cleanup_rate_limit_records online now db)
  unfolding cleanup_rate_limit_records
  cleanup-P false now db h = h
  cleanup-P true now db h = h

  refresh-P :
      (clock : Clock) (db : Database) → P db → P (refresh_wait_time_estimate clock none db).1
  unfolding refresh_wait_time_estimate save_wait_time set_settings
  refresh-P clock db h = h

  module _ (world : World) (others : (k : ℕ) (d : Database) → P d → P (world.meanwhile k d)) where
    run_due-P :
        (clock : Clock) (m : Maintained) (settings : Option RuntimeSettings) (db : Database)
        → P db
        → P (run_due world clock m settings db).1
    unfolding call_batch set_settings
    run_due-P clock m none db h = h
    run_due-P clock m (some runtime) db h =
        let called = auto_call_all clock.now runtime.configs db in
        refresh-P clock _ (
          take_back-P _ (world.meanwhile 4 called.1)
            (others 4 called.1 (auto_call_all-P clock.now runtime.configs db h)))

    pub batch-P :
        (config : Config) (clock : Clock) (db : Database)
        → P db
        → P (process_queued_calls config world clock db).1
    unfolding process_queued_calls
    batch-P config clock db h =
        let m = maintain config (world.online 0) clock db in
        let cleaned =
          cleanup_rate_limit_records (world.online 1) clock.now (world.meanwhile 0 m.db) in
        let db' = (refresh_wait_time_estimate clock none (world.meanwhile 1 cleaned)).1 in
        let read = world.meanwhile 2 db' in
        let h' : P db' = refresh-P clock (world.meanwhile 1 cleaned) (
          others 1 cleaned (
            cleanup-P (world.online 1) clock.now (world.meanwhile 0 m.db)
              (others 0 m.db (maintain-P config (world.online 0) clock db h)))) in
        elim (Bool-cases (should_run_call_batch clock)) [
          | inl due ↦ rw due (
              run_due-P clock m (get_runtime_settings none read) (world.meanwhile 3 read)
                (others 3 read (others 2 db' h')))
          | inr later ↦ rw later h'
        ]
