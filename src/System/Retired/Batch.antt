-- ===== src/System/Retired/Batch.antt =====
-- The batch (services/queue_service.py) makes no reservation active that was not.
use linebot.Prelude.{
  ℕ, ◌≡◌, refl, Bool, true, false, Option, none, some, List, [], ◌∷◌, leb, update_where, Bool-cases,
  inl, inr, and-true,
}
use linebot.Config.{Config}
use linebot.Database.Tables.{Status, Reservation, Database, call_origin_auto}
use linebot.Database.Settings.{set_settings}
use linebot.Database.RateLimit.{cleanup_rate_limit_records}
use linebot.Database.Runtime.{AutoCallConfig, RuntimeSettings, get_runtime_settings}
use linebot.Queue.WaitTime.{
  Clock, refresh_wait_time_estimate, save_wait_time, should_run_midnight_cancel,
  should_run_call_batch,
}
use linebot.Queue.Calls.{
  cancel_row, call_row, wait_row, is_called_in, expire_called_reservations,
  cancel_active_reservations_without_notification, auto_call_owner, revert_calls,
}
use linebot.Queue.Batch.{
  World, Maintained, maintain, auto_call_all, take_back, run_due, call_batch, process_queued_calls,
}
use linebot.Invariant.Batch.{
  cancel-IsConsistent, active_of_eq, auto_call_owner-IsConsistent, revert-IsConsistent,
  same_rows-IsConsistent,
}
use linebot.System.Retired.{P, Retires-update_all}

module _ (rows : List Reservation) where
  pub same-P :
      (db db' : Database)
      → db'.reservations ≡ db.reservations
      → db'.next_reservation_id ≡ db.next_reservation_id
      → P rows db
      → P rows db'
  same-P db db' e n h = (same_rows-IsConsistent db db' e n h.0, rw e h.1)

  pub cancel-P :
      (now : ℕ) (p : Reservation → Bool) (db : Database)
      → P rows db
      → P rows (record db { reservations = update_where p (cancel_row now) db.reservations })
  cancel-P now p db h = (
    cancel-IsConsistent now p db h.0,
    Retires-update_all p (cancel_row now) rows db.reservations (λ y _ over. cc) h.1,
  )

  pub expire-P :
      (config : Config) (online : Bool) (now : ℕ) (db : Database)
      → P rows db
      → P rows (expire_called_reservations config online now db).db
  unfolding expire_called_reservations
  expire-P config false now db h = h
  expire-P config true now db h = elim (Bool-cases (leb config.call_timeout_minutes 0)) [
    | inl off ↦ rw off h
    | inr on ↦ rw on (cancel-P now _ db h)
  ]

  midnight-P :
      (online : Bool) (now : ℕ) (db : Database)
      → P rows db
      → P rows (cancel_active_reservations_without_notification online now db).1
  unfolding cancel_active_reservations_without_notification
  midnight-P false now db h = h
  midnight-P true now db h = cancel-P now _ db h

  auto_call_owner-P :
      (now owner limit : ℕ) (db : Database)
      → P rows db
      → P rows (auto_call_owner now owner limit db).1
  unfolding auto_call_owner
  auto_call_owner-P now owner limit db h = (
    auto_call_owner-IsConsistent now owner limit db h.0,
    Retires-update_all _ (call_row now call_origin_auto) rows db.reservations
        (λ y t _. active_of_eq y.status Status.waiting (and-true _ _ t).1 refl) h.1,
  )

  auto_call_all-P :
      (now : ℕ) (configs : List AutoCallConfig) (db : Database)
      → P rows db
      → P rows (auto_call_all now configs db).1
  unfolding auto_call_all
  auto_call_all-P now [] db h = h
  auto_call_all-P now (a ∷ rest) db h =
      auto_call_all-P now rest (auto_call_owner now a.owner_admin_id a.auto_call_count db).1
        (auto_call_owner-P now a.owner_admin_id a.auto_call_count db h)

  pub revert-P : (ids : List ℕ) (db : Database) → P rows db → P rows (revert_calls ids db)
  unfolding revert_calls
  revert-P ids db h = (
    revert-IsConsistent ids db h.0,
    Retires-update_all (is_called_in ids) wait_row rows db.reservations
        (λ y t _. active_of_eq y.status Status.called (and-true _ _ t).1 refl) h.1,
  )

  take_back-P : (ids : List ℕ) (db : Database) → P rows db → P rows (take_back ids db)
  unfolding take_back
  take_back-P [] db h = h
  take_back-P (i ∷ ids) db h = revert-P (i ∷ ids) db h

  maintain-P :
      (config : Config) (online : Bool) (clock : Clock) (db : Database)
      → P rows db
      → P rows (maintain config online clock db).db
  unfolding maintain
  maintain-P config online clock db h = elim (Bool-cases (should_run_midnight_cancel clock)) [
    | inl night ↦ rw night (midnight-P online clock.now db h)
    | inr day ↦ rw day (expire-P config online clock.now db h)
  ]

  cleanup-P :
      (online : Bool) (now : ℕ) (db : Database)
      → P rows db
      → P rows (cleanup_rate_limit_records online now db)
  unfolding cleanup_rate_limit_records
  cleanup-P false now db h = h
  cleanup-P true now db h = same-P db _ refl refl h

  refresh-P :
      (clock : Clock) (db : Database)
      → P rows db
      → P rows (refresh_wait_time_estimate clock none db).1
  unfolding refresh_wait_time_estimate save_wait_time set_settings
  refresh-P clock db h = same-P db _ refl refl h

  module _ (world : World)
      (others : (k : ℕ) (d : Database) → P rows d → P rows (world.meanwhile k d)) where
    run_due-P :
        (clock : Clock) (m : Maintained) (settings : Option RuntimeSettings) (db : Database)
        → P rows db
        → P rows (run_due world clock m settings db).1
    unfolding call_batch set_settings
    run_due-P clock m none db h = h
    run_due-P clock m (some runtime) db h =
        let called = auto_call_all clock.now runtime.configs db in
        refresh-P clock _ (
          same-P _ _ refl refl (
            take_back-P _ (world.meanwhile 4 called.1)
              (others 4 called.1 (auto_call_all-P clock.now runtime.configs db h))))

    pub batch-P :
        (config : Config) (clock : Clock) (db : Database)
        → P rows db
        → P rows (process_queued_calls config world clock db).1
    unfolding process_queued_calls
    batch-P config clock db h =
        let m = maintain config (world.online 0) clock db in
        let cleaned =
          cleanup_rate_limit_records (world.online 1) clock.now (world.meanwhile 0 m.db) in
        let db' = (refresh_wait_time_estimate clock none (world.meanwhile 1 cleaned)).1 in
        let read = world.meanwhile 2 db' in
        let h' : P rows db' = refresh-P clock (world.meanwhile 1 cleaned) (
          others 1 cleaned (
            cleanup-P (world.online 1) clock.now (world.meanwhile 0 m.db)
              (others 0 m.db (maintain-P config (world.online 0) clock db h)))) in
        elim (Bool-cases (should_run_call_batch clock)) [
          | inl due ↦ rw due (
              run_due-P clock m (get_runtime_settings none read) (world.meanwhile 3 read)
                (others 3 read (others 2 db' h')))
          | inr later ↦ rw later h'
        ]
