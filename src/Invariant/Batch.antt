-- ===== src/Invariant/Batch.antt =====
-- The batch (services/queue_service.py) keeps the invariant.
use linebot.Prelude.{
  ℕ, ◌≤◌, ◌<◌, All-map, arith, ◌≡◌, refl, Bool, true, false, ◌&&◌, Option, none, some, List, [],
  ◌∷◌, Text, Bool-cases, inl, inr, update_where, leb, and-true,
}
use linebot.Config.{Config}
use linebot.Database.Tables.{Status, Reservation, Database, is_active, status_eq, call_origin_auto}
use linebot.Database.Settings.{set_settings}
use linebot.Database.RateLimit.{cleanup_rate_limit_records}
use linebot.Database.Runtime.{AutoCallConfig, RuntimeSettings, get_runtime_settings}
use linebot.Queue.WaitTime.{
  Clock, refresh_wait_time_estimate, should_run_midnight_cancel, should_run_call_batch,
}
use linebot.Queue.Calls.{
  is_timed_out, cancel_row, call_row, wait_row, is_called_in, expire_called_reservations,
  cancel_active_reservations_without_notification, auto_call_owner, revert_calls, selected_rows,
  has_id,
}
use linebot.Queue.Batch.{
  World, Maintained, maintain, auto_call_all, take_back, call_batch, run_due, process_queued_calls,
}
use linebot.Invariant.{IsAbsent, Timed, KeepsKeys, IsConsistent, update-IsConsistent}

-- A cancelled row keeps its keys and has its time.
pub cancel_row-KeepsKeys : (now : ℕ) (p : Reservation → Bool) → KeepsKeys p (cancel_row now)
cancel_row-KeepsKeys now p = record {
  id = λ r. refl;
  user_id = λ r. refl;
  owner_admin_id = λ r. refl;
  reservation_no = λ r. refl;
  activity = λ r _ h. cc;
}

pub cancel-IsConsistent :
    (now : ℕ) (p : Reservation → Bool) (db : Database)
    → IsConsistent db
    → IsConsistent (record db { reservations = update_where p (cancel_row now) db.reservations })
cancel-IsConsistent now p db =
    update-IsConsistent p (cancel_row now) db (cancel_row-KeepsKeys now p) (λ r _ _. refl)

pub expire-IsConsistent :
    (config : Config) (online : Bool) (now : ℕ) (db : Database)
    → IsConsistent db
    → IsConsistent (expire_called_reservations config online now db).db
unfolding expire_called_reservations
expire-IsConsistent config false now db c = c
expire-IsConsistent config true now db c = elim (Bool-cases (leb config.call_timeout_minutes 0)) [
  | inl off ↦ rw off c
  | inr on ↦ rw on (cancel-IsConsistent now (is_timed_out config now) db c)
]

pub cancel_active-IsConsistent :
    (online : Bool) (now : ℕ) (db : Database)
    → IsConsistent db
    → IsConsistent (cancel_active_reservations_without_notification online now db).1
unfolding cancel_active_reservations_without_notification
cancel_active-IsConsistent false now db c = c
cancel_active-IsConsistent true now db c = cancel-IsConsistent now (λ r. is_active r.status) db c

-- Before it is called, a waiting row has no time of completion; a called one neither.
pub completed_of_waiting :
    (s : Status) (called_at : Option ℕ) (origin : Option Text) (completed_at : Option ℕ)
    → status_eq s Status.waiting ≡ true
    → Timed s called_at origin completed_at
    → IsAbsent completed_at
completed_of_waiting Status.waiting called_at origin completed_at e h = h.2
completed_of_waiting _ called_at origin completed_at e h = cc

pub completed_of_called :
    (s : Status) (called_at : Option ℕ) (origin : Option Text) (completed_at : Option ℕ)
    → status_eq s Status.called ≡ true
    → Timed s called_at origin completed_at
    → IsAbsent completed_at
completed_of_called Status.called called_at origin completed_at e h = h.2
completed_of_called _ called_at origin completed_at e h = cc

pub active_of_eq : (s t : Status) → status_eq s t ≡ true → is_active t ≡ true → is_active s ≡ true
active_of_eq Status.waiting t e a = refl
active_of_eq Status.called t e a = refl
active_of_eq Status.done Status.done e a = a
active_of_eq Status.cancelled Status.cancelled e a = a
active_of_eq Status.queued_call Status.queued_call e a = a
active_of_eq _ _ e a = cc

-- Calling waiting rows keeps the invariant.
pub call-IsConsistent :
    (now : ℕ) (origin : Text) (p : Reservation → Bool) (db : Database)
    → ((r : Reservation) → p r ≡ true → status_eq r.status Status.waiting ≡ true)
    → IsConsistent db
    → IsConsistent
        (record db { reservations = update_where p (call_row now origin) db.reservations })
call-IsConsistent now origin p db waits =
    update-IsConsistent p (call_row now origin) db
      (record {
        id = λ r. refl;
        user_id = λ r. refl;
        owner_admin_id = λ r. refl;
        reservation_no = λ r. refl;
        activity = λ r t _. active_of_eq r.status Status.waiting (waits r t) refl;
      })
      (λ r t h. (
        refl,
        refl,
        completed_of_waiting r.status r.called_at r.call_origin r.completed_at (waits r t) h,
      ))

pub auto_call_owner-IsConsistent :
    (now owner limit : ℕ) (db : Database)
    → IsConsistent db
    → IsConsistent (auto_call_owner now owner limit db).1
unfolding auto_call_owner
auto_call_owner-IsConsistent now owner limit db =
    call-IsConsistent now call_origin_auto
      (λ r. has_id (selected_rows db owner limit) r && status_eq r.status Status.waiting) db
      (λ r t. (and-true _ _ t).1)

pub auto_call_all-IsConsistent :
    (now : ℕ) (configs : List AutoCallConfig) (db : Database)
    → IsConsistent db
    → IsConsistent (auto_call_all now configs db).1
unfolding auto_call_all
auto_call_all-IsConsistent now [] db c = c
auto_call_all-IsConsistent now (a ∷ rest) db c =
    auto_call_all-IsConsistent now rest
      (auto_call_owner now a.owner_admin_id a.auto_call_count db).1
      (auto_call_owner-IsConsistent now a.owner_admin_id a.auto_call_count db c)

-- Taking calls back keeps the invariant.
pub revert-IsConsistent :
    (ids : List ℕ) (db : Database) → IsConsistent db → IsConsistent (revert_calls ids db)
unfolding revert_calls
revert-IsConsistent ids db =
    update-IsConsistent (is_called_in ids) wait_row db
      (record {
        id = λ r. refl;
        user_id = λ r. refl;
        owner_admin_id = λ r. refl;
        reservation_no = λ r. refl;
        activity = λ r t _. active_of_eq r.status Status.called (and-true _ _ t).1 refl;
      })
      (λ r t h. (
        refl,
        refl,
        completed_of_called r.status r.called_at r.call_origin r.completed_at (and-true _ _ t).1 h,
      ))

pub take_back-IsConsistent :
    (ids : List ℕ) (db : Database) → IsConsistent db → IsConsistent (take_back ids db)
unfolding take_back
take_back-IsConsistent [] db c = c
take_back-IsConsistent (i ∷ ids) db c = revert-IsConsistent (i ∷ ids) db c

-- What leaves the reservations and their sequence alone keeps the invariant.
pub same_rows-IsConsistent :
    (db db' : Database)
    → db'.reservations ≡ db.reservations
    → db'.next_reservation_id ≡ db.next_reservation_id
    → IsConsistent db
    → IsConsistent db'
same_rows-IsConsistent db db' e n c = record {
  distinct = rw e c.distinct;
  below = rw (e, n) c.below;
  timed = rw e c.timed;
}

-- So does what also draws ids.
pub drawn-IsConsistent :
    (db db' : Database)
    → db'.reservations ≡ db.reservations
    → db.next_reservation_id ≤ db'.next_reservation_id
    → IsConsistent db
    → IsConsistent db'
drawn-IsConsistent db db' e n c = record {
  distinct = rw e c.distinct;
  below = rw e (
      All-map (λ r. r.id < db.next_reservation_id) (λ r. r.id < db'.next_reservation_id)
        db.reservations (λ r h. omega (arith, h, n)) c.below);
  timed = rw e c.timed;
}

pub cleanup-IsConsistent :
    (online : Bool) (now : ℕ) (db : Database)
    → IsConsistent db
    → IsConsistent (cleanup_rate_limit_records online now db)
unfolding cleanup_rate_limit_records
cleanup-IsConsistent false now db c = c
cleanup-IsConsistent true now db c = same_rows-IsConsistent db _ refl refl c

pub refresh-IsConsistent :
    (clock : Clock) (owner : Option ℕ) (db : Database)
    → IsConsistent db
    → IsConsistent (refresh_wait_time_estimate clock owner db).1
unfolding refresh_wait_time_estimate set_settings
refresh-IsConsistent clock none db c = same_rows-IsConsistent db _ refl refl c
refresh-IsConsistent clock (some owner) db c = c

pub maintain-IsConsistent :
    (config : Config) (online : Bool) (clock : Clock) (db : Database)
    → IsConsistent db
    → IsConsistent (maintain config online clock db).db
unfolding maintain
maintain-IsConsistent config online clock db c =
    elim (Bool-cases (should_run_midnight_cancel clock)) [
      | inl night ↦ rw night (cancel_active-IsConsistent online clock.now db c)
      | inr day ↦ rw day (expire-IsConsistent config online clock.now db c)
    ]

module _ (world : World)
    (kept : (k : ℕ) (db : Database) → IsConsistent db → IsConsistent (world.meanwhile k db)) where
  call_batch-IsConsistent :
      (clock : Clock) (m : Maintained) (runtime : RuntimeSettings) (db : Database)
      → IsConsistent db
      → IsConsistent (call_batch world clock m runtime db).1
  unfolding call_batch set_settings
  call_batch-IsConsistent clock m runtime db c = refresh-IsConsistent clock none _ (
      same_rows-IsConsistent _ _ refl refl (
        take_back-IsConsistent _ _
          (kept 4 _ (auto_call_all-IsConsistent clock.now runtime.configs db c))))

  run_due-IsConsistent :
      (clock : Clock) (m : Maintained) (settings : Option RuntimeSettings) (db : Database)
      → IsConsistent db
      → IsConsistent (run_due world clock m settings db).1
  run_due-IsConsistent clock m none db c = c
  run_due-IsConsistent clock m (some runtime) db c = call_batch-IsConsistent clock m runtime db c

  -- The first half of a run keeps the invariant.
  pub estimate-IsConsistent :
      (config : Config) (clock : Clock) (db : Database)
      → IsConsistent db
      → let m = maintain config (world.online 0) clock db in
        let cleaned =
          cleanup_rate_limit_records (world.online 1) clock.now (world.meanwhile 0 m.db) in
        IsConsistent (refresh_wait_time_estimate clock none (world.meanwhile 1 cleaned)).1
  estimate-IsConsistent config clock db c =
      let m = maintain config (world.online 0) clock db in
      refresh-IsConsistent clock none _ (
        kept 1 _ (
          cleanup-IsConsistent (world.online 1) clock.now (world.meanwhile 0 m.db)
            (kept 0 m.db (maintain-IsConsistent config (world.online 0) clock db c))))

  -- A run of the batch keeps the table well formed, whatever other transactions commit between its own,
  -- as long as they keep it too.
  pub process_queued_calls-IsConsistent :
      (config : Config) (clock : Clock) (db : Database)
      → IsConsistent db
      → IsConsistent (process_queued_calls config world clock db).1
  unfolding process_queued_calls
  process_queued_calls-IsConsistent config clock db c =
      let m = maintain config (world.online 0) clock db in
      let cleaned =
        cleanup_rate_limit_records (world.online 1) clock.now (world.meanwhile 0 m.db) in
      let read =
        world.meanwhile 2 (refresh_wait_time_estimate clock none (world.meanwhile 1 cleaned)).1 in
      let estimated = estimate-IsConsistent config clock db c in
      elim (Bool-cases (should_run_call_batch clock)) [
        | inl due ↦ rw due (
            run_due-IsConsistent clock m (get_runtime_settings none read) (world.meanwhile 3 read)
              (kept 3 _ (kept 2 _ estimated)))
        | inr later ↦ rw later estimated
      ]
