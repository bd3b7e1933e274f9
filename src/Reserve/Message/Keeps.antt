-- ===== src/Reserve/Message/Keeps.antt =====
-- What `handle_message` keeps: any property of the database that its statements keep.
use linebot.Prelude.{
  ℕ, zero, suc, ◌+◌, refl, ◌≡◌, update_where, Bool, true, false, not, Option, none, some, [], ◌∷◌,
  Text, codes, strip, is_empty, starts_with, text_eq, ltb, length, find_where, ◌==◌, drop,
  if◌then◌else◌,
}
use linebot.Validators.{normalize_type_name, validate_type_name}
use linebot.Database.Tables.{Reservation, ReservationType, Database}
use linebot.Database.Rows.{is_active_of, latest_where}
use linebot.Database.RateLimit.{RedisReply, is_user_request_rate_limited}
use linebot.Database.Webhook.{claim_webhook_event, release_webhook_event, is_claimed}
use linebot.Database.Runtime.{is_accepting_new}
use linebot.Queue.WaitTime.{refresh_wait_time_estimate, save_wait_time}
use linebot.Queue.Calls.{cancel_row}
use linebot.Reserve.Insert.{
  Chance, Attempted, reserved, exhausted, conflict, failed, attempt, go_on, allocation_attempts,
}
use linebot.Reserve.Message.{
  Env, Event, Outcome, replied, raised, finish_reservation, conflict_reply, reserve_unless,
  cancel_found, reserve, reserve_owned, reserve_type, reserve_named, request_reservation,
  cancel_reservation, process_reservation, owner_accepts, owner_account, release_on_error,
  handle_limited, handle_claimed, handle_message, should_ignore_reply_message,
}

-- A choice between two results keeps what both keep.
if-Keeps :
    (P : Database → Type 0) {A : Type 0} (b : Bool) (x y : A × Database)
    → P x.1
    → P y.1
    → P (if b then x else y).1
if-Keeps P true x y hx hy = hx
if-Keeps P false x y hx hy = hy

-- What the ten attempts leave, however they end.
abbrev pub AttemptedKeeps : (Database → Type 0) → Attempted → Type 0
AttemptedKeeps P (reserved number id db) = P db
AttemptedKeeps P (exhausted db) = P db
AttemptedKeeps P (conflict db) = P db
AttemptedKeeps P (failed c db) = P db

go_on-Keeps :
    (P : Database → Type 0) (next : Database → Attempted) (a : Attempted)
    → ((db : Database) → P db → AttemptedKeeps P (next db))
    → AttemptedKeeps P a
    → AttemptedKeeps P (go_on next a)
go_on-Keeps P next (reserved number id db) f h = h
go_on-Keeps P next (exhausted db) f h = f db h
go_on-Keeps P next (conflict db) f h = h
go_on-Keeps P next (failed v db) f h = h

-- The ten attempts keep what one attempt keeps and what the others keep between two.
pub allocation_attempts-Keeps :
    (P : Database → Type 0) (chance : Chance) (now : ℕ) (user : Text) (type_id owner : ℕ)
    → ((k : ℕ) (db : Database) → P db → P (chance.others k db))
    → ((k : ℕ) (db : Database)
        → P db
        → AttemptedKeeps P (attempt now user type_id owner (chance.y_digit k) db))
    → (left k : ℕ) (db : Database) → P db
    → AttemptedKeeps P (allocation_attempts chance now user type_id owner left k db)
unfolding allocation_attempts
allocation_attempts-Keeps P chance now user type_id owner others one zero k db h = h
allocation_attempts-Keeps P chance now user type_id owner others one (suc left) k db h =
    go_on-Keeps P _ (attempt now user type_id owner (chance.y_digit k) (chance.others k db))
      (allocation_attempts-Keeps P chance now user type_id owner others one left (k + 1))
      (one k (chance.others k db) (others k db h))

module _ (P : Database → Type 0)
    (same : (db db' : Database)
      → db'.reservations ≡ db.reservations
      → db'.next_reservation_id ≡ db.next_reservation_id
      → P db
      → P db')
    (env : Env)
    (cancels : (p : Reservation → Bool) (db : Database)
      → P db
      → P (record db { reservations = update_where p (cancel_row env.clock.now) db.reservations }))
    (attempts : (user : Text) (type_id owner : ℕ) (db : Database)
      → P db
      → AttemptedKeeps P
          (allocation_attempts env.chance env.clock.now user type_id owner 10 0 db)) where
  finish_reservation-Keeps :
      (user : Text) (t : ReservationType) (owner : ℕ) (a : Attempted)
      → AttemptedKeeps P a
      → P (finish_reservation env user t owner a).1
  unfolding refresh_wait_time_estimate save_wait_time
  finish_reservation-Keeps user t owner (reserved number id db) h = same db _ refl refl h
  finish_reservation-Keeps user t owner (exhausted db) h = h
  finish_reservation-Keeps user t owner (conflict db) h =
      found (latest_where (is_active_of user) db.reservations)
    where
      found : (o : Option Reservation) → P (conflict_reply user o db).1
      found none = h
      found (some r) = h
  finish_reservation-Keeps user t owner (failed c db) h = h

  reserve-Keeps :
      (user : Text) (t : ReservationType) (owner : ℕ) (db : Database)
      → P db
      → P (reserve env user t owner db).1
  unfolding reserve
  reserve-Keeps user t owner db c = found (latest_where (is_active_of user) db.reservations)
    where
      found : (o : Option Reservation) → P (reserve_unless env user t owner o db).1
      found none = finish_reservation-Keeps user t owner _ (attempts user t.id owner db c)
      found (some r) = c

  reserve_owned-Keeps :
      (user : Text) (t : ReservationType) (o : Option ℕ) (db : Database)
      → P db
      → P (reserve_owned env user t o db).1
  reserve_owned-Keeps user t none db c = c
  reserve_owned-Keeps user t (some owner) db c = reserve-Keeps user t owner db c

  reserve_type-Keeps :
      (user : Text) (t : ReservationType) (db : Database) → P db → P (reserve_type env user t db).1
  unfolding reserve_type
  reserve_type-Keeps user t db c =
      if-Keeps P (not (owner_accepts (owner_account t.owner_admin_id db))) _ _ c
        (if-Keeps P (not t.accepting) _ _ c (reserve_owned-Keeps user t t.owner_admin_id db c))

  reserve_named-Keeps :
      (user requested : Text) (o : Option ReservationType) (db : Database)
      → P db
      → P (reserve_named env user requested o db).1
  reserve_named-Keeps user requested none db c = c
  reserve_named-Keeps user requested (some t) db c = reserve_type-Keeps user t db c

  request-Keeps :
      (user normalized : Text) (db : Database)
      → P db
      → P (request_reservation env user normalized db).1
  unfolding request_reservation
  request-Keeps user normalized db c =
      let requested = normalize_type_name (drop 2 normalized) in
      if-Keeps P (not (is_accepting_new none db)) _ _ c (
        if-Keeps P (is_empty requested) _ _ c (
          if-Keeps P (not (validate_type_name env.config requested)) _ _ c (
            reserve_named-Keeps user requested
              (find_where (λ t. text_eq t.name requested) db.reservation_types) db c)))

  cancel_reservation-Keeps :
      (user : Text) (db : Database) → P db → P (cancel_reservation env user db).1
  unfolding cancel_reservation
  cancel_reservation-Keeps user db c = found (latest_where (is_active_of user) db.reservations)
    where
      found : (o : Option Reservation) → P (cancel_found env o db).1
      found none = c
      found (some r) = cancels (λ s. s.id == r.id) db c

  process_reservation-Keeps :
      (user user_message : Text) (db : Database)
      → P db
      → P (process_reservation env user user_message db).1
  unfolding process_reservation
  process_reservation-Keeps user user_message db c =
      let normalized = strip user_message in
      if-Keeps P (is_empty normalized) _ _ c (
        if-Keeps P (ltb env.config.max_user_message_chars (length normalized)) _ _ c (
          if-Keeps P (starts_with normalized (codes "予約")) _ _ (request-Keeps user normalized db c)
            (if-Keeps P (text_eq normalized (codes "キャンセル")) _ _
              (cancel_reservation-Keeps user db c)
              (if-Keeps P (text_eq normalized (codes "待ち時間")) _ _ c c))))

  release_on_error-Keeps :
      (event_id : Option Text) (o : Outcome) (db : Database)
      → P db
      → P (release_on_error event_id (o, db)).1
  unfolding release_webhook_event
  release_on_error-Keeps event_id (replied reply) db c = c
  release_on_error-Keeps none (raised v) db c = c
  release_on_error-Keeps (some []) (raised v) db c = c
  release_on_error-Keeps (some (x ∷ e)) (raised v) db c = same db _ refl refl c

  handle_limited-Keeps :
      (event : Event) (limited : Bool) (db : Database)
      → P db
      → P (handle_limited env event (limited, db)).1
  handle_limited-Keeps event true db c = c
  handle_limited-Keeps event false db c =
      let (o, db') = process_reservation env event.user_id (strip event.text) db in
      release_on_error-Keeps event.webhook_event_id o db'
        (process_reservation-Keeps event.user_id (strip event.text) db c)

  rate_limited-Keeps :
      (redis : Option RedisReply) (online : Bool) (user_id : Text) (db : Database)
      → P db
      → P (is_user_request_rate_limited env.config redis online env.clock.now user_id db).1
  unfolding is_user_request_rate_limited
  rate_limited-Keeps redis online [] db c = c
  rate_limited-Keeps (some reply) online (u ∷ us) db c = c
  rate_limited-Keeps none false (u ∷ us) db c = c
  rate_limited-Keeps none true (u ∷ us) db c = if-Keeps P _ _ _ c (same db _ refl refl c)

  handle_claimed-Keeps :
      (redis : Option RedisReply) (online : Bool) (event : Event) (first : Bool) (db : Database)
      → P db
      → P (handle_claimed env redis online event (first, db)).1
  handle_claimed-Keeps redis online event false db c = c
  handle_claimed-Keeps redis online event true db c =
      let (limited, db') =
        is_user_request_rate_limited env.config redis online env.clock.now event.user_id db in
      if-Keeps P (should_ignore_reply_message (strip event.text)) _ _ c (
        handle_limited-Keeps event limited db' (rate_limited-Keeps redis online event.user_id db c))

  claim-Keeps :
      (event_id : Option Text) (db : Database) → P db → P (claim_webhook_event event_id db).1
  unfolding claim_webhook_event
  claim-Keeps none db c = c
  claim-Keeps (some []) db c = c
  claim-Keeps (some (x ∷ e)) db c = if-Keeps P (is_claimed (x ∷ e) db) _ _ c (same db _ refl refl c)

  -- What the statements of the handler keep, the handler keeps.
  pub handle_message-Keeps :
      (redis : Option RedisReply) (online : Bool) (event : Event) (db : Database)
      → P db
      → P (handle_message env redis online event db).1
  unfolding handle_message
  handle_message-Keeps redis online event db c =
      let (first, db') = claim_webhook_event event.webhook_event_id db in
      handle_claimed-Keeps redis online event first db' (claim-Keeps event.webhook_event_id db c)
