-- ===== src/Queue/WaitTime.antt =====
-- services/queue_service.py: the people ahead, the estimate of the wait, and the batch's clock tests.
use linebot.Prelude.{
  ℕ, ◌+◌, ◌*◌, ◌/◌, ◌%◌, Bool, ◌&&◌, Option, none, some, List, [], ◌∷◌, Text, codes, ◌==◌, ltb,
  count_where, decimal, if◌then◌else◌,
}
use linebot.Database.Tables.{Status, Reservation, Database, status_eq, is_id}
use linebot.Database.Rows.{type_of, type_owner, owner_of, is_joined}
use linebot.Database.Settings.{set_settings}

-- math.ceil(ahead * 0.5 + 2): half of ahead + 4, rounded up.
unfoldable pub calculate_wait_time_minutes : ℕ → ℕ
calculate_wait_time_minutes ahead = (ahead + 4 + 1) / 2

-- r.status = 'waiting' AND r.id < %s AND t.owner_admin_id = %s, joined by the type
unfoldable pub is_ahead_by_owner : Database → ℕ → ℕ → Reservation → Bool
unfolding type_of
is_ahead_by_owner db reservation_id owner r =
    status_eq r.status Status.waiting
    && ltb r.id reservation_id
    && is_id (type_owner (type_of db r)) owner

unfoldable pub count_waiting_people_ahead_by_owner : Database → ℕ → ℕ → ℕ
unfolding is_ahead_by_owner
count_waiting_people_ahead_by_owner db reservation_id owner =
    count_where (is_ahead_by_owner db reservation_id owner) db.reservations

-- The local time that a call reads: seconds for the database, hour and minute, and its "%m-%d %H:%M".
pub record Clock : Type 0 where
  pub now : ℕ
  pub tm_hour : ℕ
  pub tm_min : ℕ
  pub minute_label : Text

unfoldable pub should_run_call_batch : Clock → Bool
should_run_call_batch current = current.tm_min % 5 == 0

unfoldable pub should_run_midnight_cancel : Clock → Bool
should_run_midnight_cancel current = current.tm_hour == 0 && current.tm_min == 0

unfoldable pub hour_digit : Clock → ℕ
hour_digit current =
    if current.tm_hour == 10
    then 1
    else if current.tm_hour == 11
    then 2
    else if current.tm_hour == 12
    then 3
    else if current.tm_hour == 13
    then 4
    else if current.tm_hour == 14
    then 5
    else 0

-- The waiting reservations of one owner, or of all.
unfoldable pub is_waiting_of : Database → Option ℕ → Reservation → Bool
unfolding owner_of
is_waiting_of db none r = status_eq r.status Status.waiting
is_waiting_of db (some owner) r =
    status_eq r.status Status.waiting && is_joined (type_of db r) && is_id (owner_of db r) owner

pub record WaitTime : Type 0 where
  pub run_at : Text
  pub waiting_count : ℕ
  pub avg_service_seconds : ℕ
  pub estimated_seconds : ℕ

abbrev pub wait_time_settings : Text → ℕ → ℕ → List (Text × Text)
wait_time_settings minute_label estimated_seconds waiting_count =
    (codes "last_wait_time_run_at", minute_label)
    ∷ (codes "last_wait_time_estimated_seconds", decimal estimated_seconds)
    ∷ (codes "last_wait_time_waiting_count", decimal waiting_count)
    ∷ (codes "last_wait_time_avg_service_seconds", codes "0")
    ∷ []

-- Only the estimate over all owners is written to the settings.
unfoldable pub save_wait_time : Option ℕ → Text → ℕ → ℕ → Database → Database
save_wait_time none minute_label seconds waiting db =
    set_settings (wait_time_settings minute_label seconds waiting) db
save_wait_time (some owner) minute_label seconds waiting db = db

unfoldable pub refresh_wait_time_estimate : Clock → Option ℕ → Database → WaitTime × Database
unfolding calculate_wait_time_minutes is_waiting_of save_wait_time
refresh_wait_time_estimate clock owner db =
    let waiting = count_where (is_waiting_of db owner) db.reservations in
    let seconds = calculate_wait_time_minutes waiting * 60 in
    (
      record {
        run_at = clock.minute_label;
        waiting_count = waiting;
        avg_service_seconds = 0;
        estimated_seconds = seconds;
      },
      save_wait_time owner clock.minute_label seconds waiting db,
    )
