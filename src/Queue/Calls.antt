-- ===== src/Queue/Calls.antt =====
-- services/queue_service.py: the statements that call, time out and cancel reservations.
pub mod Sweep
pub mod Fifo
pub mod Drain
pub mod Oldest
pub mod Progress
pub mod Served
use linebot.Prelude.{
  ℕ, ◌+◌, ◌*◌, ◌≡◌, Bool, true, false, ◌&&◌, Option, none, some, List, [], ◌∷◌, ◌++◌, Text, ◌==◌,
  leb, take, length, select_where, update_where, any, order_by, map, if◌then◌else◌,
}
use linebot.Config.{Config}
use linebot.Database.Tables.{
  Status, Reservation, Database, status_eq, is_active, is_id, call_origin_auto,
}
use linebot.Database.Rows.{type_of, owner_of, is_joined, display_no}

abbrev pub elapsed : ℕ → ℕ → Option ℕ → Bool
elapsed timeout now none = false
elapsed timeout now (some at) = leb (at + timeout) now

-- status = 'called' AND called_at <= now - timeout
unfoldable pub is_timed_out : Config → ℕ → Reservation → Bool
is_timed_out config now r =
    status_eq r.status Status.called && elapsed (config.call_timeout_minutes * 60) now r.called_at

-- SET status = 'cancelled', completed_at = CURRENT_TIMESTAMP
abbrev pub cancel_row : ℕ → Reservation → Reservation
cancel_row now r = record r { status = Status.cancelled; completed_at = some now }

-- A push message that is due: the user, and the number on the ticket.
pub record Push : Type 0 where
  pub user_id : Text
  pub reservation_no : ℕ

abbrev pub push_of : Reservation → Push
push_of r = record {
  user_id = r.user_id;
  reservation_no = if display_no r == 0 then r.id else display_no r;
}

-- The count that the function returns, with the messages that it sends and the database after it.
pub record Swept : Type 0 where
  pub count : ℕ
  pub pushes : List Push
  pub db : Database

-- `online` is false where the transaction raises.
unfoldable pub expire_called_reservations : Config → Bool → ℕ → Database → Swept
unfolding is_timed_out
expire_called_reservations config false now db = record { count = 0; pushes = []; db = db }
expire_called_reservations config true now db =
    if leb config.call_timeout_minutes 0
    then record { count = 0; pushes = []; db = db }
    else record {
      count = length (select_where (is_timed_out config now) db.reservations);
      pushes = map push_of (select_where (is_timed_out config now) db.reservations);
      db = record db {
        reservations = update_where (is_timed_out config now) (cancel_row now) db.reservations;
      };
    }

unfoldable pub cancel_active_reservations_without_notification : Bool → ℕ → Database → ℕ × Database
cancel_active_reservations_without_notification false now db = (0, db)
cancel_active_reservations_without_notification true now db = (
  length (select_where (λ r. is_active r.status) db.reservations),
  record db {
    reservations = update_where (λ r. is_active r.status) (cancel_row now) db.reservations;
  },
)

-- r.status = 'waiting' AND COALESCE(r.owner_admin_id, t.owner_admin_id) = %s, joined by the type
unfoldable pub is_callable : Database → ℕ → Reservation → Bool
unfolding owner_of
is_callable db owner r =
    status_eq r.status Status.waiting && is_joined (type_of db r) && is_id (owner_of db r) owner

-- selected_rows: the oldest `limit` callable reservations of the owner.
unfoldable pub selected_rows : Database → ℕ → ℕ → List Reservation
unfolding is_callable order_by
selected_rows db owner limit =
    take limit (order_by (λ r. r.id) (select_where (is_callable db owner) db.reservations))

abbrev pub has_id : List Reservation → Reservation → Bool
has_id selected r = any (λ s. s.id == r.id) selected

-- SET status = 'called', called_at = CURRENT_TIMESTAMP, call_origin = 'auto'
abbrev pub call_row : ℕ → Text → Reservation → Reservation
call_row now origin r = record r {
  status = Status.called;
  call_origin = some origin;
  called_at = some now;
}

-- One owner's UPDATE: the rows that it returns, and the database after it.
unfoldable pub auto_call_owner : ℕ → ℕ → ℕ → Database → List Reservation × Database
unfolding selected_rows
auto_call_owner now owner limit db =
    let chosen : Reservation → Bool =
      λ r. has_id (selected_rows db owner limit) r && status_eq r.status Status.waiting in
    (
      map (call_row now call_origin_auto) (select_where chosen db.reservations),
      record db {
        reservations = update_where chosen (call_row now call_origin_auto) db.reservations;
      },
    )

-- SET status = 'waiting', called_at = NULL, call_origin = NULL WHERE id = ANY(ids) AND status = 'called'
abbrev pub wait_row : Reservation → Reservation
wait_row r = record r { status = Status.waiting; call_origin = none; called_at = none }

abbrev pub is_called_in : List ℕ → Reservation → Bool
is_called_in ids r = any (λ i. i == r.id) ids && status_eq r.status Status.called

unfoldable pub revert_calls : List ℕ → Database → Database
revert_calls ids db = record db {
  reservations = update_where (is_called_in ids) wait_row db.reservations;
}
