-- ===== src/Reserve/Insert.antt =====
-- The INSERT of a reservation under the unique indexes of `ensure_reservations_table`, and the ten
-- attempts of `process_reservation` (blueprints/line_routes.py) to find a free number.
pub mod Attempts
use linebot.Prelude.{
  ℕ, zero, suc, ◌+◌, Bool, true, false, ◌&&◌, Option, none, some, List, [], ◌∷◌, ◌++◌, Text, ◌==◌,
  any, if◌then◌else◌,
}
use linebot.Database.Tables.{Status, Reservation, Database, is_id}
use linebot.Database.Rows.{is_active_of}
use linebot.Queue.Number.{allocate_admin_reservation_no}

-- What an IntegrityError names.
pub data Constraint : Type 0 where
  uq_reservations_user_active uq_reservations_owner_reservation_no fk_owner_admin_id : Constraint

abbrev pub has_active : Text → List Reservation → Bool
has_active user rows = any (is_active_of user) rows

abbrev pub is_numbered : ℕ → ℕ → Reservation → Bool
is_numbered owner number r = is_id r.owner_admin_id owner && is_id r.reservation_no number

abbrev pub has_number : ℕ → ℕ → List Reservation → Bool
has_number owner number rows = any (is_numbered owner number) rows

pub data Inserted : Type 0 where
  inserted : ℕ → Database → Inserted
  violated : Constraint → Database → Inserted

abbrev pub new_row : ℕ → ℕ → Text → ℕ → ℕ → ℕ → Reservation
new_row id now user type_id owner number = record {
  id = id;
  user_id = user;
  message = [];
  status = Status.waiting;
  created_at = some now;
  call_origin = none;
  owner_admin_id = some owner;
  reservation_no = some number;
  type_id = some type_id;
  called_at = none;
  completed_at = none;
}

-- The id is drawn before the indexes are checked, the older index first.
unfoldable pub insert_reservation : ℕ → Text → ℕ → ℕ → ℕ → Database → Inserted
insert_reservation now user type_id owner number db =
    let drawn = record db { next_reservation_id = suc db.next_reservation_id } in
    if has_active user db.reservations
    then violated uq_reservations_user_active drawn
    else if has_number owner number db.reservations
    then violated uq_reservations_owner_reservation_no drawn
    else inserted db.next_reservation_id (record drawn {
      reservations =
          db.reservations ++ new_row db.next_reservation_id now user type_id owner number ∷ [];
    })

-- conn.rollback(): all but the SERIAL's sequence is as it was when the transaction began.
abbrev pub rollback : Database → Database → Database
rollback start after = record start { next_reservation_id = after.next_reservation_id }

-- What the world adds: `y_digit k` is the random digit of attempt `k`, and `others k` is what other
-- transactions have committed before attempt `k` begins.
pub record Chance : Type 0 where
  pub y_digit : ℕ → ℕ
  pub others : ℕ → Database → Database

pub data Attempted : Type 0 where
  reserved : ℕ → ℕ → Database → Attempted
  exhausted : Database → Attempted
  conflict : Database → Attempted
  failed : Constraint → Database → Attempted

abbrev pub settle : ℕ → Database → Inserted → Attempted
settle number start (inserted id db) = reserved number id db
settle number start (violated uq_reservations_user_active db) = conflict (rollback start db)
settle number start (violated uq_reservations_owner_reservation_no db) =
    exhausted (rollback start db)
settle number start (violated fk_owner_admin_id db) = failed fk_owner_admin_id (rollback start db)

abbrev pub attempt_with : ℕ → Text → ℕ → ℕ → Database → Option (ℕ × Database) → Attempted
attempt_with now user type_id owner start none = failed fk_owner_admin_id start
attempt_with now user type_id owner start (some (number, db)) =
    settle number start (insert_reservation now user type_id owner number db)

-- One turn of the loop; `exhausted` says that the number was taken.
unfoldable pub attempt : ℕ → Text → ℕ → ℕ → ℕ → Database → Attempted
attempt now user type_id owner y_digit start =
    attempt_with now user type_id owner start (allocate_admin_reservation_no owner y_digit start)

abbrev pub go_on : (Database → Attempted) → Attempted → Attempted
go_on next (reserved number id db) = reserved number id db
go_on next (exhausted db) = next db
go_on next (conflict db) = conflict db
go_on next (failed c db) = failed c db

-- `left` attempts remain, and `k` are over.
unfoldable pub allocation_attempts : Chance → ℕ → Text → ℕ → ℕ → ℕ → ℕ → Database → Attempted
allocation_attempts chance now user type_id owner zero k db = exhausted db
allocation_attempts chance now user type_id owner (suc left) k db =
    go_on (λ db'. allocation_attempts chance now user type_id owner left (k + 1) db')
      (attempt now user type_id owner (chance.y_digit k) (chance.others k db))
