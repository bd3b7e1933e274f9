-- ===== src/Backup/Account.antt =====
-- blueprints/backup_routes.py: the backup of one account's types and reservations and its restoration
-- (`_export_account_tables`, `_import_account_tables`). A backup is modelled by the rows that its JSON stands
-- for, each with every column of its table, which is what an export writes, but that an uploaded file may be
-- without the column of the owner.
pub mod Others
pub mod Keys
pub mod Kept
use linebot.Prelude.{
  ℕ, suc, max, Bool, true, false, not, ◌&&◌, ◌||◌, Option, none, some, List, [], ◌∷◌, ◌++◌, Text,
  codes, decimal, text_eq, any, map, select_where, order_by, ◌==◌, if◌then◌else◌,
}
use linebot.Database.Tables.{Reservation, ReservationType, Database, is_active, is_id}
use linebot.Database.Rows.{is_active_of}
use linebot.Reserve.Insert.{is_numbered}

-- The last two say whether `owner_admin_id` is among the columns.
pub record AccountBackup : Type 0 where
  pub types : List ReservationType
  pub reservations : List Reservation
  pub types_name_owner : Bool
  pub reservations_name_owner : Bool

abbrev pub owns_type : ℕ → ReservationType → Bool
owns_type owner t = is_id t.owner_admin_id owner

abbrev pub owns_row : ℕ → Reservation → Bool
owns_row owner r = is_id r.owner_admin_id owner

-- SELECT * ... WHERE owner_admin_id = %s ORDER BY id ASC
unfoldable pub export_account_tables : ℕ → Database → AccountBackup
export_account_tables owner db = record {
  types = order_by (λ t. t.id) (select_where (owns_type owner) db.reservation_types);
  reservations = order_by (λ r. r.id) (select_where (owns_row owner) db.reservations);
  types_name_owner = true;
  reservations_name_owner = true;
}

-- owner_admin_id != %s, which is not true of NULL
abbrev pub is_of_another : ℕ → Option ℕ → Bool
is_of_another owner none = false
is_of_another owner (some m) = not (m == owner)

-- The ids of the backup that rows of another account have.
abbrev pub conflicting_types : ℕ → List ReservationType → Database → List ℕ
conflicting_types owner types db =
    map (λ s. s.id)
      (select_where (λ s. any (λ t. t.id == s.id) types && is_of_another owner s.owner_admin_id)
        db.reservation_types)

abbrev pub conflicting_rows : ℕ → List Reservation → Database → List ℕ
conflicting_rows owner rows db =
    map (λ s. s.id)
      (select_where (λ s. any (λ r. r.id == s.id) rows && is_of_another owner s.owner_admin_id)
        db.reservations)

-- How Python prints a list of numbers.
abbrev more_numbers : List ℕ → Text
more_numbers [] = codes "]"
more_numbers (n ∷ rest) = codes ", " ++ decimal n ++ more_numbers rest

abbrev numbers_text : List ℕ → Text
numbers_text [] = codes "[]"
numbers_text (n ∷ rest) = codes "[" ++ decimal n ++ more_numbers rest

abbrev pub is_nil : List ℕ → Bool
is_nil [] = true
is_nil (n ∷ rest) = false

abbrev pub conflict_message : Text → List ℕ → Text
conflict_message what conflicts =
    codes "バックアップのID（"
    ++ numbers_text conflicts
    ++ codes "）が他のアカウントの"
    ++ what
    ++ codes "データと競合しています。このバックアップファイルはこのアカウントでは復元できません。"

-- The keys of a type that a row in the table takes: the id and the name.
abbrev pub takes_type_key : ReservationType → ReservationType → Bool
takes_type_key t s = (s.id == t.id) || text_eq s.name t.name

-- INSERT ... ON CONFLICT DO NOTHING
abbrev pub insert_type : ReservationType → List ReservationType → List ReservationType
insert_type t types = if any (takes_type_key t) types then types else types ++ t ∷ []

-- What an INSERT makes of the owner: the account, where the column is among those of the backup, else the
-- default of the column, which is NULL.
abbrev pub given_owner : Bool → ℕ → Option ℕ
given_owner named owner = if named then some owner else none

abbrev pub own_type : Option ℕ → ReservationType → ReservationType
own_type given t = record t { owner_admin_id = given }

unfoldable pub insert_types :
    Option ℕ → List ReservationType → List ReservationType → List ReservationType
insert_types given [] types = types
insert_types given (t ∷ rest) types = insert_types given rest (insert_type (own_type given t) types)

abbrev pub number_taken : Option ℕ → Option ℕ → Reservation → Bool
number_taken none number s = false
number_taken (some owner) none s = false
number_taken (some owner) (some n) s = is_numbered owner n s

-- The keys of a reservation that a row in the table takes: the id, the user's active reservation, and the
-- owner's ticket number.
abbrev pub takes_key : Reservation → Reservation → Bool
takes_key r s =
    (s.id == r.id)
    || (is_active r.status && is_active_of r.user_id s)
    || number_taken r.owner_admin_id r.reservation_no s

-- REFERENCES reservation_types(id)
abbrev pub refers : List ReservationType → Option ℕ → Bool
refers types none = true
refers types (some i) = any (λ t. t.id == i) types

abbrev pub own_row : Option ℕ → Reservation → Reservation
own_row given r = record r { owner_admin_id = given }

abbrev pub insert_row :
    List ReservationType → Reservation → List Reservation → Option (List Reservation)
insert_row types r rows =
    if any (takes_key r) rows
    then some rows
    else if refers types r.type_id
    then some (rows ++ r ∷ [])
    else none

abbrev pub then_rows :
    (List Reservation → Option (List Reservation))
    → Option (List Reservation)
    → Option (List Reservation)
then_rows next none = none
then_rows next (some rows) = next rows

-- The INSERTs, one after another; `none` is a reference to a type that is not there.
unfoldable pub insert_rows :
    Option ℕ
    → List ReservationType
    → List Reservation
    → List Reservation
    → Option (List Reservation)
insert_rows given types [] rows = some rows
insert_rows given types (r ∷ rest) rows =
    then_rows (insert_rows given types rest) (insert_row types (own_row given r) rows)

-- COALESCE((SELECT MAX(id) FROM ...), 0) + 1
abbrev pub max_id : List ℕ → ℕ
max_id [] = 0
max_id (n ∷ rest) = max n (max_id rest)

abbrev pub with_tables : List ReservationType → List Reservation → Database → Database
with_tables types rows db = record db {
  reservation_types = types;
  next_type_id = suc (max_id (map (λ t. t.id) types));
  reservations = rows;
  next_reservation_id = suc (max_id (map (λ r. r.id) rows));
}

-- How the import ends: with the text of a ValueError, with another exception, or with the new state.
pub data Import : Type 0 where
  refused : Text → Import
  broken : Import
  imported : Database → Import

abbrev pub imported_rows : List ReservationType → Database → Option (List Reservation) → Import
imported_rows types db none = broken
imported_rows types db (some rows) = imported (with_tables types rows db)

-- A type of the account that a row of no or another account refers to cannot be deleted.
abbrev pub is_needed : ℕ → Database → Bool
is_needed owner db =
    any (λ t. any (λ r. not (owns_row owner r) && is_id r.type_id t.id) db.reservations)
      (select_where (owns_type owner) db.reservation_types)

abbrev pub other_types : ℕ → Database → List ReservationType
other_types owner db = select_where (λ t. not (owns_type owner t)) db.reservation_types

abbrev pub other_rows : ℕ → Database → List Reservation
other_rows owner db = select_where (λ r. not (owns_row owner r)) db.reservations

-- The statements after the checks: DELETE, DELETE, the INSERTs and the sequences.
unfoldable pub replace_tables : ℕ → AccountBackup → Database → Import
unfolding insert_types insert_rows
replace_tables owner backup db =
    if is_needed owner db
    then broken
    else (let types =
          insert_types (given_owner backup.types_name_owner owner) backup.types
            (other_types owner db) in
        imported_rows types db (
          insert_rows (given_owner backup.reservations_name_owner owner) types backup.reservations
            (other_rows owner db)))

unfoldable pub import_account_tables : ℕ → AccountBackup → Database → Import
unfolding replace_tables decimal
import_account_tables owner backup db =
    let type_conflicts = conflicting_types owner backup.types db in
    let row_conflicts = conflicting_rows owner backup.reservations db in
    if not (is_nil type_conflicts)
    then refused (conflict_message (codes "種類") type_conflicts)
    else if not (is_nil row_conflicts)
    then refused (conflict_message (codes "予約") row_conflicts)
    else replace_tables owner backup db
