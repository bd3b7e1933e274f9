-- ===== src/Database/Schema.antt =====
-- database.py: what `ensure_database_schema` does to the rows, each time that the program starts. The
-- tables, columns and indexes that it creates are those of Database/Tables.antt.
pub mod Restart
use linebot.Prelude.{
  ℕ, zero, suc, ◌+◌, max, Bool, true, false, not, ◌&&◌, ◌||◌, Option, none, some, List, [], ◌∷◌,
  ◌++◌, Text, codes, text_eq, any, find_where, select_where, update_where, count_where, order_by,
  ltb, ◌==◌, if◌then◌else◌, map,
}
use linebot.Database.Tables.{
  Status, Role, Reservation, ReservationType, AdminAccount, AppSetting, NumberSequence, Database,
  status_eq, role_eq, is_id, coalesce_or,
}
use linebot.Database.Rows.{type_of, owner_of, type_owner}
use linebot.Database.Settings.{lookup, upsert}

abbrev number_or_zero : Option ℕ → ℕ
number_or_zero none = 0
number_or_zero (some n) = n

-- COALESCE(MAX(r.reservation_no), 0) over the reservations of an owner
abbrev pub max_number : ℕ → List Reservation → ℕ
max_number owner [] = 0
max_number owner (r ∷ rs) =
    max (if is_id r.owner_admin_id owner then number_or_zero r.reservation_no else 0)
      (max_number owner rs)

-- INSERT ... ON CONFLICT (owner_admin_id) DO UPDATE SET next_sequence = GREATEST(old, new)
abbrev pub raise_sequence : ℕ → ℕ → List NumberSequence → List NumberSequence
raise_sequence owner n [] = record { owner_admin_id = owner; next_sequence = n } ∷ []
raise_sequence owner n (s ∷ rest) =
    if s.owner_admin_id == owner
    then record s { next_sequence = max s.next_sequence n } ∷ rest
    else s ∷ raise_sequence owner n rest

abbrev pub raise_sequences :
    List Reservation → List AdminAccount → List NumberSequence → List NumberSequence
raise_sequences rows [] sequences = sequences
raise_sequences rows (a ∷ rest) sequences =
    raise_sequences rows rest (raise_sequence a.id (max 1 (max_number a.id rows + 1)) sequences)

-- The statement of `ensure_admin_accounts_table` on `reservation_number_sequences`.
unfoldable pub ensure_number_sequences : Database → Database
ensure_number_sequences db = record db {
  reservation_number_sequences =
      raise_sequences db.reservations db.admin_accounts db.reservation_number_sequences;
}

-- INSERT ... ON CONFLICT (login_id) DO UPDATE SET password_hash = EXCLUDED.password_hash. The id is drawn
-- before the conflict is seen.
unfoldable pub ensure_account : Text → Text → Role → Database → Database
ensure_account login_id password_hash role db = record db {
  next_account_id = suc db.next_account_id;
  admin_accounts =
      if any (λ a. text_eq a.login_id login_id) db.admin_accounts
      then update_where (λ a. text_eq a.login_id login_id)
          (λ a. record a { password_hash = password_hash }) db.admin_accounts
      else db.admin_accounts
        ++ record {
          id = db.next_account_id;
          login_id = login_id;
          password_hash = password_hash;
          role = role;
          active = true;
          accepting_new = true;
          auto_call_count = 0;
        }
          ∷ [];
}

abbrev ensure_audit : Option Text → Database → Database
ensure_audit none db = db
ensure_audit (some hash) db = ensure_account (codes "audit") hash Role.audit_admin db

unfoldable pub ensure_admin_accounts_table : Text → Option Text → Database → Database
unfolding ensure_number_sequences ensure_account
ensure_admin_accounts_table admin_hash audit_hash db =
    ensure_audit audit_hash
      (ensure_account (codes "admin") admin_hash Role.admin (ensure_number_sequences db))

abbrev has_type : Database → Option ℕ → Bool
has_type db none = true
has_type db (some i) = any (λ t. t.id == i) db.reservation_types

-- type_id = NULL where the type is gone
unfoldable pub drop_lost_types : Database → Database
drop_lost_types db = record db {
  reservations =
      update_where (λ r. not (has_type db r.type_id)) (λ r. record r { type_id = none })
        db.reservations;
}

abbrev has_owner : Option ℕ → Bool
has_owner none = false
has_owner (some i) = true

abbrev first_admin : Database → Option AdminAccount
first_admin db =
    elim (order_by (λ a. a.id)
      (select_where (λ a. role_eq a.role Role.admin && a.active) db.admin_accounts)) [
        | [] ↦ none
        | a ∷ rest ↦ some a
      ]

abbrev own_types : Option AdminAccount → Database → Database
own_types none db = db
own_types (some a) db = record db {
  reservation_types =
      update_where (λ t. not (has_owner t.owner_admin_id))
        (λ t. record t { owner_admin_id = some a.id }) db.reservation_types;
}

-- SET owner_admin_id = t.owner_admin_id where the reservation has none and its type has one
unfoldable pub fill_owners : Database → Database
unfolding type_of
fill_owners db = record db {
  reservations =
      update_where (λ r. not (has_owner r.owner_admin_id) && has_owner (type_owner (type_of db r)))
        (λ r. record r { owner_admin_id = type_owner (type_of db r) }) db.reservations;
}

abbrev same_owner : Option ℕ → Option ℕ → Bool
same_owner none b = false
same_owner (some m) b = is_id b m

-- The order of the window: created_at ASC NULLS LAST, id ASC.
abbrev created_before : Option ℕ → Option ℕ → Bool → Bool
created_before none none by_id = by_id
created_before none (some b) by_id = false
created_before (some a) none by_id = true
created_before (some a) (some b) by_id = ltb a b || ((a == b) && by_id)

abbrev is_unnumbered : Reservation → Bool
is_unnumbered r = has_owner r.owner_admin_id && not (has_owner r.reservation_no)

abbrev is_numbered_before : Reservation → Reservation → Bool
is_numbered_before r s =
    is_unnumbered s
    && same_owner r.owner_admin_id s.owner_admin_id
    && created_before s.created_at r.created_at (ltb s.id r.id)

abbrev max_number_of : Option ℕ → List Reservation → ℕ
max_number_of none rows = 0
max_number_of (some owner) rows = max_number owner rows

-- The numbers that old rows without one get: on from the owner's greatest, in the window's order.
unfoldable pub number_rows : Database → Database
number_rows db = record db {
  reservations =
      update_where is_unnumbered
        (λ r. record r {
          reservation_no = some (
              max_number_of r.owner_admin_id db.reservations
              + suc (count_where (is_numbered_before r) db.reservations));
        })
        db.reservations;
}

unfoldable pub sync_reservation_owner_numbers : Database → Database
unfolding fill_owners number_rows
sync_reservation_owner_numbers db = number_rows (fill_owners db)

unfoldable pub ensure_types_table : Database → Database
unfolding drop_lost_types sync_reservation_owner_numbers order_by
ensure_types_table db =
    let kept = drop_lost_types db in
    sync_reservation_owner_numbers (own_types (first_admin kept) kept)

-- INSERT ... ON CONFLICT (key) DO NOTHING
abbrev insert_default : Text → Text → List AppSetting → List AppSetting
insert_default key value settings = elim (lookup key settings) [
  | none ↦ settings ++ record { key = key; value = value } ∷ []
  | some v ↦ settings
]

abbrev insert_defaults : List Text → Text → List AppSetting → List AppSetting
insert_defaults [] value settings = settings
insert_defaults (key ∷ keys) value settings =
    insert_defaults keys value (insert_default key value settings)

abbrev text_setting_keys : List Text
text_setting_keys =
    codes "last_auto_call_run_at"
    ∷ codes "previous_auto_call_run_at"
    ∷ codes "last_wait_time_run_at"
    ∷ []

abbrev count_setting_keys : List Text
count_setting_keys =
    codes "last_auto_call_sent_count"
    ∷ codes "last_auto_call_failed_count"
    ∷ codes "last_auto_call_selected_count"
    ∷ codes "previous_auto_call_sent_count"
    ∷ codes "previous_auto_call_failed_count"
    ∷ codes "previous_auto_call_selected_count"
    ∷ codes "last_wait_time_estimated_seconds"
    ∷ codes "last_wait_time_waiting_count"
    ∷ codes "last_wait_time_avg_service_seconds"
    ∷ []

-- The rows of the table are a set: their order is not the program's.
unfoldable pub ensure_settings_table : Database → Database
ensure_settings_table db = record db {
  app_settings = insert_defaults count_setting_keys (codes "0") (
      insert_defaults text_setting_keys [] (
        select_where (λ s. not (text_eq s.key (codes "auto_call_count")))
          (insert_default (codes "accepting_new") (codes "true") db.app_settings)));
}

unfoldable pub migrate_legacy_queued_calls : Database → Database
migrate_legacy_queued_calls db = record db {
  reservations =
      update_where (λ r. status_eq r.status Status.queued_call)
        (λ r. record r { status = Status.waiting }) db.reservations;
}

-- The first call after a start; a later one finds SCHEMA_READY and does nothing.
unfoldable pub ensure_database_schema : Text → Option Text → Database → Database
unfolding ensure_admin_accounts_table ensure_types_table ensure_settings_table
    migrate_legacy_queued_calls
ensure_database_schema admin_hash audit_hash db = migrate_legacy_queued_calls (
    ensure_settings_table
      (ensure_types_table (ensure_admin_accounts_table admin_hash audit_hash db)))
