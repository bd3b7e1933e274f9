-- ===== src/Admin/Types/Foreign.antt =====
-- What an admin's requests leave alone: the types of the others, and the rows of the other tables.
use linebot.Prelude.{
  ℕ, ◌≡◌, refl, Bool, true, false, not, ◌&&◌, List, [], ◌∷◌, select_where, select_where-append,
  update_where, arith, ◌==◌, if◌then◌else◌, some,
}
use linebot.Config.{Config}
use linebot.Database.Tables.{ReservationType, Database, is_id}
use linebot.Line.Image.{Imaging}
use linebot.Admin.Types.{is_own_type}
use linebot.Admin.Types.Rows.{TypeEdit, run_edit, new_type}
use linebot.Admin.Types.Change.{
  TypeChange, same, used_up, added, deleted, updated, renamed, run_edit_change,
}

abbrev pub is_of_other : ℕ → ReservationType → Bool
is_of_other admin t = not (is_id t.owner_admin_id admin)

abbrev pub types_of_others : ℕ → Database → List ReservationType
types_of_others admin db = select_where (is_of_other admin) db.reservation_types

-- The types of the other admins are row for row the same, and so are all other tables and their sequences.
pub record LeavesOthers (admin : ℕ) (db db' : Database) : Type 0 where
  pub others : types_of_others admin db' ≡ types_of_others admin db
  pub rows : db'.reservations ≡ db.reservations
  pub accounts : db'.admin_accounts ≡ db.admin_accounts
  pub settings : db'.app_settings ≡ db.app_settings
  pub sequences : db'.reservation_number_sequences ≡ db.reservation_number_sequences
  pub webhook_events : db'.webhook_events ≡ db.webhook_events
  pub login_attempts : db'.login_attempt_records ≡ db.login_attempt_records
  pub user_requests : db'.user_request_records ≡ db.user_request_records
  pub login_logs : db'.admin_login_logs ≡ db.admin_login_logs
  pub next_reservation : db'.next_reservation_id ≡ db.next_reservation_id
  pub next_account : db'.next_account_id ≡ db.next_account_id

module _ (admin : ℕ) where
  others-deleted :
      (type_id : ℕ) (types : List ReservationType)
      → select_where
          (is_of_other admin)
          (select_where (λ t. not (is_own_type admin type_id t)) types)
        ≡ select_where (is_of_other admin) types
  others-deleted type_id [] = refl
  others-deleted type_id (s ∷ types) =
      go (s.id == type_id) (is_id s.owner_admin_id admin) refl (others-deleted type_id types)
    where
      go :
          (i o : Bool)
          → is_id s.owner_admin_id admin ≡ o
          → select_where
              (is_of_other admin)
              (select_where (λ t. not (is_own_type admin type_id t)) types)
            ≡ select_where (is_of_other admin) types
          → select_where (is_of_other admin) (
              let rest = select_where (λ t. not (is_own_type admin type_id t)) types in
              if not (i && o) then s ∷ rest else rest)
            ≡ (let rest = select_where (is_of_other admin) types in
                if not o then s ∷ rest else rest)
      go true true e rest = rest
      go true false e rest = rw (e, rest) refl
      go false true e rest = rw (e, rest) refl
      go false false e rest = rw (e, rest) refl

  others-updated :
      (type_id : ℕ) (f : ReservationType → ReservationType) (types : List ReservationType)
      → ((t : ReservationType) → (f t).owner_admin_id ≡ t.owner_admin_id)
      → select_where (is_of_other admin) (update_where (is_own_type admin type_id) f types)
        ≡ select_where (is_of_other admin) types
  others-updated type_id f [] kept = refl
  others-updated type_id f (s ∷ types) kept =
      go (s.id == type_id) (is_id s.owner_admin_id admin) refl (others-updated type_id f types kept)
    where
      go :
          (i o : Bool)
          → is_id s.owner_admin_id admin ≡ o
          → select_where (is_of_other admin) (update_where (is_own_type admin type_id) f types)
            ≡ select_where (is_of_other admin) types
          → select_where
              (is_of_other admin)
              ((if i && o then f s else s) ∷ update_where (is_own_type admin type_id) f types)
            ≡ (let rest = select_where (is_of_other admin) types in
                if not o then s ∷ rest else rest)
      go true true e rest = rw (kept s, e) rest
      go true false e rest = rw (e, rest) refl
      go false true e rest = rw (e, rest) refl
      go false false e rest = rw (e, rest) refl

leaves :
    (admin : ℕ) (db : Database) (types : List ReservationType) (next : ℕ)
    → select_where (is_of_other admin) types ≡ types_of_others admin db
    → LeavesOthers admin db (record db { reservation_types = types; next_type_id = next })
leaves admin db types next e = record {
  others = e;
  rows = refl;
  accounts = refl;
  settings = refl;
  sequences = refl;
  webhook_events = refl;
  login_attempts = refl;
  user_requests = refl;
  login_logs = refl;
  next_reservation = refl;
  next_account = refl;
}

change-LeavesOthers :
    (admin : ℕ) (db db' : Database) → TypeChange admin db db' → LeavesOthers admin db db'
change-LeavesOthers admin db _ same = leaves admin db db.reservation_types db.next_type_id refl
change-LeavesOthers admin db _ used_up = leaves admin db db.reservation_types _ refl
change-LeavesOthers admin db _ (added name flavor image price free) = leaves admin db _ _ (
    select_where-append (is_of_other admin) db.reservation_types
      (new_type db.next_type_id admin name flavor image price) (ground arith))
change-LeavesOthers admin db _ (deleted type_id unused) =
    leaves admin db _ _ (others-deleted admin type_id db.reservation_types)
change-LeavesOthers admin db _ (updated type_id f k) =
    leaves admin db _ _ (others-updated admin type_id f db.reservation_types k.owner_kept)
change-LeavesOthers admin db _ (renamed type_id name free) =
    leaves admin db _ _ (
      others-updated admin type_id (λ t. record t { name = name }) db.reservation_types (λ t. refl))

-- Whatever an admin asks of the types, those of the other admins are as before, row for row, and so are all
-- the other tables: reservations, accounts, settings, number sequences, handled events, attempts to log in,
-- requests of users and the log of logins.
pub run_edit-LeavesOthers :
    (imaging : Imaging) (config : Config) (admin : ℕ) (edit : TypeEdit) (db : Database)
    → LeavesOthers admin db (run_edit imaging config (some admin) edit db).1
run_edit-LeavesOthers imaging config admin edit db =
    change-LeavesOthers admin db _ (run_edit_change admin db imaging config edit)
