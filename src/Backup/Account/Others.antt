-- ===== src/Backup/Account/Others.antt =====
-- What the restoration of one account leaves alone.
use linebot.Prelude.{
  ℕ, ◌≡◌, refl, subst, Bool, true, false, Bool-cases, inl, inr, ◌∙◌, not, Option, none, some, List,
  [], ◌∷◌, any, select_where, select_where-append, ==-refl, if_cases,
}
use linebot.Database.Tables.{Reservation, ReservationType, Database, is_id}
use linebot.Backup.Account.{
  AccountBackup, is_of_another, given_owner, owns_type, owns_row, own_type, own_row, takes_type_key,
  takes_key, refers, insert_type, insert_types, insert_row, insert_rows, then_rows, Import, refused,
  broken, imported, imported_rows, other_types, other_rows, is_needed, replace_tables,
  import_account_tables, conflicting_types, conflicting_rows, is_nil,
}

abbrev pub types_of_others : ℕ → Database → List ReservationType
types_of_others owner db =
    select_where (λ t. is_of_another owner t.owner_admin_id) db.reservation_types

abbrev pub rows_of_others : ℕ → Database → List Reservation
rows_of_others owner db = select_where (λ r. is_of_another owner r.owner_admin_id) db.reservations

-- The types and reservations of the other accounts are row for row the same, and so are the accounts, the
-- settings and the number sequences. Those of no account are the same too, where the backup names the owner.
pub record KeepsOthers (owner : ℕ) (backup : AccountBackup) (db db' : Database) : Type 0 where
  pub types_kept : types_of_others owner db' ≡ types_of_others owner db
  pub rows_kept : rows_of_others owner db' ≡ rows_of_others owner db
  pub all_types_kept : backup.types_name_owner ≡ true → other_types owner db' ≡ other_types owner db
  pub all_rows_kept :
      backup.reservations_name_owner ≡ true → other_rows owner db' ≡ other_rows owner db
  pub accounts_kept : db'.admin_accounts ≡ db.admin_accounts
  pub settings_kept : db'.app_settings ≡ db.app_settings
  pub sequences_kept : db'.reservation_number_sequences ≡ db.reservation_number_sequences

-- An import that ends in an error leaves the whole state, by its rollback.
abbrev pub AfterImport : (Database → Type 0) → Import → Type 0
AfterImport P (refused message) = Unit
AfterImport P broken = Unit
AfterImport P (imported db) = P db

-- A query that finds no row of the owner that the INSERTs give finds what it found before them.
module _ (given : Option ℕ) (p : Option ℕ → Bool) (apart : p given ≡ false) where
  abbrev finds_type : ReservationType → Bool
  finds_type t = p t.owner_admin_id

  abbrev finds_row : Reservation → Bool
  finds_row r = p r.owner_admin_id

  insert_types-others :
      (backup types : List ReservationType)
      → select_where finds_type (insert_types given backup types) ≡ select_where finds_type types
  unfolding insert_types
  insert_types-others [] types = refl
  insert_types-others (t ∷ backup) types =
      insert_types-others backup (insert_type (own_type given t) types)
      ∙ if_cases (λ ts. select_where finds_type ts ≡ select_where finds_type types)
          (any (takes_type_key (own_type given t)) types) _ _ (λ _. refl)
          (λ _. select_where-append finds_type types (own_type given t) apart)

  abbrev SameOthers : List Reservation → Option (List Reservation) → Type 0
  SameOthers rows none = Unit
  SameOthers rows (some rows') = select_where finds_row rows' ≡ select_where finds_row rows

  insert_row-others :
      (types : List ReservationType) (r : Reservation) (rows : List Reservation)
      → SameOthers rows (insert_row types (own_row given r) rows)
  insert_row-others types r rows =
      if_cases (SameOthers rows) (any (takes_key (own_row given r)) rows) _ _ (λ _. refl)
        (λ _.
          if_cases (SameOthers rows) (refers types r.type_id) _ _
            (λ _. select_where-append finds_row rows (own_row given r) apart) (λ _. tt))

  then-SameOthers :
      (next : List Reservation → Option (List Reservation)) (rows : List Reservation)
      (o : Option (List Reservation))
      → ((rows' : List Reservation) → SameOthers rows' (next rows'))
      → SameOthers rows o
      → SameOthers rows (then_rows next o)
  then-SameOthers next rows none step h = tt
  then-SameOthers next rows (some rows') step h = joined (next rows') (step rows')
    where
      joined : (o : Option (List Reservation)) → SameOthers rows' o → SameOthers rows o
      joined none k = tt
      joined (some rows'') k = k ∙ h

  insert_rows-others :
      (types : List ReservationType) (backup rows : List Reservation)
      → SameOthers rows (insert_rows given types backup rows)
  unfolding insert_rows
  insert_rows-others types [] rows = refl
  insert_rows-others types (r ∷ backup) rows =
      then-SameOthers (insert_rows given types backup) rows
        (insert_row types (own_row given r) rows) (insert_rows-others types backup)
        (insert_row-others types r rows)

-- A query over what a wider one finds finds what it finds in the whole table.
select-narrow :
    {A : Type 0} (p wide : A → Bool) (xs : List A)
    → ((x : A) → wide x ≡ false → p x ≡ false)
    → select_where p (select_where wide xs) ≡ select_where p xs
select-narrow p wide [] h = refl
select-narrow p wide (x ∷ xs) h = elim (Bool-cases (wide x)) [
  | inr f ↦ rw (f, h x f) (select-narrow p wide xs h)
  | inl t ↦ rw (t, select-narrow p wide xs h) refl
]

-- What is of another account is not of this one.
not_own-narrow :
    (owner : ℕ) (o : Option ℕ) → not (is_id o owner) ≡ false → is_of_another owner o ≡ false
not_own-narrow owner none h = refl
not_own-narrow owner (some m) h = h

given-apart : (named : Bool) (owner : ℕ) → is_of_another owner (given_owner named owner) ≡ false
given-apart true owner = rw (==-refl owner) refl
given-apart false owner = refl

named-apart :
    (named : Bool) (owner : ℕ) → named ≡ true → not (is_id (given_owner named owner) owner) ≡ false
named-apart named owner h = rw (h, ==-refl owner) refl

module _ (owner : ℕ) (backup : AccountBackup) (db : Database) where
  abbrev type_owner : Option ℕ
  type_owner = given_owner backup.types_name_owner owner

  abbrev row_owner : Option ℕ
  row_owner = given_owner backup.reservations_name_owner owner

  abbrev types : List ReservationType
  types = insert_types type_owner backup.types (other_types owner db)

  -- What a query that is no wider than that for the others finds after the INSERTs.
  types-same :
      (p : Option ℕ → Bool)
      → p type_owner ≡ false
      → ((o : Option ℕ) → not (is_id o owner) ≡ false → p o ≡ false)
      → select_where (λ t. p t.owner_admin_id) types
        ≡ select_where (λ t. p t.owner_admin_id) db.reservation_types
  types-same p apart narrow =
      insert_types-others type_owner p apart backup.types (other_types owner db)
      ∙ select-narrow (λ t. p t.owner_admin_id) (λ t. not (owns_type owner t)) db.reservation_types
          (λ t. narrow t.owner_admin_id)

  rows-same :
      (p : Option ℕ → Bool) (rows : List Reservation)
      → insert_rows row_owner types backup.reservations (other_rows owner db) ≡ some rows
      → p row_owner ≡ false
      → ((o : Option ℕ) → not (is_id o owner) ≡ false → p o ≡ false)
      → select_where (λ r. p r.owner_admin_id) rows
        ≡ select_where (λ r. p r.owner_admin_id) db.reservations
  rows-same p rows e apart narrow =
      subst (SameOthers row_owner p apart (other_rows owner db)) e
        (insert_rows-others row_owner p apart types backup.reservations (other_rows owner db))
      ∙ select-narrow (λ r. p r.owner_admin_id) (λ r. not (owns_row owner r)) db.reservations
          (λ r. narrow r.owner_admin_id)

  imported-KeepsOthers :
      (o : Option (List Reservation))
      → insert_rows row_owner types backup.reservations (other_rows owner db) ≡ o
      → AfterImport (KeepsOthers owner backup db) (imported_rows types db o)
  imported-KeepsOthers none e = tt
  imported-KeepsOthers (some rows) e = record {
    types_kept =
        types-same (is_of_another owner) (given-apart backup.types_name_owner owner)
          (not_own-narrow owner);
    rows_kept =
        rows-same (is_of_another owner) rows e (given-apart backup.reservations_name_owner owner)
          (not_own-narrow owner);
    all_types_kept = λ named.
        types-same (λ o. not (is_id o owner)) (named-apart backup.types_name_owner owner named)
          (λ o h. h);
    all_rows_kept = λ named.
        rows-same (λ o. not (is_id o owner)) rows e
          (named-apart backup.reservations_name_owner owner named) (λ o h. h);
    accounts_kept = refl;
    settings_kept = refl;
    sequences_kept = refl;
  }

-- Restoring an account, from whatever backup, leaves the types and reservations of every other account, the
-- accounts, the settings and the number sequences exactly as they were. Where the backup's types, or its
-- reservations, have the column of the owner, so do those of no account stay.
pub import_account-KeepsOthers :
    (owner : ℕ) (backup : AccountBackup) (db : Database)
    → AfterImport (KeepsOthers owner backup db) (import_account_tables owner backup db)
unfolding import_account_tables replace_tables
import_account-KeepsOthers owner backup db =
    let Kept = AfterImport (KeepsOthers owner backup db) in
    if_cases Kept (not (is_nil (conflicting_types owner backup.types db))) _ _ (λ _. tt)
      (λ _.
        if_cases Kept (not (is_nil (conflicting_rows owner backup.reservations db))) _ _ (λ _. tt)
          (λ _.
            if_cases Kept (is_needed owner db) _ _ (λ _. tt)
              (λ _. imported-KeepsOthers owner backup db _ refl)))
