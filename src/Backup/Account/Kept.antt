-- ===== src/Backup/Account/Kept.antt =====
-- The restoration of one account keeps the tables well formed.
use linebot.Prelude.{
  ℕ, suc, ◌<◌, ◌≡◌, refl, Bool, true, false, not, ◌&&◌, Option, none, some, List, [], ◌∷◌, any,
  any-or, any-split, All, All-map, All-select, select_where, map, arith, Bool-cases, inl, inr,
  if_cases,
}
use linebot.Database.Tables.{Reservation, ReservationType, Database, is_id}
use linebot.Invariant.{Distinct, Pairwise, Pairwise-select, IsTimed, IsConsistent, Unit-All}
use linebot.Admin.Types.Apart.{ApartTypes}
use linebot.Admin.Types.Kept.{TypesConsistent, IsKnown, has_type_id}
use linebot.Backup.Account.{
  AccountBackup, given_owner, owns_type, owns_row, insert_types, max_id, imported_rows, other_types,
  other_rows, is_needed, replace_tables, import_account_tables, conflicting_types, conflicting_rows,
  is_nil,
}
use linebot.Backup.Account.Others.{AfterImport}
use linebot.Backup.Account.Keys.{
  insert_types-apart, insert_types-IsKnown, Sound, SoundIfAny, refers-IsKnown, insert_rows-Sound,
}

-- No query of either kind finds a row, in either order of asking.
any_swap :
    {A B : Type 0} (q : A → B → Bool) (xs : List A) (ys : List B)
    → any (λ x. any (q x) ys) xs ≡ false
    → All (λ y. any (λ x. q x y) xs ≡ false) ys
any_swap q xs [] h = tt
any_swap q xs (y ∷ ys) h =
    let apart = any-or (λ x. q x y) (λ x. any (q x) ys) xs in
    (ground (arith, apart), any_swap q xs ys (ground (arith, apart)))

below_max :
    {A : Type 0} (key : A → ℕ) (xs : List A) → All (λ x. key x < suc (max_id (map key xs))) xs
below_max key [] = tt
below_max key (x ∷ xs) = (
  omega arith,
  All-map (λ y. key y < suc (max_id (map key xs))) (λ y. key y < suc (max_id (map key (x ∷ xs)))) xs
      (λ y h. omega arith) (below_max key xs),
)

All-selected :
    {A : Type 0} (p : A → Bool) (P Q R : A → Type 0) (xs : List A)
    → ((x : A) → p x ≡ true → P x → Q x → R x)
    → All P xs
    → All Q xs
    → All R (select_where p xs)
All-selected p P Q R [] f h k = tt
All-selected p P Q R (x ∷ xs) f h k = elim (Bool-cases (p x)) [
  | inl t ↦ rw t (f x t h.0 k.0, All-selected p P Q R xs f h.1 k.1)
  | inr e ↦ rw e (All-selected p P Q R xs f h.1 k.1)
]

any_same :
    {A : Type 0} (q r : A → Bool) (xs : List A)
    → ((x : A) → q x ≡ true → r x ≡ true)
    → any r xs ≡ false
    → any q xs ≡ false
any_same q r [] f h = refl
any_same q r (x ∷ xs) f h = ground (arith, f x, any_same q r xs f)

module _ (owner : ℕ) (db : Database) where
  -- Once the DELETE of the types goes through, the rows that are left refer to types that are left.
  left-IsKnown :
      (r : Reservation)
      → any
          (λ t. not (owns_row owner r) && is_id r.type_id t.id)
          (select_where (owns_type owner) db.reservation_types)
        ≡ false
      → not (owns_row owner r) ≡ true
      → IsKnown db.reservation_types r.type_id
      → IsKnown (other_types owner db) r.type_id
  left-IsKnown r free other known = go r.type_id free known
    where
      go :
          (o : Option ℕ)
          → any
              (λ t. not (owns_row owner r) && is_id o t.id)
              (select_where (owns_type owner) db.reservation_types)
            ≡ false
          → IsKnown db.reservation_types o
          → IsKnown (other_types owner db) o
      go none k h = tt
      go (some i) k h =
          let none_own : any (has_type_id i) (select_where (owns_type owner) db.reservation_types)
              ≡ false =
            any_same (has_type_id i) (λ t. not (owns_row owner r) && is_id (some i) t.id)
              (select_where (owns_type owner) db.reservation_types) (λ t e. rw other (ground arith))
              k in
          let parts = any-split (has_type_id i) (owns_type owner) db.reservation_types in
          ground (arith, none_own, parts, h)

  left-Sound :
      IsConsistent db
      → TypesConsistent db
      → is_needed owner db ≡ false
      → Sound (IsKnown (other_types owner db)) (other_rows owner db)
  left-Sound c types free = (
    Pairwise-select (λ r. not (owns_row owner r)) Distinct db.reservations c.distinct,
    All-select IsTimed (λ r. not (owns_row owner r)) db.reservations c.timed,
    All-selected (λ r. not (owns_row owner r)) (λ r. needed r ≡ false)
        (λ r. IsKnown db.reservation_types r.type_id)
        (λ r. IsKnown (other_types owner db) r.type_id) db.reservations
        (λ r other none known. left-IsKnown r none other known)
        (any_swap (λ t r. not (owns_row owner r) && is_id r.type_id t.id)
          (select_where (owns_type owner) db.reservation_types) db.reservations free)
        types.known,
  )
    where
      needed : Reservation → Bool
      needed r =
          any (λ t. not (owns_row owner r) && is_id r.type_id t.id)
            (select_where (owns_type owner) db.reservation_types)

abbrev IsWellFormed : Database → Type 0
IsWellFormed db = IsConsistent db × TypesConsistent db

imported-WellFormed :
    (types : List ReservationType) (db : Database) (o : Option (List Reservation))
    → Pairwise ApartTypes types
    → SoundIfAny (IsKnown types) o
    → AfterImport IsWellFormed (imported_rows types db o)
imported-WellFormed types db none apart s = tt
imported-WellFormed types db (some rows) apart s = (
  record { distinct = s.0; below = below_max (λ r. r.id) rows; timed = s.1 },
  record { apart = apart; below = below_max (λ t. t.id) types; known = s.2 },
)

-- Restoring an account keeps the tables well formed, whatever the backup's keys and references are, as long
-- as the backup's reservations have the times of their statuses: reservations and types stay unique under
-- every index, their ids stay below the next ones, and each reservation's type is there.
pub import_account_keeps_keys :
    (owner : ℕ) (backup : AccountBackup) (db : Database)
    → IsConsistent db
    → TypesConsistent db
    → All IsTimed backup.reservations
    → AfterImport
        (λ db'. IsConsistent db' × TypesConsistent db')
        (import_account_tables owner backup db)
unfolding import_account_tables replace_tables
import_account_keeps_keys owner backup db c t timed =
    let type_owner = given_owner backup.types_name_owner owner in
    let row_owner = given_owner backup.reservations_name_owner owner in
    let types = insert_types type_owner backup.types (other_types owner db) in
    if_cases (AfterImport IsWellFormed) (not (is_nil (conflicting_types owner backup.types db))) _ _
      (λ _. tt)
      (λ _.
        if_cases (AfterImport IsWellFormed)
          (not (is_nil (conflicting_rows owner backup.reservations db))) _ _ (λ _. tt)
          (λ _.
            if_cases (AfterImport IsWellFormed) (is_needed owner db) _ _ (λ _. tt)
              (λ free.
                let left = left-Sound owner db c t free in
                imported-WellFormed types db _
                  (insert_types-apart type_owner backup.types (other_types owner db) (
                    Pairwise-select (λ t. not (owns_type owner t)) ApartTypes db.reservation_types
                      t.apart))
                  (insert_rows-Sound row_owner types (IsKnown types) (refers-IsKnown types)
                    backup.reservations (other_rows owner db) timed
                    (
                      left.0,
                      left.1,
                      All-map (λ r. IsKnown (other_types owner db) r.type_id)
                          (λ r. IsKnown types r.type_id) (other_rows owner db)
                          (λ r.
                            insert_types-IsKnown type_owner backup.types (other_types owner db)
                              r.type_id)
                          left.2,
                    )))))

-- Restoring an account keeps the reservations well formed, whatever the types are.
imported-IsConsistent :
    (types : List ReservationType) (db : Database) (o : Option (List Reservation))
    → SoundIfAny (λ _. Unit {0}) o
    → AfterImport IsConsistent (imported_rows types db o)
imported-IsConsistent types db none s = tt
imported-IsConsistent types db (some rows) s = record {
  distinct = s.0;
  below = below_max (λ r. r.id) rows;
  timed = s.1;
}

pub import_account-IsConsistent :
    (owner : ℕ) (backup : AccountBackup) (db : Database)
    → IsConsistent db
    → All IsTimed backup.reservations
    → AfterImport IsConsistent (import_account_tables owner backup db)
unfolding import_account_tables replace_tables
import_account-IsConsistent owner backup db c timed =
    let row_owner = given_owner backup.reservations_name_owner owner in
    if_cases (AfterImport IsConsistent) (not (is_nil (conflicting_types owner backup.types db))) _ _
      (λ _. tt)
      (λ _.
        if_cases (AfterImport IsConsistent)
          (not (is_nil (conflicting_rows owner backup.reservations db))) _ _ (λ _. tt)
          (λ _.
            if_cases (AfterImport IsConsistent) (is_needed owner db) _ _ (λ _. tt)
              (λ _. imported-IsConsistent _ db _ (
                insert_rows-Sound row_owner _ (λ _. Unit {0}) (λ o h. tt) backup.reservations
                  (other_rows owner db) timed
                  (
                    Pairwise-select (λ r. not (owns_row owner r)) Distinct db.reservations
                        c.distinct,
                    All-select IsTimed (λ r. not (owns_row owner r)) db.reservations c.timed,
                    Unit-All (other_rows owner db),
                  )))))
