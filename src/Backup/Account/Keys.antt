-- ===== src/Backup/Account/Keys.antt =====
-- The keys and references of the tables after the restoration of one account.
use linebot.Prelude.{
  ℕ, ◌≡◌, refl, true, false, ◌&&◌, Option, none, some, List, [], ◌∷◌, ◌++◌, any, any-append,
  any-false→All, All, All-append, All-map, arith, if_cases,
}
use linebot.Database.Tables.{Reservation, ReservationType}
use linebot.Invariant.{Distinct, Pairwise, IsTimed, same_id}
use linebot.Invariant.Reserve.{Pairwise-append, same_id-some}
use linebot.Admin.Types.Apart.{ApartTypes}
use linebot.Admin.Types.Kept.{IsKnown, has_type_id}
use linebot.Backup.Account.{
  own_type, own_row, takes_type_key, takes_key, number_taken, refers, insert_type, insert_types,
  insert_row, insert_rows, then_rows,
}

same_id-none : (o : Option ℕ) → same_id o none ≡ false
same_id-none none = refl
same_id-none (some m) = refl

apart_by_type_key : (t s : ReservationType) → takes_type_key t s ≡ false → ApartTypes s t
apart_by_type_key t s h = (ground arith, ground arith)

apart_by_key :
    (given : Option ℕ) (r s : Reservation)
    → takes_key (own_row given r) s ≡ false
    → Distinct s (own_row given r)
apart_by_key given r s h = record {
  ids = ground arith;
  actives = ground arith;
  numbers = numbers given r.reservation_no (ground arith);
}
  where
    numbers :
        (g o : Option ℕ)
        → number_taken g o s ≡ false
        → (same_id s.owner_admin_id g && same_id s.reservation_no o) ≡ false
    numbers none o k = rw (same_id-none s.owner_admin_id) refl
    numbers (some owner) none k = rw (same_id-none s.reservation_no) (ground arith)
    numbers (some owner) (some n) k =
        rw (same_id-some s.owner_admin_id owner, same_id-some s.reservation_no n) k

module _ (given : Option ℕ) where
  pub insert_types-apart :
      (backup types : List ReservationType)
      → Pairwise ApartTypes types
      → Pairwise ApartTypes (insert_types given backup types)
  unfolding insert_types
  insert_types-apart [] types h = h
  insert_types-apart (t ∷ backup) types h =
      insert_types-apart backup (insert_type (own_type given t) types) (
        if_cases (Pairwise ApartTypes) (any (takes_type_key (own_type given t)) types) _ _ (λ _. h)
          (λ free. Pairwise-append ApartTypes types (own_type given t) h (
            All-map (λ s. takes_type_key (own_type given t) s ≡ false)
              (λ s. ApartTypes s (own_type given t)) types
              (λ s. apart_by_type_key (own_type given t) s)
              (any-false→All (takes_type_key (own_type given t)) types free))))

  -- The INSERTs lose no type.
  pub insert_types-IsKnown :
      (backup types : List ReservationType) (o : Option ℕ)
      → IsKnown types o
      → IsKnown (insert_types given backup types) o
  unfolding insert_types
  insert_types-IsKnown [] types o h = h
  insert_types-IsKnown (t ∷ backup) types o h =
      insert_types-IsKnown backup (insert_type (own_type given t) types) o (
        if_cases (λ ts. IsKnown ts o) (any (takes_type_key (own_type given t)) types) _ _ (λ _. h)
          (λ _. kept o h))
    where
      kept : (o : Option ℕ) → IsKnown types o → IsKnown (types ++ own_type given t ∷ []) o
      kept none k = tt
      kept (some i) k = rw (any-append (has_type_id i) types (own_type given t ∷ []), k) refl

-- The rows are well formed, and their types are as `K` says.
abbrev pub Sound : (Option ℕ → Type 0) → List Reservation → Type 0
Sound K rows = Pairwise Distinct rows × All IsTimed rows × All (λ r. K r.type_id) rows

abbrev pub SoundIfAny : (Option ℕ → Type 0) → Option (List Reservation) → Type 0
SoundIfAny K none = Unit
SoundIfAny K (some rows) = Sound K rows

pub refers-IsKnown :
    (types : List ReservationType) (o : Option ℕ) → refers types o ≡ true → IsKnown types o
refers-IsKnown types none h = tt
refers-IsKnown types (some i) h = h

module _ (given : Option ℕ) (types : List ReservationType) (K : Option ℕ → Type 0)
    (known : (o : Option ℕ) → refers types o ≡ true → K o) where
  insert_row-Sound :
      (r : Reservation) (rows : List Reservation)
      → IsTimed r
      → Sound K rows
      → SoundIfAny K (insert_row types (own_row given r) rows)
  insert_row-Sound r rows timed s =
      if_cases (SoundIfAny K) (any (takes_key (own_row given r)) rows) _ _ (λ _. s)
        (λ free.
          if_cases (SoundIfAny K) (refers types r.type_id) _ _
            (λ there. (
              Pairwise-append Distinct rows (own_row given r) s.0 (
                  All-map (λ x. takes_key (own_row given r) x ≡ false)
                    (λ x. Distinct x (own_row given r)) rows (λ x. apart_by_key given r x)
                    (any-false→All (takes_key (own_row given r)) rows free)),
              All-append IsTimed rows (own_row given r ∷ []) s.1 (timed, tt),
              All-append (λ x. K x.type_id) rows (own_row given r ∷ []) s.2
                  (known r.type_id there, tt),
            ))
            (λ _. tt))

  then-SoundIfAny :
      (next : List Reservation → Option (List Reservation)) (o : Option (List Reservation))
      → ((rows : List Reservation) → Sound K rows → SoundIfAny K (next rows))
      → SoundIfAny K o
      → SoundIfAny K (then_rows next o)
  then-SoundIfAny next none step s = tt
  then-SoundIfAny next (some rows) step s = step rows s

  pub insert_rows-Sound :
      (backup rows : List Reservation)
      → All IsTimed backup
      → Sound K rows
      → SoundIfAny K (insert_rows given types backup rows)
  unfolding insert_rows
  insert_rows-Sound [] rows timed s = s
  insert_rows-Sound (r ∷ backup) rows timed s =
      then-SoundIfAny (insert_rows given types backup) (insert_row types (own_row given r) rows)
        (λ rows' s'. insert_rows-Sound backup rows' timed.1 s') (insert_row-Sound r rows timed.0 s)
