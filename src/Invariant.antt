-- ===== src/Invariant.antt =====
-- The well-formedness of the reservations table, and what keeps it: the unique indexes of
-- `ensure_reservations_table`, the SERIAL ids, and the times that go with each status.
pub mod Unique
pub mod Write
pub mod Batch
pub mod Reserve
pub mod Message
pub mod Admin
use linebot.Prelude.{
  ℕ, ◌<◌, ◌≡◌, ◌≢◌, Bool, true, false, ◌&&◌, Option, none, some, List, [], ◌∷◌, Text, text_eq, All,
  All-update, All-select, select_where, update_where, ◌==◌, if◌then◌else◌, arith, Bool-cases, inl,
  inr,
}
use linebot.Database.Tables.{Status, Reservation, Database, is_active}

abbrev pub is_some {ℓ} : {A : Type ℓ} → Option A → Bool
is_some none = false
is_some (some a) = true

abbrev pub IsAbsent {ℓ} : {A : Type ℓ} → Option A → Type 0
IsAbsent o = is_some o ≡ false

abbrev pub IsPresent {ℓ} : {A : Type ℓ} → Option A → Type 0
IsPresent o = is_some o ≡ true

-- What the times and the origin of a call say in each status.
abbrev pub Timed : Status → Option ℕ → Option Text → Option ℕ → Type 0
Timed Status.waiting called_at origin completed_at =
    IsAbsent called_at × IsAbsent origin × IsAbsent completed_at
Timed Status.called called_at origin completed_at =
    IsPresent called_at × IsPresent origin × IsAbsent completed_at
Timed Status.done called_at origin completed_at = IsPresent completed_at
Timed Status.cancelled called_at origin completed_at = IsPresent completed_at
Timed Status.queued_call called_at origin completed_at = IsAbsent completed_at

abbrev pub IsTimed : Reservation → Type 0
IsTimed r = Timed r.status r.called_at r.call_origin r.completed_at

abbrev pub same_id : Option ℕ → Option ℕ → Bool
same_id none b = false
same_id (some m) none = false
same_id (some m) (some n) = m == n

-- Two rows that `uq_reservations_user_active` forbids together.
abbrev pub clash_active : Reservation → Reservation → Bool
clash_active r s = text_eq r.user_id s.user_id && (is_active r.status && is_active s.status)

-- Two rows that `uq_reservations_owner_reservation_no` forbids together.
abbrev pub clash_number : Reservation → Reservation → Bool
clash_number r s =
    same_id r.owner_admin_id s.owner_admin_id && same_id r.reservation_no s.reservation_no

pub record Distinct (r s : Reservation) : Type 0 where
  pub ids : r.id ≢ s.id
  pub actives : clash_active r s ≡ false
  pub numbers : clash_number r s ≡ false

abbrev pub Pairwise {ℓ κ} : {A : Type ℓ} → (A → A → Type κ) → List A → Type κ
Pairwise R [] = Unit
Pairwise R (x ∷ xs) = All (R x) xs × Pairwise R xs

-- The invariant of the table.
pub record IsConsistent (db : Database) : Type 0 where
  pub distinct : Pairwise Distinct db.reservations
  pub below : All (λ r. r.id < db.next_reservation_id) db.reservations
  pub timed : All IsTimed db.reservations

-- What an UPDATE makes of one row.
abbrev pub written {ℓ} : {A : Type ℓ} → (A → Bool) → (A → A) → A → A
written p f x = if p x then f x else x

module _ {ℓ κ μ} {A : Type ℓ} (Q : A → Type μ) (p : A → Bool) (f : A → A) where
  pub All-written :
      (P R : A → Type κ) (xs : List A)
      → All Q xs
      → ((x : A) → Q x → P x → R (written p f x))
      → All P xs
      → All R (update_where p f xs)
  All-written P R [] q keep h = tt
  All-written P R (x ∷ xs) q keep h = (keep x q.0 h.0, All-written P R xs q.1 keep h.1)

  -- An UPDATE keeps a relation between the rows that each two of its writes keep.
  pub Pairwise-written :
      (R : A → A → Type κ) (xs : List A)
      → All Q xs
      → ((x y : A) → Q x → Q y → R x y → R (written p f x) (written p f y))
      → Pairwise R xs
      → Pairwise R (update_where p f xs)
  Pairwise-written R [] q keep h = tt
  Pairwise-written R (x ∷ xs) q keep h = (
    All-written (R x) (R (written p f x)) xs q.1 (λ y qy. keep x y q.0 qy) h.0,
    Pairwise-written R xs q.1 keep h.1,
  )

pub Pairwise-select :
    {A : Type 0} (p : A → Bool) (R : A → A → Type 0) (xs : List A)
    → Pairwise R xs
    → Pairwise R (select_where p xs)
Pairwise-select p R [] h = tt
Pairwise-select p R (x ∷ xs) h = elim (Bool-cases (p x)) [
  | inl t ↦ rw t (All-select (R x) p xs h.0, Pairwise-select p R xs h.1)
  | inr f ↦ rw f (Pairwise-select p R xs h.1)
]

and_weaken :
    (e a b a' b' : Bool)
    → (a' ≡ true → a ≡ true)
    → (b' ≡ true → b ≡ true)
    → (e && (a && b)) ≡ false
    → (e && (a' && b')) ≡ false
and_weaken e a b a' b' f g h = ground arith

-- A write that keeps the key columns and makes no row active.
pub record KeepsKeys (p : Reservation → Bool) (f : Reservation → Reservation) : Type 0 where
  pub id : (r : Reservation) → (f r).id ≡ r.id
  pub user_id : (r : Reservation) → (f r).user_id ≡ r.user_id
  pub owner_admin_id : (r : Reservation) → (f r).owner_admin_id ≡ r.owner_admin_id
  pub reservation_no : (r : Reservation) → (f r).reservation_no ≡ r.reservation_no
  pub activity :
      (r : Reservation) → p r ≡ true → is_active (f r).status ≡ true → is_active r.status ≡ true

module _ (p : Reservation → Bool) (f : Reservation → Reservation) (k : KeepsKeys p f) where
  id-written : (r : Reservation) → (written p f r).id ≡ r.id
  id-written r = ground (arith, k.id r)

  user_id-written : (r : Reservation) → (written p f r).user_id ≡ r.user_id
  user_id-written r = ground (arith, k.user_id r)

  owner-written : (r : Reservation) → (written p f r).owner_admin_id ≡ r.owner_admin_id
  owner-written r = ground (arith, k.owner_admin_id r)

  number-written : (r : Reservation) → (written p f r).reservation_no ≡ r.reservation_no
  number-written r = ground (arith, k.reservation_no r)

  active-written :
      (r : Reservation) → is_active (written p f r).status ≡ true → is_active r.status ≡ true
  active-written r = elim (Bool-cases (p r)) [
    | inl t ↦ rw t (k.activity r t)
    | inr t ↦ rw t (λ h. h)
  ]

  clash_active-written :
      (r s : Reservation)
      → clash_active r s ≡ false
      → clash_active (written p f r) (written p f s) ≡ false
  clash_active-written r s h =
      rw (user_id-written r, user_id-written s)
        (and_weaken (text_eq r.user_id s.user_id) (is_active r.status) (is_active s.status)
          (is_active (written p f r).status) (is_active (written p f s).status) (active-written r)
          (active-written s) h)

  Distinct-written : (r s : Reservation) → Distinct r s → Distinct (written p f r) (written p f s)
  Distinct-written r s d = record {
    ids = rw (id-written r, id-written s) d.ids;
    actives = clash_active-written r s d.actives;
    numbers = rw (owner-written r, owner-written s, number-written r, number-written s) d.numbers;
  }

pub Unit-All {ℓ} : {A : Type ℓ} (xs : List A) → All (λ _. Unit {0}) xs
Unit-All [] = tt
Unit-All (x ∷ xs) = (tt, Unit-All xs)

-- An UPDATE that keeps the keys, makes no row active and keeps the times keeps the invariant.
pub update-IsConsistent :
    (p : Reservation → Bool) (f : Reservation → Reservation) (db : Database)
    → KeepsKeys p f
    → ((r : Reservation) → p r ≡ true → IsTimed r → IsTimed (f r))
    → IsConsistent db
    → IsConsistent (record db { reservations = update_where p f db.reservations })
update-IsConsistent p f db k times c = record {
  distinct =
      Pairwise-written (λ _. Unit {0}) p f Distinct db.reservations (Unit-All db.reservations)
        (λ r s _ _. Distinct-written p f k r s) c.distinct;
  below =
      All-update (λ r. r.id < db.next_reservation_id) p f db.reservations (λ r _ h. rw (k.id r) h)
        c.below;
  timed = All-update IsTimed p f db.reservations times c.timed;
}
