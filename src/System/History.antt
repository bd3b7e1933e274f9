-- ===== src/System/History.antt =====
-- What becomes of a reservation once it is made, while no backup is restored and nobody deletes all
-- reservations.
pub mod Steps
pub mod Kept
use linebot.Prelude.{
  ℕ, ◌≡◌, refl, ◌∙◌, Bool, List, [], ◌∷◌, ◌++◌, Text, update_where, if◌then◌else◌, Bool-cases, inl,
  inr,
}
use linebot.Database.Tables.{Reservation, Database}
use linebot.System.{
  Step, Reach, message, batch, expire, call, finish, cancel, edit, restore, delete_all, elsewhere,
  stay, then_step,
}
use linebot.Queue.Calls.{cancel_row, call_row, wait_row}

-- The columns that say which reservation a row is.
pub record IsSame (r s : Reservation) : Type 0 where
  pub id : s.id ≡ r.id
  pub user_id : s.user_id ≡ r.user_id
  pub reservation_no : s.reservation_no ≡ r.reservation_no
  pub type_id : s.type_id ≡ r.type_id
  pub created_at : s.created_at ≡ r.created_at

IsSame-refl : (r : Reservation) → IsSame r r
IsSame-refl r = record {
  id = refl;
  user_id = refl;
  reservation_no = refl;
  type_id = refl;
  created_at = refl;
}

IsSame-trans : (r s t : Reservation) → IsSame r s → IsSame s t → IsSame r t
IsSame-trans r s t h k = record {
  id = k.id ∙ h.id;
  user_id = k.user_id ∙ h.user_id;
  reservation_no = k.reservation_no ∙ h.reservation_no;
  type_id = k.type_id ∙ h.type_id;
  created_at = k.created_at ∙ h.created_at;
}

-- The rows are still there, in their places; there may be new ones after them.
abbrev pub Grows : List Reservation → List Reservation → Type 0
Grows [] ys = Unit
Grows (x ∷ xs) [] = ⊥
Grows (x ∷ xs) (y ∷ ys) = IsSame x y × Grows xs ys

pub Grows-refl : (xs : List Reservation) → Grows xs xs
Grows-refl [] = tt
Grows-refl (x ∷ xs) = (IsSame-refl x, Grows-refl xs)

pub Grows-trans : (xs ys zs : List Reservation) → Grows xs ys → Grows ys zs → Grows xs zs
Grows-trans [] ys zs h k = tt
Grows-trans (x ∷ xs) (y ∷ ys) (z ∷ zs) h k =
    (IsSame-trans x y z h.0 k.0, Grows-trans xs ys zs h.1 k.1)
Grows-trans (x ∷ xs) [] zs h k = absurd h
Grows-trans (x ∷ xs) (y ∷ ys) [] h k = absurd k

pub Grows-append : (xs ys zs : List Reservation) → Grows xs ys → Grows xs (ys ++ zs)
Grows-append [] ys zs h = tt
Grows-append (x ∷ xs) (y ∷ ys) zs h = (h.0, Grows-append xs ys zs h.1)
Grows-append (x ∷ xs) [] zs h = absurd h

-- A write that leaves these columns alone.
abbrev pub KeepsSame : (Reservation → Reservation) → Type 0
KeepsSame f = (r : Reservation) → IsSame r (f r)

pub Grows-update :
    (p : Reservation → Bool) (f : Reservation → Reservation) (xs ys : List Reservation)
    → KeepsSame f
    → Grows xs ys
    → Grows xs (update_where p f ys)
Grows-update p f [] ys k h = tt
Grows-update p f (x ∷ xs) [] k h = absurd h
Grows-update p f (x ∷ xs) (y ∷ ys) k h = elim (Bool-cases (p y)) [
  | inl t ↦ rw t (IsSame-trans x y (f y) h.0 (k y), Grows-update p f xs ys k h.1)
  | inr t ↦ rw t (h.0, Grows-update p f xs ys k h.1)
]

pub cancel-KeepsSame : (now : ℕ) → KeepsSame (cancel_row now)
cancel-KeepsSame now r = record {
  id = refl;
  user_id = refl;
  reservation_no = refl;
  type_id = refl;
  created_at = refl;
}

pub call-KeepsSame : (now : ℕ) (origin : Text) → KeepsSame (call_row now origin)
call-KeepsSame now origin r = record {
  id = refl;
  user_id = refl;
  reservation_no = refl;
  type_id = refl;
  created_at = refl;
}

pub wait-KeepsSame : KeepsSame wait_row
wait-KeepsSame r = record {
  id = refl;
  user_id = refl;
  reservation_no = refl;
  type_id = refl;
  created_at = refl;
}

-- No transaction restores a backup or deletes all reservations, in a run and in what runs in between.
abbrev mutual
  pub NoDeletions : {a b : Database} → Reach a b → Type 0
  NoDeletions (stay db) = Unit
  NoDeletions (then_step a b c r s) = NoDeletions r × IsNoDeletion s

  pub IsNoDeletion : {a b : Database} → Step a b → Type 0
  IsNoDeletion (message env redis online event db others) =
      (k : ℕ) (d : Database) → NoDeletions (others k d)
  IsNoDeletion (batch config world clock db others) =
      (k : ℕ) (d : Database) → NoDeletions (others k d)
  IsNoDeletion (expire config online now db) = Unit
  IsNoDeletion (call world now admin res_id db others) = (d : Database) → NoDeletions (others d)
  IsNoDeletion (finish now admin res_id db) = Unit
  IsNoDeletion (cancel now admin res_id db) = Unit
  IsNoDeletion (edit now admin res_id status db) = Unit
  IsNoDeletion (restore owner backup db db' timed e) = ⊥
  IsNoDeletion (delete_all enabled visitor confirmation db) = ⊥
  IsNoDeletion (elsewhere db db' same next) = Unit
