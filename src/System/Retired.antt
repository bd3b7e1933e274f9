-- ===== src/System/Retired.antt =====
-- When a row of the reservations counts as out: neither waiting nor called. Which runs of the program make no
-- edit by hand (blueprints/admin_routes.py `admin_status_update`), which is what can bring a row back.
pub mod Batch
pub mod Kept
use linebot.Prelude.{
  ℕ, ◌≡◌, refl, Bool, true, false, not, ◌||◌, ◌&&◌, List, [], ◌∷◌, ◌++◌, All, update_where, arith,
  Bool-cases, inl, inr, if◌then◌else◌,
}
use linebot.System.{
  Step, Reach, message, batch, expire, call, finish, cancel, edit, restore, delete_all, elsewhere,
  stay, then_step,
}
use linebot.Database.Tables.{Reservation, Database, is_active}
use linebot.Invariant.{IsConsistent}

-- A row that was not active is not active.
abbrev pub stays_out : Reservation → Reservation → Bool
stays_out r s = is_active r.status || not (is_active s.status)

-- Row for row, in their places; there may be new rows after them.
abbrev pub Retires : List Reservation → List Reservation → Type 0
Retires [] ys = Unit
Retires (x ∷ xs) [] = ⊥
Retires (x ∷ xs) (y ∷ ys) = (stays_out x y ≡ true) × Retires xs ys

pub Retires-refl : (xs : List Reservation) → Retires xs xs
Retires-refl [] = tt
Retires-refl (x ∷ xs) = (ground arith, Retires-refl xs)

pub Retires-append : (xs ys zs : List Reservation) → Retires xs ys → Retires xs (ys ++ zs)
Retires-append [] ys zs h = tt
Retires-append (x ∷ xs) (y ∷ ys) zs h = (h.0, Retires-append xs ys zs h.1)
Retires-append (x ∷ xs) [] zs h = absurd h

-- An UPDATE that makes no row active that was not.
pub Retires-update :
    (Q : Reservation → Type 0) (p : Reservation → Bool) (f : Reservation → Reservation)
    (xs ys : List Reservation)
    → All Q ys
    → ((y : Reservation)
        → Q y
        → p y ≡ true
        → is_active (f y).status ≡ true
        → is_active y.status ≡ true)
    → Retires xs ys
    → Retires xs (update_where p f ys)
Retires-update Q p f [] ys q keep h = tt
Retires-update Q p f (x ∷ xs) [] q keep h = absurd h
Retires-update Q p f (x ∷ xs) (y ∷ ys) q keep h = elim (Bool-cases (p y)) [
  | inl t ↦ rw t (ground (arith, keep y q.0 t, h.0), Retires-update Q p f xs ys q.1 keep h.1)
  | inr t ↦ rw t (h.0, Retires-update Q p f xs ys q.1 keep h.1)
]

All-unit : (rows : List Reservation) → All {0, 0} (λ _. Unit) rows
All-unit [] = tt
All-unit (r ∷ rows) = (tt, All-unit rows)

pub Retires-update_all :
    (p : Reservation → Bool) (f : Reservation → Reservation) (xs ys : List Reservation)
    → ((y : Reservation) → p y ≡ true → is_active (f y).status ≡ true → is_active y.status ≡ true)
    → Retires xs ys
    → Retires xs (update_where p f ys)
Retires-update_all p f xs ys keep =
    Retires-update (λ _. Unit) p f xs ys (All-unit ys) (λ y _. keep y)

-- A consistent state in which the rows from the beginning are still there, and out where they were out.
abbrev pub P : List Reservation → Database → Type 0
P rows db = IsConsistent db × Retires rows db.reservations

-- No transaction is an edit by hand, in a run and in what runs in between.
abbrev mutual
  pub NoEdits : {a b : Database} → Reach a b → Type 0
  NoEdits (stay db) = Unit
  NoEdits (then_step a b c r s) = NoEdits r × IsNoEdit s

  pub IsNoEdit : {a b : Database} → Step a b → Type 0
  IsNoEdit (message env redis online event db others) =
      (k : ℕ) (d : Database) → NoEdits (others k d)
  IsNoEdit (batch config world clock db others) = (k : ℕ) (d : Database) → NoEdits (others k d)
  IsNoEdit (expire config online now db) = Unit
  IsNoEdit (call world now admin res_id db others) = (d : Database) → NoEdits (others d)
  IsNoEdit (finish now admin res_id db) = Unit
  IsNoEdit (cancel now admin res_id db) = Unit
  IsNoEdit (edit now admin res_id status db) = ⊥
  IsNoEdit (restore owner backup db db' timed e) = Unit
  IsNoEdit (delete_all enabled visitor confirmation db) = Unit
  IsNoEdit (elsewhere db db' same next) = Unit
