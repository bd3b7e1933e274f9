-- ===== src/Invariant/Reserve.antt =====
-- The messages of the users (blueprints/line_routes.py) keep the invariant.
use linebot.Prelude.{
  ℕ, suc, ◌<◌, ◌≡◌, refl, Bool, true, false, ◌&&◌, Option, none, some, List, [], ◌∷◌, ◌++◌, Text,
  arith, Bool-cases, inl, inr, All, All-map, All-zip, All-append, any-false→All, ap, ◌∙◌, ◌||◌,
}
use linebot.Database.Tables.{Reservation, Database, is_id}
use linebot.Database.Rows.{is_active_of}
use linebot.Queue.Number.{allocate_admin_reservation_no, has_sequence, has_account}
use linebot.Reserve.Insert.{
  uq_reservations_user_active, uq_reservations_owner_reservation_no, fk_owner_admin_id, Inserted,
  inserted, violated, Chance, new_row, has_active, has_number, is_numbered, rollback, settle,
  insert_reservation, attempt, attempt_with, allocation_attempts,
}
use linebot.Reserve.Message.Keeps.{AttemptedKeeps, allocation_attempts-Keeps}
use linebot.Invariant.{Distinct, Pairwise, IsTimed, IsConsistent, same_id}
use linebot.Invariant.Batch.{same_rows-IsConsistent}

pub Pairwise-append {ℓ κ} :
    {A : Type ℓ} (R : A → A → Type κ) (xs : List A) (y : A)
    → Pairwise R xs
    → All (λ x. R x y) xs
    → Pairwise R (xs ++ y ∷ [])
Pairwise-append R [] y h a = (tt, tt)
Pairwise-append R (x ∷ xs) y h a =
    (All-append (R x) xs (y ∷ []) h.0 (a.0, tt), Pairwise-append R xs y h.1 a.1)

pub same_id-some : (o : Option ℕ) (n : ℕ) → same_id o (some n) ≡ is_id o n
same_id-some none n = refl
same_id-some (some m) n = refl

and_true_right : (a : Bool) → (a && true) ≡ a
and_true_right true = refl
and_true_right false = refl

-- A new row is distinct from those that clash with it in no index.
new_row-Distinct :
    (r : Reservation) (id now : ℕ) (user : Text) (type_id owner number : ℕ)
    → r.id < id
    → is_active_of user r ≡ false
    → is_numbered owner number r ≡ false
    → Distinct r (new_row id now user type_id owner number)
new_row-Distinct r id now user type_id owner number fresh idle free = record {
  ids = omega arith;
  actives = rw and_true_right idle;
  numbers = rw (same_id-some r.owner_admin_id owner, same_id-some r.reservation_no number) free;
}

-- The id that is drawn lies above all others, also when the INSERT then fails.
draw-IsConsistent :
    (db : Database)
    → IsConsistent db
    → IsConsistent (record db { next_reservation_id = suc db.next_reservation_id })
draw-IsConsistent db c = record {
  distinct = c.distinct;
  below =
      All-map (λ r. r.id < db.next_reservation_id) (λ r. r.id < suc db.next_reservation_id)
        db.reservations (λ r h. omega arith) c.below;
  timed = c.timed;
}

-- What an INSERT leaves: the invariant, or an id that was drawn in vain.
abbrev InsertedKeeps : Database → Inserted → Type 0
InsertedKeeps start (inserted id db) = IsConsistent db
InsertedKeeps start (violated c db) = db.next_reservation_id ≡ suc start.next_reservation_id

abbrev AllocatedKeeps : Database → Option (ℕ × Database) → Type 0
AllocatedKeeps start none = Unit {0}
AllocatedKeeps start (some (number, db)) =
    (db.reservations ≡ start.reservations) × (db.next_reservation_id ≡ start.next_reservation_id)

allocate-AllocatedKeeps :
    (owner y_digit : ℕ) (db : Database)
    → AllocatedKeeps db (allocate_admin_reservation_no owner y_digit db)
unfolding allocate_admin_reservation_no
allocate-AllocatedKeeps owner y_digit db =
    elim (Bool-cases (has_sequence owner db || has_account owner db)) [
      | inl known ↦ rw known (refl, refl)
      | inr unknown ↦ rw unknown tt
    ]

rollback-IsConsistent :
    (start db : Database)
    → IsConsistent start
    → db.next_reservation_id ≡ suc start.next_reservation_id
    → IsConsistent (rollback start db)
rollback-IsConsistent start db c e = rw e (draw-IsConsistent start c)

settle-AttemptedKeeps :
    (number : ℕ) (start : Database) (i : Inserted)
    → IsConsistent start
    → InsertedKeeps start i
    → AttemptedKeeps IsConsistent (settle number start i)
settle-AttemptedKeeps number start (inserted id db) c h = h
settle-AttemptedKeeps number start (violated uq_reservations_user_active db) c h =
    rollback-IsConsistent start db c h
settle-AttemptedKeeps number start (violated uq_reservations_owner_reservation_no db) c h =
    rollback-IsConsistent start db c h
settle-AttemptedKeeps number start (violated fk_owner_admin_id db) c h =
    rollback-IsConsistent start db c h

module _ (now : ℕ) (user : Text) (type_id owner number : ℕ) where
  append-IsConsistent :
      (db : Database)
      → IsConsistent db
      → has_active user db.reservations ≡ false
      → has_number owner number db.reservations ≡ false
      → IsConsistent (record db {
        next_reservation_id = suc db.next_reservation_id;
        reservations =
            db.reservations ++ new_row db.next_reservation_id now user type_id owner number ∷ [];
      })
  append-IsConsistent db c idle free =
      let row = new_row db.next_reservation_id now user type_id owner number in
      record {
        distinct = Pairwise-append Distinct db.reservations row c.distinct (
            All-zip _ _ (λ r. Distinct r row) db.reservations
              (λ r below h.
                new_row-Distinct r db.next_reservation_id now user type_id owner number below h.0
                  h.1)
              c.below
              (All-zip _ _
                (λ r. (is_active_of user r ≡ false) × (is_numbered owner number r ≡ false))
                db.reservations (λ r a b. (a, b))
                (any-false→All (is_active_of user) db.reservations idle)
                (any-false→All (is_numbered owner number) db.reservations free)));
        below =
            All-append (λ r. r.id < suc db.next_reservation_id) db.reservations (row ∷ [])
              (draw-IsConsistent db c).below (omega arith, tt);
        timed = All-append IsTimed db.reservations (row ∷ []) c.timed ((refl, refl, refl), tt);
      }

  insert_reservation-IsConsistent :
      (db : Database)
      → IsConsistent db
      → InsertedKeeps db (insert_reservation now user type_id owner number db)
  unfolding insert_reservation
  insert_reservation-IsConsistent db c = elim (Bool-cases (has_active user db.reservations)) [
    | inl busy ↦ rw busy refl
    | inr idle ↦ elim (Bool-cases (has_number owner number db.reservations)) [
      | inl taken ↦ rw (idle, taken) refl
      | inr free ↦ rw (idle, free) (append-IsConsistent db c idle free)
    ]
  ]

module _ (now : ℕ) (user : Text) (type_id owner : ℕ) where
  attempt_with-AttemptedKeeps :
      (start : Database) (allocated : Option (ℕ × Database))
      → IsConsistent start
      → AllocatedKeeps start allocated
      → AttemptedKeeps IsConsistent (attempt_with now user type_id owner start allocated)
  attempt_with-AttemptedKeeps start none c h = c
  attempt_with-AttemptedKeeps start (some (number, db)) c h =
      settle-AttemptedKeeps number start _ c (
        moved start db (insert_reservation now user type_id owner number db) h.1 (
          insert_reservation-IsConsistent now user type_id owner number db
            (same_rows-IsConsistent start db h.0 h.1 c)))
    where
      moved :
          (start' db' : Database) (i : Inserted)
          → db'.next_reservation_id ≡ start'.next_reservation_id
          → InsertedKeeps db' i
          → InsertedKeeps start' i
      moved start' db' (inserted id after) e k = k
      moved start' db' (violated v after) e k = k ∙ ap suc e

  -- One attempt keeps the invariant, however it ends.
  pub attempt-AttemptedKeeps :
      (y_digit : ℕ) (start : Database)
      → IsConsistent start
      → AttemptedKeeps IsConsistent (attempt now user type_id owner y_digit start)
  unfolding attempt
  attempt-AttemptedKeeps y_digit start c =
      attempt_with-AttemptedKeeps start (allocate_admin_reservation_no owner y_digit start) c
        (allocate-AllocatedKeeps owner y_digit start)

  module _ (chance : Chance)
      (kept : (k : ℕ) (db : Database) → IsConsistent db → IsConsistent (chance.others k db)) where
    pub allocation_attempts-AttemptedKeeps :
        (left k : ℕ) (db : Database)
        → IsConsistent db
        → AttemptedKeeps IsConsistent (allocation_attempts chance now user type_id owner left k db)
    allocation_attempts-AttemptedKeeps =
        allocation_attempts-Keeps IsConsistent chance now user type_id owner kept
          (λ k. attempt-AttemptedKeeps (chance.y_digit k))
