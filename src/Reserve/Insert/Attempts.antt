-- ===== src/Reserve/Insert/Attempts.antt =====
-- The ten attempts at a number: when they succeed, and what they leave when they do not.
use linebot.Prelude.{
  ℕ, zero, suc, ◌+◌, ◌<◌, ◌≡◌, refl, sym, ap, ◌∙◌, Bool, true, false, not, ◌||◌, some, [], ◌∷◌,
  ◌++◌, Text, arith, Bool-cases, inl, inr,
}
use mathlib.Core.Path.{subst₂}
use linebot.Database.Tables.{Database}
use linebot.Queue.Number.{
  bump_sequence, compose_no, admin_digit, get_management_no, has_sequence, has_account,
}
use linebot.Queue.Number.Sequence.{current_sequence, ticket_sequence, allocate_lem}
use linebot.Reserve.Insert.{
  Chance, reserved, exhausted, has_active, has_number, new_row, insert_reservation, attempt,
  allocation_attempts,
}

-- The number that an attempt with the digit tries.
abbrev pub candidate : ℕ → ℕ → Database → ℕ
candidate owner y_digit db =
    compose_no (ticket_sequence (current_sequence owner db.reservation_number_sequences)) y_digit
      (admin_digit owner) (get_management_no (some owner) db)

-- All the rollbacks together only draw ids.
abbrev pub drawn : ℕ → Database → Database
drawn k db = record db { next_reservation_id = db.next_reservation_id + k }

-- Whether one of the digits of the attempts `k`, ..., `k + left - 1` gives a free number.
abbrev pub finds_free : Chance → ℕ → Database → ℕ → ℕ → Bool
finds_free chance owner db zero k = false
finds_free chance owner db (suc left) k =
    let later = finds_free chance owner db left (k + 1) in
    not (has_number owner (candidate owner (chance.y_digit k) db) db.reservations) || later

-- What a reservation leaves: the new row at the end, under the next id, and the sequence one further.
abbrev pub reserved_db : ℕ → Text → ℕ → ℕ → ℕ → Database → Database
reserved_db now user type_id owner number db = record db {
  reservation_number_sequences = (bump_sequence owner db.reservation_number_sequences).1;
  next_reservation_id = suc db.next_reservation_id;
  reservations =
      db.reservations ++ new_row db.next_reservation_id now user type_id owner number ∷ [];
}

finds_free-drawn :
    (chance : Chance) (owner : ℕ) (db : Database) (n left k : ℕ)
    → finds_free chance owner (record db { next_reservation_id = n }) left k
      ≡ finds_free chance owner db left k
unfolding get_management_no
finds_free-drawn chance owner db n zero k = refl
finds_free-drawn chance owner db n (suc left) k =
    ap (λ b. not (has_number owner (candidate owner (chance.y_digit k) db) db.reservations) || b)
      (finds_free-drawn chance owner db n left (k + 1))

none_of : (taken later : Bool) → (not taken || later) ≡ false → (taken ≡ true) × (later ≡ false)
none_of taken later h = ground arith

some_of : (taken later : Bool) → taken ≡ true → (not taken || later) ≡ true → later ≡ true
some_of taken later t h = ground arith

module _ (now : ℕ) (user : Text) (type_id owner : ℕ) where
  attempt-free :
      (y_digit : ℕ) (db : Database)
      → (has_sequence owner db || has_account owner db) ≡ true
      → has_active user db.reservations ≡ false
      → has_number owner (candidate owner y_digit db) db.reservations ≡ false
      → attempt now user type_id owner y_digit db
        ≡ reserved
            (candidate owner y_digit db)
            db.next_reservation_id
            (reserved_db now user type_id owner (candidate owner y_digit db) db)
  unfolding attempt insert_reservation
  attempt-free y_digit db known idle free =
      rw (allocate_lem owner y_digit db known, idle, free) refl

  attempt-taken :
      (y_digit : ℕ) (db : Database)
      → (has_sequence owner db || has_account owner db) ≡ true
      → has_active user db.reservations ≡ false
      → has_number owner (candidate owner y_digit db) db.reservations ≡ true
      → attempt now user type_id owner y_digit db
        ≡ exhausted (record db { next_reservation_id = suc db.next_reservation_id })
  unfolding attempt insert_reservation
  attempt-taken y_digit db known idle taken =
      rw (allocate_lem owner y_digit db known, idle, taken) refl

  module _ (chance : Chance) (alone : (k : ℕ) (db : Database) → chance.others k db ≡ db) where
    step-taken :
        (left k : ℕ) (db : Database)
        → (has_sequence owner db || has_account owner db) ≡ true
        → has_active user db.reservations ≡ false
        → has_number owner (candidate owner (chance.y_digit k) db) db.reservations ≡ true
        → allocation_attempts chance now user type_id owner (suc left) k db
          ≡ allocation_attempts chance now user type_id owner left
              (k + 1)
              (record db { next_reservation_id = suc db.next_reservation_id })
    unfolding allocation_attempts
    step-taken left k db known idle taken =
        rw (alone k db, attempt-taken (chance.y_digit k) db known idle taken) refl

    exhausted-drawn :
        (left : ℕ) (db : Database)
        → exhausted (drawn left (record db { next_reservation_id = suc db.next_reservation_id }))
          ≡ exhausted (drawn (suc left) db)
    exhausted-drawn left db =
        ap (λ n. exhausted (record db { next_reservation_id = n })) (omega arith)

    -- For a known owner and a user without an active reservation, while no other transaction commits between
    -- the attempts: with no free number under any of the digits that are drawn, the attempts end with nothing
    -- but drawn ids, since the sequence is rolled back each time.
    pub exhausted_if_taken :
        (left k : ℕ) (db : Database)
        → (has_sequence owner db || has_account owner db) ≡ true
        → has_active user db.reservations ≡ false
        → finds_free chance owner db left k ≡ false
        → allocation_attempts chance now user type_id owner left k db ≡ exhausted (drawn left db)
    unfolding allocation_attempts
    exhausted_if_taken zero k db known idle none_free =
        ap (λ n. exhausted (record db { next_reservation_id = n })) (omega arith)
    exhausted_if_taken (suc left) k db known idle none_free =
        let (taken, later) =
          none_of (has_number owner (candidate owner (chance.y_digit k) db) db.reservations)
            (finds_free chance owner db left (k + 1)) none_free in
        step-taken left k db known idle taken
        ∙ exhausted_if_taken left (k + 1)
            (record db { next_reservation_id = suc db.next_reservation_id }) known idle
            (finds_free-drawn chance owner db (suc db.next_reservation_id) left (k + 1) ∙ later)
        ∙ exhausted-drawn left db

    -- What the first free digit, `d` after `j` taken ones, leads to.
    ReservedAt : ℕ → ℕ → Database → ℕ → ℕ → ℕ → Type 0
    ReservedAt left k db j d id =
        (has_number owner (candidate owner (chance.y_digit d) db) db.reservations ≡ false)
        × (finds_free chance owner db j k ≡ false)
        × (allocation_attempts chance now user type_id owner left k db
            ≡ reserved (candidate owner (chance.y_digit d) db) id (
                reserved_db now user type_id owner (candidate owner (chance.y_digit d) db)
                  (record db { next_reservation_id = id })))

    reserved_now :
        (left k : ℕ) (db : Database)
        → (has_sequence owner db || has_account owner db) ≡ true
        → has_active user db.reservations ≡ false
        → has_number owner (candidate owner (chance.y_digit k) db) db.reservations ≡ false
        → ReservedAt (suc left) k db 0 k db.next_reservation_id
    unfolding allocation_attempts ReservedAt
    reserved_now left k db known idle free =
        (free, refl, rw (alone k db, attempt-free (chance.y_digit k) db known idle free) refl)

    reserved_later :
        (left k j d id : ℕ) (db : Database)
        → (has_sequence owner db || has_account owner db) ≡ true
        → has_active user db.reservations ≡ false
        → has_number owner (candidate owner (chance.y_digit k) db) db.reservations ≡ true
        → ReservedAt left
            (k + 1)
            (record db { next_reservation_id = suc db.next_reservation_id })
            j
            d
            id
        → ReservedAt (suc left) k db (suc j) d id
    unfolding ReservedAt get_management_no
    reserved_later left k j d id db known idle taken (free, before, run) = (
      free,
      rw taken
          (sym (finds_free-drawn chance owner db (suc db.next_reservation_id) j (k + 1)) ∙ before),
      step-taken left k db known idle taken ∙ run,
    )

    reserved_search :
        (left k : ℕ) (db : Database)
        → (has_sequence owner db || has_account owner db) ≡ true
        → has_active user db.reservations ≡ false
        → finds_free chance owner db left k ≡ true
        → (j : ℕ) × (j < left) × ReservedAt left k db j (k + j) (db.next_reservation_id + j)
    reserved_search zero k db known idle some_free = cc
    reserved_search (suc left) k db known idle some_free =
        elim (Bool-cases
          (has_number owner (candidate owner (chance.y_digit k) db) db.reservations)) [
            | inr free ↦ (
              0,
              omega arith,
              subst₂ (λ d id. ReservedAt (suc left) k db 0 d id) {y = k + 0}
                  {v = db.next_reservation_id + 0} (omega arith) (omega arith)
                  (reserved_now left k db known idle free),
            )
            | inl taken ↦
                (let (j, below, found) =
                    reserved_search left (k + 1)
                      (record db { next_reservation_id = suc db.next_reservation_id }) known idle
                      (finds_free-drawn chance owner db (suc db.next_reservation_id) left (k + 1)
                        ∙ some_of _ _ taken some_free) in
                  (
                    suc j,
                    omega arith,
                    subst₂ (λ d id. ReservedAt (suc left) k db (suc j) d id) {y = k + suc j}
                        {v = db.next_reservation_id + suc j} (omega arith) (omega arith)
                        (reserved_later left k j (k + 1 + j) (suc db.next_reservation_id + j) db
                          known idle taken found),
                  ))
          ]

    -- For a known owner and a user without an active reservation, while no other transaction commits between
    -- the attempts: with a free number under one of the digits, the user gets the first of these, in the
    -- owner's current sequence; the table gets one new row, after one drawn id for each taken number.
    pub reserved_if_free :
        (left k : ℕ) (db : Database)
        → (has_sequence owner db || has_account owner db) ≡ true
        → has_active user db.reservations ≡ false
        → finds_free chance owner db left k ≡ true
        → (j : ℕ) × (j < left)
          × (has_number owner (candidate owner (chance.y_digit (k + j)) db) db.reservations ≡ false)
          × (finds_free chance owner db j k ≡ false)
          × (allocation_attempts chance now user type_id owner left k db
              ≡ reserved
                  (candidate owner (chance.y_digit (k + j)) db)
                  (db.next_reservation_id + j)
                  (reserved_db now user type_id owner
                    (candidate owner (chance.y_digit (k + j)) db)
                    (drawn j db)))
    unfolding ReservedAt
    reserved_if_free left k db known idle some_free =
        let (j, below, found) = reserved_search left k db known idle some_free in
        (j, below, found.0, found.1, found.2)
