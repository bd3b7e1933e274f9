-- ===== src/Queue/Number/Sequence.antt =====
-- `allocate_admin_reservation_no`: the parts of a number, and the order of the sequence.
use linebot.Prelude.{
  ℕ, ◌+◌, ◌/◌, ◌%◌, ◌≤◌, ◌<◌, ◌≡◌, refl, sym, subst, ◌∙◌, true, ◌||◌, Option, none, some, List, [],
  ◌∷◌, arith, Bool-cases, inl, inr, ◌==◌, if◌then◌else◌,
}
use mathlib.Core.Option.{some-injective}
use linebot.Database.Tables.{NumberSequence, Database}
use linebot.Queue.Number.{
  global_management_no, get_management_no, next_sequence_after, bump_sequence, sequence_before,
  has_sequence, has_account, compose_no, admin_digit, allocate_admin_reservation_no,
}

-- The sequence that an owner's row holds, as `allocate` reads it: 1 for an owner without a row.
abbrev pub current_sequence : ℕ → List NumberSequence → ℕ
current_sequence owner [] = 1
current_sequence owner (s ∷ rest) =
    let later = current_sequence owner rest in
    if s.owner_admin_id == owner then s.next_sequence else later

-- The number XXX that the next ticket gets: the stored one, or 1 where it is out of range.
abbrev pub ticket_sequence : ℕ → ℕ
ticket_sequence n = sequence_before (next_sequence_after n)

global_management_no-lt : (db : Database) → global_management_no db < 10
unfolding global_management_no
global_management_no-lt db = ground arith

pub get_management_no-lt : (owner : Option ℕ) (db : Database) → get_management_no owner db < 10
unfolding get_management_no
get_management_no-lt none db = global_management_no-lt db
get_management_no-lt (some owner) db = ground (arith, global_management_no-lt db)

bump_sequence-current :
    (owner : ℕ) (sequences : List NumberSequence)
    → (bump_sequence owner sequences).0 ≡ next_sequence_after (current_sequence owner sequences)
unfolding next_sequence_after
bump_sequence-current owner [] = refl
bump_sequence-current owner (s ∷ rest) = ground (arith, bump_sequence-current owner rest)

bump_sequence-next :
    (owner : ℕ) (sequences : List NumberSequence)
    → current_sequence owner (bump_sequence owner sequences).1
      ≡ next_sequence_after (current_sequence owner sequences)
unfolding next_sequence_after
bump_sequence-next owner [] = ground arith
bump_sequence-next owner (s ∷ rest) = ground (arith, bump_sequence-next owner rest)

-- The stored sequence in range is the ticket's; out of range the tickets begin again at 1.
pub ticket_sequence_lem :
    (n : ℕ)
    → (1 ≤ n → n ≤ 999 → ticket_sequence n ≡ n)
      × (999 < n → ticket_sequence n ≡ 1)
      × (1 ≤ ticket_sequence n)
      × (ticket_sequence n ≤ 999)
unfolding next_sequence_after
ticket_sequence_lem n = (λ a b. ground arith, λ a. ground arith, ground arith, ground arith)

pub allocate_lem :
    (owner y_digit : ℕ) (db : Database)
    → (has_sequence owner db || has_account owner db) ≡ true
    → allocate_admin_reservation_no owner y_digit db
      ≡ some (
        compose_no
            (ticket_sequence (current_sequence owner db.reservation_number_sequences))
            y_digit
            (admin_digit owner)
            (get_management_no (some owner) db),
        record db {
          reservation_number_sequences = (bump_sequence owner db.reservation_number_sequences).1;
        },
      )
unfolding allocate_admin_reservation_no
allocate_lem owner y_digit db known =
    rw (known, bump_sequence-current owner db.reservation_number_sequences) refl

compose_parts :
    (seq y z a : ℕ)
    → 1 ≤ seq
    → seq ≤ 999
    → y < 10
    → z < 10
    → a < 10
    → (compose_no seq y z a / 1000 ≡ seq)
      × (compose_no seq y z a / 100 % 10 ≡ y)
      × (compose_no seq y z a / 10 % 10 ≡ z)
      × (compose_no seq y z a % 10 ≡ a)
      × (1000 ≤ compose_no seq y z a)
      × (compose_no seq y z a < 1000000)
compose_parts seq y z a h k hy hz ha =
    (omega arith, omega arith, omega arith, omega arith, omega arith, omega arith)

-- What an issued number, with the database after it, says of the owner's state before.
abbrev Parts : ℕ → ℕ → Database → ℕ × Database → Type 0
Parts owner y_digit db (n, db') =
    (n / 1000 ≡ ticket_sequence (current_sequence owner db.reservation_number_sequences))
    × (n / 100 % 10 ≡ y_digit)
    × (n / 10 % 10 ≡ admin_digit owner)
    × (n % 10 ≡ get_management_no (some owner) db)
    × (1000 ≤ n)
    × (n < 1000000)
    × (current_sequence owner db'.reservation_number_sequences
        ≡ next_sequence_after (current_sequence owner db.reservation_number_sequences))

issued-Parts :
    (owner y_digit : ℕ) (db : Database)
    → y_digit < 10
    → Parts owner y_digit db (
      compose_no
          (ticket_sequence (current_sequence owner db.reservation_number_sequences))
          y_digit
          (admin_digit owner)
          (get_management_no (some owner) db),
      record db {
        reservation_number_sequences = (bump_sequence owner db.reservation_number_sequences).1;
      },
    )
issued-Parts owner y_digit db hy =
    let s = current_sequence owner db.reservation_number_sequences in
    let seq = ticket_sequence s in
    let (_, _, low, high) = ticket_sequence_lem s in
    let a = get_management_no (some owner) db in
    let (p0, p1, p2, p3, p4, p5) =
      compose_parts seq y_digit (admin_digit owner) a low high hy (omega arith)
        (get_management_no-lt (some owner) db) in
    (p0, p1, p2, p3, p4, p5, bump_sequence-next owner db.reservation_number_sequences)

allocate-known :
    (owner y_digit : ℕ) (db : Database) (p : ℕ × Database)
    → allocate_admin_reservation_no owner y_digit db ≡ some p
    → (has_sequence owner db || has_account owner db) ≡ true
unfolding allocate_admin_reservation_no
allocate-known owner y_digit db p e =
    elim (Bool-cases (has_sequence owner db || has_account owner db)) [
      | inl known ↦ known
      | inr unknown ↦ cc (rw unknown at e)
    ]

-- A number that is issued has six digits: the owner's sequence, the random digit, the digit of the
-- owner and the digit that the owner set; and the sequence moves on by one step of the cycle.
pub allocate_parts :
    (owner y_digit : ℕ) (db db' : Database) (n : ℕ)
    → y_digit < 10
    → allocate_admin_reservation_no owner y_digit db ≡ some (n, db')
    → (n / 1000 ≡ ticket_sequence (current_sequence owner db.reservation_number_sequences))
      × (n / 100 % 10 ≡ y_digit)
      × (n / 10 % 10 ≡ admin_digit owner)
      × (n % 10 ≡ get_management_no (some owner) db)
      × (1000 ≤ n)
      × (n < 1000000)
      × (current_sequence owner db'.reservation_number_sequences
          ≡ next_sequence_after (current_sequence owner db.reservation_number_sequences))
allocate_parts owner y_digit db db' n hy e =
    subst (Parts owner y_digit db)
      (some-injective _ _
        (sym (allocate_lem owner y_digit db (allocate-known owner y_digit db (n, db') e)) ∙ e))
      (issued-Parts owner y_digit db hy)

-- While the stored sequence is in range, the next ticket carries it and leaves its successor, 1 after 999.
sequence_cycle :
    (n : ℕ)
    → 1 ≤ n
    → n ≤ 999
    → (ticket_sequence n ≡ n)
      × (ticket_sequence (next_sequence_after n) ≡ n % 999 + 1)
      × (1 ≤ next_sequence_after n)
      × (next_sequence_after n ≤ 999)
unfolding next_sequence_after
sequence_cycle n a b = (ground arith, ground arith, ground arith, ground arith)
