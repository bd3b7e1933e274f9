-- ===== src/Database/Schema/Restart.antt =====
-- What a start of the program does to the sequences of the ticket numbers.
use linebot.Prelude.{
  ℕ, ◌+◌, ◌≤◌, ◌≡◌, Bool, true, ◌&&◌, List, [], ◌∷◌, arith, max, any, leb, ◌==◌, Bool-cases, inl,
  inr,
}
use linebot.Database.Tables.{Reservation, AdminAccount, NumberSequence, Database, is_id}
use linebot.Database.Schema.{
  number_or_zero, max_number, raise_sequence, raise_sequences, ensure_number_sequences,
}
use linebot.Queue.Number.{has_account}
use linebot.Queue.Number.Sequence.{current_sequence, ticket_sequence, ticket_sequence_lem}

-- A reservation of the owner whose number is at least `bound`.
abbrev pub is_issued : ℕ → ℕ → Reservation → Bool
is_issued owner bound r =
    is_id r.owner_admin_id owner && leb bound (number_or_zero r.reservation_no)

max_number-ge :
    (owner bound : ℕ) (rows : List Reservation)
    → any (is_issued owner bound) rows ≡ true
    → bound ≤ max_number owner rows
max_number-ge owner bound [] h = cc
max_number-ge owner bound (r ∷ rs) h = ground (arith, max_number-ge owner bound rs)

raise-own :
    (owner n : ℕ) (sequences : List NumberSequence)
    → n ≤ current_sequence owner (raise_sequence owner n sequences)
raise-own owner n [] = ground arith
raise-own owner n (s ∷ rest) = ground (arith, raise-own owner n rest)

raise-grows :
    (owner other n : ℕ) (sequences : List NumberSequence)
    → 1 ≤ n
    → current_sequence owner sequences ≤ current_sequence owner (raise_sequence other n sequences)
raise-grows owner other n [] h = ground arith
raise-grows owner other n (s ∷ rest) h = ground (arith, raise-grows owner other n rest h)

raises-grow :
    (owner : ℕ) (rows : List Reservation) (accounts : List AdminAccount)
    (sequences : List NumberSequence)
    → current_sequence owner sequences
      ≤ current_sequence owner (raise_sequences rows accounts sequences)
raises-grow owner rows [] sequences = omega arith
raises-grow owner rows (a ∷ rest) sequences = omega (
  arith,
  raise-grows owner a.id (max 1 (max_number a.id rows + 1)) sequences (omega arith),
  raises-grow owner rows rest (raise_sequence a.id (max 1 (max_number a.id rows + 1)) sequences),
)

raises-own :
    (owner : ℕ) (rows : List Reservation) (accounts : List AdminAccount)
    (sequences : List NumberSequence)
    → any (λ a. a.id == owner) accounts ≡ true
    → max_number owner rows + 1 ≤ current_sequence owner (raise_sequences rows accounts sequences)
raises-own owner rows [] sequences h = cc
raises-own owner rows (a ∷ rest) sequences h = elim (Bool-cases (a.id == owner)) [
  | inl same ↦
      let e : a.id ≡ owner = ground arith in
      let n = max 1 (max_number owner rows + 1) in
      rw e (
        omega (
          arith,
          raise-own owner n sequences,
          raises-grow owner rows rest (raise_sequence owner n sequences),
        ))
  | inr other ↦ raises-own owner rows rest _ (rw other at h)
]

-- An owner with a number of 999 or more begins again at sequence 1 after each start of the program. Every
-- number that `allocate_admin_reservation_no` issues is at least 1000.
pub restart_resets_sequence :
    (owner : ℕ) (db : Database)
    → has_account owner db ≡ true
    → any (is_issued owner 999) db.reservations ≡ true
    → ticket_sequence
        (current_sequence owner (ensure_number_sequences db).reservation_number_sequences)
      ≡ 1
unfolding ensure_number_sequences
restart_resets_sequence owner db known issued =
    let grown =
      raises-own owner db.reservations db.admin_accounts db.reservation_number_sequences known in
    (ticket_sequence_lem _).1 (omega (arith, grown, max_number-ge owner 999 db.reservations issued))
