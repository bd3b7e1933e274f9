-- ===== src/Queue/Number.antt =====
-- services/queue_service.py: the numbers of the tickets, and the digit that an admin sets in them.
pub mod Format
pub mod Sequence
use linebot.Prelude.{
  ℕ, zero, suc, ◌+◌, ◌-◌, ◌*◌, ◌%◌, ◌≤◌, Bool, true, false, not, Option, none, some, List, [], ◌∷◌,
  ◌++◌, Text, codes, ◌==◌, ltb, leb, isdigit, digits_value, decimal, length, any, if◌then◌else◌,
  ◌||◌,
}
use linebot.Database.Tables.{AdminAccount, NumberSequence, Database}
use linebot.Database.Settings.{get_setting, set_setting}

abbrev pub management_no_key : ℕ → Text
management_no_key owner = codes "management_no_" ++ decimal owner

global_management_no : Database → ℕ
global_management_no db =
    let val = get_setting db (codes "management_no") (codes "0") in
    if isdigit val then digits_value 0 val % 10 else 0

unfoldable pub get_management_no : Option ℕ → Database → ℕ
unfolding global_management_no get_setting
get_management_no none db = global_management_no db
get_management_no (some owner) db =
    let val = get_setting db (management_no_key owner) [] in
    if isdigit val then digits_value 0 val % 10 else global_management_no db

unfoldable pub set_management_no : ℕ → Option ℕ → Database → Database
set_management_no val none db = set_setting (codes "management_no") (decimal (val % 10)) db
set_management_no val (some owner) db =
    set_setting (codes "management_no") (decimal (val % 10))
      (set_setting (management_no_key owner) (decimal (val % 10)) db)

-- The CASE of the upsert.
unfoldable pub next_sequence_after : ℕ → ℕ
next_sequence_after n = if ltb n 1 || ltb 999 n then 2 else if n == 999 then 1 else n + 1

-- The upsert on `reservation_number_sequences`, with RETURNING next_sequence.
abbrev pub bump_sequence : ℕ → List NumberSequence → ℕ × List NumberSequence
bump_sequence owner [] = (2, record { owner_admin_id = owner; next_sequence = 2 } ∷ [])
bump_sequence owner (s ∷ rest) =
    let (n, rest') = bump_sequence owner rest in
    if s.owner_admin_id == owner
    then (
      next_sequence_after s.next_sequence,
      record s { next_sequence = next_sequence_after s.next_sequence } ∷ rest,
    )
    else (n, s ∷ rest')

abbrev pub has_sequence : ℕ → Database → Bool
has_sequence owner db = any (λ s. s.owner_admin_id == owner) db.reservation_number_sequences

abbrev pub has_account : ℕ → Database → Bool
has_account owner db = any (λ a. a.id == owner) db.admin_accounts

-- The sequence number XXX of the ticket, from the value that the upsert returned.
abbrev pub sequence_before : ℕ → ℕ
sequence_before next_seq = if ltb 1 next_seq then next_seq - 1 else 999

-- The four parts of a number, XXXYZA.
abbrev pub compose_no : ℕ → ℕ → ℕ → ℕ → ℕ
compose_no seq y_digit z_digit a_digit = seq * 1000 + y_digit * 100 + z_digit * 10 + a_digit

-- (owner_admin_id - 1) % 10, which Python keeps non-negative
abbrev pub admin_digit : ℕ → ℕ
admin_digit owner = (owner + 9) % 10

-- `y_digit` is what `secrets.randbelow(10)` gives. `none` is the foreign key's IntegrityError: only an
-- INSERT of a new sequence row checks that the owner is an account.
unfoldable pub allocate_admin_reservation_no : ℕ → ℕ → Database → Option (ℕ × Database)
unfolding next_sequence_after get_management_no
allocate_admin_reservation_no owner y_digit db =
    if has_sequence owner db || has_account owner db
    then (let (next_seq, sequences) = bump_sequence owner db.reservation_number_sequences in
        some (
          compose_no (sequence_before next_seq) y_digit (admin_digit owner)
              (get_management_no (some owner) db),
          record db { reservation_number_sequences = sequences },
        ))
    else none

abbrev pub zeros : ℕ → Text
zeros zero = []
zeros (suc n) = b'0' ∷ zeros n

-- f"{reservation_no:06d}"
unfoldable pub fmt_no : ℕ → Text
fmt_no n = let digits = decimal n in zeros (6 - length digits) ++ digits
