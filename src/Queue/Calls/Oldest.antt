-- ===== src/Queue/Calls/Oldest.antt =====
-- Which reservations the batch selects: the oldest of the owner's that may be called.
use linebot.Prelude.{
  ℕ, zero, suc, ◌+◌, ◌≤◌, ◌≡◌, refl, Bool, true, false, ◌&&◌, ◌||◌, List, [], ◌∷◌, arith, All,
  All-map, leb, length, take, select_where, count_where, insert_by, order_by, ◌==◌, ==-refl,
  Bool-cases, ◌⊎◌, inl, inr, ◌≢◌,
}
use linebot.Database.Tables.{Reservation, Database}
use linebot.Queue.Calls.{is_callable, selected_rows, has_id}
use linebot.Queue.Calls.Drain.{All-insert}
use linebot.Invariant.{Pairwise, Distinct}
use linebot.Invariant.Unique.{count_unique}

abbrev IsOlder : Reservation → Reservation → Type 0
IsOlder r s = r.id ≤ s.id

module _ {κ} (P : Reservation → Type κ) where
  All-insert-back :
      (r : Reservation) (rows : List Reservation)
      → All P (insert_by (λ s. s.id) r rows)
      → P r × All P rows
  All-insert-back r [] h = (h.0, tt)
  All-insert-back r (s ∷ rows) h = elim (Bool-cases (leb r.id s.id)) [
    | inl t ↦ (let k : All P (r ∷ s ∷ rows) = rw t at h in (k.0, k.1))
    | inr t ↦
        (let k : All P (s ∷ insert_by (λ s. s.id) r rows) = rw t at h in
          let (here, rest) = All-insert-back r rows k.1 in (here, (k.0, rest)))
  ]

  All-order-back : (rows : List Reservation) → All P (order_by (λ s. s.id) rows) → All P rows
  unfolding order_by
  All-order-back [] h = tt
  All-order-back (r ∷ rows) h =
      let (here, rest) = All-insert-back r (order_by (λ s. s.id) rows) h in
      (here, All-order-back rows rest)

  All-select-back :
      (p : Reservation → Bool) (rows : List Reservation)
      → All P (select_where p rows)
      → All (λ r. p r ≡ true → P r) rows
  All-select-back p [] h = tt
  All-select-back p (r ∷ rows) h = elim (Bool-cases (p r)) [
    | inl t ↦
        (let k : All P (r ∷ select_where p rows) = rw t at h in
          (λ _. k.0, All-select-back p rows k.1))
    | inr t ↦
        (let k : All P (select_where p rows) = rw t at h in (λ u. cc, All-select-back p rows k))
  ]

insert-sorted :
    (r : Reservation) (rows : List Reservation)
    → Pairwise IsOlder rows
    → Pairwise IsOlder (insert_by (λ s. s.id) r rows)
insert-sorted r [] h = (tt, tt)
insert-sorted r (s ∷ rows) h = elim (Bool-cases (leb r.id s.id)) [
  | inl t ↦ rw t ((ground arith, All-map (IsOlder s) (IsOlder r) rows (λ x k. below x t k) h.0), h)
  | inr t ↦ rw t (All-insert (IsOlder s) r rows (ground arith) h.0, insert-sorted r rows h.1)
]
  where
    below : (x : Reservation) → leb r.id s.id ≡ true → s.id ≤ x.id → r.id ≤ x.id
    below x t k = ground arith

order-sorted : (rows : List Reservation) → Pairwise IsOlder (order_by (λ s. s.id) rows)
unfolding order_by
order-sorted [] = tt
order-sorted (r ∷ rows) = insert-sorted r _ (order-sorted rows)

-- Where a row of a sorted list stands: among those that were taken, or after all of them, when as many
-- were taken as may be.
abbrev pub TakenOrLater : ℕ → List Reservation → Reservation → Type 0
TakenOrLater limit selected r =
    (has_id selected r ≡ true) ⊎ ((length selected ≡ limit) × All (λ s. s.id ≤ r.id) selected)

take-TakenOrLater :
    (limit : ℕ) (rows : List Reservation)
    → Pairwise IsOlder rows
    → All (TakenOrLater limit (take limit rows)) rows
take-TakenOrLater zero rows h = all rows
  where
    all : (xs : List Reservation) → All (TakenOrLater 0 []) xs
    all [] = tt
    all (x ∷ xs) = (inr (refl, tt), all xs)
take-TakenOrLater (suc n) [] h = tt
take-TakenOrLater (suc n) (r ∷ rows) h =
    (inl (rw (==-refl r.id) refl), later rows h.0 (take-TakenOrLater n rows h.1))
  where
    later :
        (xs : List Reservation)
        → All (IsOlder r) xs
        → All (TakenOrLater n (take n rows)) xs
        → All (TakenOrLater (suc n) (r ∷ take n rows)) xs
    later [] a k = tt
    later (x ∷ xs) a k = (
      elim k.0 [
        | inl taken ↦ inl (ground arith)
        | inr rest ↦ inr (omega (arith, rest.0), (a.0, rest.1))
      ],
      later xs a.1 k.1,
    )

length-take : (limit : ℕ) (rows : List Reservation) → length (take limit rows) ≤ limit
length-take zero rows = omega arith
length-take (suc n) [] = omega arith
length-take (suc n) (r ∷ rows) = omega (arith, length-take n rows)

-- Every callable reservation of the owner is either selected, or younger than all that are, when as
-- many as the limit are selected.
pub selected_rows_lem :
    (db : Database) (owner limit : ℕ)
    → let selected = selected_rows db owner limit in
      (length selected ≤ limit)
      × All (λ r. is_callable db owner r ≡ true → TakenOrLater limit selected r) db.reservations
unfolding selected_rows
selected_rows_lem db owner limit =
    let callable = select_where (is_callable db owner) db.reservations in
    (
      length-take limit (order_by (λ r. r.id) callable),
      All-select-back _ (is_callable db owner) db.reservations (
          All-order-back _ callable
            (take-TakenOrLater limit (order_by (λ r. r.id) callable) (order-sorted callable))),
    )

-- An id belongs to one row at most, so no more rows have one of the selected ids than are selected.
count-same_id :
    (i : ℕ) (rows : List Reservation)
    → Pairwise Distinct rows
    → count_where (λ r. i == r.id) rows ≤ 1
count-same_id i rows = count_unique (λ r. i == r.id) rows (λ r s t e. apart r s t e.ids)
  where
    apart : (r s : Reservation) → (i == r.id) ≡ true → r.id ≢ s.id → (i == s.id) ≡ false
    apart r s t e = ground arith

count-or :
    (p q w : Reservation → Bool) (rows : List Reservation)
    → count_where (λ r. (p r || q r) && w r) rows
      ≤ count_where p rows + count_where (λ r. q r && w r) rows
count-or p q w [] = omega arith
count-or p q w (r ∷ rows) = ground (arith, count-or p q w rows)

pub count-has_id :
    (selected : List Reservation) (w : Reservation → Bool) (rows : List Reservation)
    → Pairwise Distinct rows
    → count_where (λ r. has_id selected r && w r) rows ≤ length selected
count-has_id [] w rows d = no_rows rows
  where
    no_rows : (xs : List Reservation) → count_where (λ r. false) xs ≤ 0
    no_rows [] = omega arith
    no_rows (x ∷ xs) = omega (arith, no_rows xs)
count-has_id (s ∷ selected) w rows d = omega (
  arith,
  count-or (λ r. s.id == r.id) (has_id selected) w rows,
  count-same_id s.id rows d,
  count-has_id selected w rows d,
)
