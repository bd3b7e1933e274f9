-- ===== src/Queue/Calls/Drain.antt =====
-- How long the batch takes to call everyone who waits.
use linebot.Prelude.{
  ℕ, zero, suc, ◌+◌, ◌≤◌, ◌≡◌, ◌≢◌, refl, sym, Bool, true, false, ◌&&◌, ◌||◌, List, [], ◌∷◌, arith,
  All, All-map, All-zip, leb, length, take, select_where, count_where, insert_by, order_by, ◌==◌,
  ==-refl, Bool-cases, ◌⊎◌, inl, inr,
}
use linebot.Database.Tables.{Reservation}
use linebot.Queue.Calls.{has_id}
use linebot.Invariant.{Pairwise, Distinct}

abbrev pub OtherId : Reservation → Reservation → Type 0
OtherId r s = r.id ≢ s.id

module _ {κ} (P : Reservation → Type κ) where
  pub All-insert :
      (r : Reservation) (rows : List Reservation)
      → P r
      → All P rows
      → All P (insert_by (λ s. s.id) r rows)
  All-insert r [] h k = (h, tt)
  All-insert r (s ∷ rows) h k = elim (Bool-cases (leb r.id s.id)) [
    | inl t ↦ rw t (h, k)
    | inr t ↦ rw t (k.0, All-insert r rows h k.1)
  ]

pub All-order :
    (P : Reservation → Type 0) (rows : List Reservation)
    → All P rows
    → All P (order_by (λ s. s.id) rows)
unfolding order_by
All-order P [] h = tt
All-order P (r ∷ rows) h = All-insert P r (order_by (λ s. s.id) rows) h.0 (All-order P rows h.1)

Pairwise-insert :
    (r : Reservation) (rows : List Reservation)
    → All (OtherId r) rows
    → Pairwise OtherId rows
    → Pairwise OtherId (insert_by (λ s. s.id) r rows)
Pairwise-insert r [] h k = (tt, tt)
Pairwise-insert r (s ∷ rows) h k = elim (Bool-cases (leb r.id s.id)) [
  | inl t ↦ rw t (h, k)
  | inr t ↦
      rw t (All-insert (OtherId s) r rows (λ e. h.0 (sym e)) k.0, Pairwise-insert r rows h.1 k.1)
]

pub Pairwise-order :
    (rows : List Reservation) → Pairwise OtherId rows → Pairwise OtherId (order_by (λ s. s.id) rows)
unfolding order_by
Pairwise-order [] h = tt
Pairwise-order (r ∷ rows) h =
    Pairwise-insert r (order_by (λ s. s.id) rows) (All-order (OtherId r) rows h.0)
      (Pairwise-order rows h.1)

length-insert :
    (r : Reservation) (rows : List Reservation)
    → length (insert_by (λ s. s.id) r rows) ≡ suc (length rows)
length-insert r [] = refl
length-insert r (s ∷ rows) = ground (arith, length-insert r rows)

pub length-order : (rows : List Reservation) → length (order_by (λ s. s.id) rows) ≡ length rows
unfolding order_by
length-order [] = refl
length-order (r ∷ rows) =
    omega (arith, length-insert r (order_by (λ s. s.id) rows), length-order rows)

pub All-take :
    (P : Reservation → Type 0) (n : ℕ) (rows : List Reservation) → All P rows → All P (take n rows)
All-take P zero rows h = tt
All-take P (suc n) [] h = tt
All-take P (suc n) (r ∷ rows) h = (h.0, All-take P n rows h.1)

pub Pairwise-take :
    (n : ℕ) (rows : List Reservation) → Pairwise OtherId rows → Pairwise OtherId (take n rows)
Pairwise-take zero rows h = tt
Pairwise-take (suc n) [] h = tt
Pairwise-take (suc n) (r ∷ rows) h = (All-take (OtherId r) n rows h.0, Pairwise-take n rows h.1)

pub length-take :
    (n : ℕ) (rows : List Reservation)
    → (length (take n rows) ≡ n) ⊎ (length (take n rows) ≡ length rows)
length-take zero rows = inl refl
length-take (suc n) [] = inr refl
length-take (suc n) (r ∷ rows) = elim (length-take n rows) [
  | inl e ↦ inl (omega (arith, e))
  | inr e ↦ inr (omega (arith, e))
]

pub Pairwise-ids : (rows : List Reservation) → Pairwise Distinct rows → Pairwise OtherId rows
Pairwise-ids [] h = tt
Pairwise-ids (r ∷ rows) h =
    (All-map (Distinct r) (OtherId r) rows (λ s d. d.ids) h.0, Pairwise-ids rows h.1)

module _ (q : Reservation → Bool) where
  abbrev pub IsThere : List Reservation → Reservation → Type 0
  IsThere rows s = 1 ≤ count_where (λ r. (s.id == r.id) && q r) rows

  pub select-IsThere : (rows : List Reservation) → All (IsThere rows) (select_where q rows)
  select-IsThere [] = tt
  select-IsThere (r ∷ rows) = elim (Bool-cases (q r)) [
    | inr f ↦ rw f (
        All-map (IsThere rows) (λ s. IsThere (r ∷ rows) s) (select_where q rows)
          (λ s h. omega (arith, h)) (select-IsThere rows))
    | inl t ↦ rw t (
      rw (==-refl r.id, t) (omega arith),
      All-map (IsThere rows) (λ s. IsThere (r ∷ rows) s) (select_where q rows)
          (λ s h. omega (arith, h)) (select-IsThere rows),
    )
  ]

  has_id-apart :
      (s r : Reservation) (selected : List Reservation)
      → All (OtherId s) selected
      → (s.id == r.id) ≡ true
      → has_id selected r ≡ false
  has_id-apart s r [] h e = refl
  has_id-apart s r (x ∷ selected) h e =
      let other : (x.id == r.id) ≡ false = apart h.0 in
      ground (arith, other, has_id-apart s r selected h.1)
    where
      apart : s.id ≢ x.id → (x.id == r.id) ≡ false
      apart k = ground arith

  count-added :
      (s : Reservation) (selected rows : List Reservation)
      → All (OtherId s) selected
      → count_where (λ r. has_id (s ∷ selected) r && q r) rows
        ≡ count_where (λ r. (s.id == r.id) && q r) rows
          + count_where (λ r. has_id selected r && q r) rows
  count-added s selected [] h = refl
  count-added s selected (r ∷ rows) h =
      ground (arith, has_id-apart s r selected h, count-added s selected rows h)

  -- As many rows have one of the ids as there are ids.
  pub count-selected :
      (selected rows : List Reservation)
      → Pairwise OtherId selected
      → All (IsThere rows) selected
      → length selected ≤ count_where (λ r. has_id selected r && q r) rows
  count-selected [] rows h k = omega arith
  count-selected (s ∷ selected) rows h k =
      omega (arith, count-added s selected rows h.0, count-selected selected rows h.1 k.1, k.0)

-- A row with an id that a row of the query has is that row, since no other has the id.
id-IsThere :
    (q : Reservation → Bool) (i : ℕ) (rows : List Reservation)
    → Pairwise OtherId rows
    → 1 ≤ count_where (λ r. (i == r.id) && q r) rows
    → All (λ r. (i == r.id) ≡ true → q r ≡ true) rows
id-IsThere q i [] d h = tt
id-IsThere q i (r ∷ rows) d h = elim (Bool-cases (i == r.id)) [
  | inr other ↦ (λ same. cc, id-IsThere q i rows d.1 (ground (arith, other, h)))
  | inl same ↦ (
    λ _. here same (nothing_else rows d.0),
    All-map (OtherId r) (λ s. (i == s.id) ≡ true → q s ≡ true) rows
        (λ s apart e. absurd (apart (ground arith))) d.0,
  )
]
  where
    nothing_else :
        (xs : List Reservation)
        → All (OtherId r) xs
        → (i == r.id) ≡ true
        → count_where (λ s. (i == s.id) && q s) xs ≡ 0
    nothing_else [] a same = refl
    nothing_else (x ∷ xs) a same =
        let other : (i == x.id) ≡ false = unlike a.0 in
        ground (arith, other, nothing_else xs a.1 same)
      where
        unlike : r.id ≢ x.id → (i == x.id) ≡ false
        unlike k = ground arith

    here :
        (i == r.id) ≡ true
        → ((i == r.id) ≡ true → count_where (λ s. (i == s.id) && q s) rows ≡ 0)
        → q r ≡ true
    here same alone = ground (arith, alone same, h)

pub ids-IsThere :
    (q : Reservation → Bool) (selected rows : List Reservation)
    → Pairwise OtherId rows
    → All (IsThere q rows) selected
    → All (λ r. has_id selected r ≡ true → q r ≡ true) rows
ids-IsThere q [] rows d h = nobody rows
  where
    nobody : (xs : List Reservation) → All (λ r. has_id [] r ≡ true → q r ≡ true) xs
    nobody [] = tt
    nobody (x ∷ xs) = (λ e. cc, nobody xs)
ids-IsThere q (s ∷ selected) rows d h =
    All-zip (λ r. (s.id == r.id) ≡ true → q r ≡ true) (λ r. has_id selected r ≡ true → q r ≡ true)
      (λ r. has_id (s ∷ selected) r ≡ true → q r ≡ true) rows
      (λ r one rest e. either (s.id == r.id) (has_id selected r) (q r) one rest e)
      (id-IsThere q s.id rows d h.0) (ids-IsThere q selected rows d h.1)
  where
    either :
        (a b c : Bool) → (a ≡ true → c ≡ true) → (b ≡ true → c ≡ true) → (a || b) ≡ true → c ≡ true
    either true b c f g e = f refl
    either false b c f g e = g e
