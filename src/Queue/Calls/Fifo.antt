-- ===== src/Queue/Calls/Fifo.antt =====
-- Which reservations the batch calls: the oldest of the owner's, and no more than the limit.
use linebot.Prelude.{
  update_where, ℕ, ◌≤◌, ◌≡◌, refl, Bool, true, false, ◌&&◌, some, List, [], ◌∷◌, arith, All,
  All-map, length, select_where, count_where, count_where-select, length-map, map, ◌==◌, Bool-cases,
  inl, inr,
}
use linebot.Database.Tables.{Status, Reservation, Database, status_eq, call_origin_auto}
use linebot.Queue.Calls.{is_callable, selected_rows, has_id, call_row, auto_call_owner}
use linebot.Queue.Calls.Drain.{
  OtherId, IsThere, All-order, All-take, Pairwise-order, Pairwise-take, Pairwise-ids,
  select-IsThere, count-selected, ids-IsThere,
}
use linebot.Invariant.{IsConsistent, Pairwise-select}
use linebot.Queue.Calls.Oldest.{TakenOrLater, selected_rows_lem, count-has_id}

-- What a run does to the rows, one after another: the rows before it, the rows after it, and those that it
-- returns. A row is called, which only a callable one is, or left, where `Stays` says why.
pub data Calls (q : Reservation → Bool) (now : ℕ) (Stays : Reservation → Type 0)
    : List Reservation → List Reservation → List Reservation → Type 0 where
  no_rows : Calls q now Stays [] [] []
  called :
      (r : Reservation) (rows after out : List Reservation)
      → q r ≡ true
      → Calls q now Stays rows after out
      → Calls q now Stays
          (r ∷ rows)
          (call_row now call_origin_auto r ∷ after)
          (call_row now call_origin_auto r ∷ out)
  left :
      (r : Reservation) (rows after out : List Reservation)
      → Stays r
      → Calls q now Stays rows after out
      → Calls q now Stays (r ∷ rows) (r ∷ after) out

-- A row that may be called is left only where the limit is reached, with rows that are no younger.
abbrev pub StaysFor : ℕ → List Reservation → (Reservation → Bool) → Reservation → Type 0
StaysFor limit out q r = q r ≡ true → (length out ≡ limit) × All (λ s. s.id ≤ r.id) out

module _ (q chosen : Reservation → Bool) (now : ℕ) (Stays : Reservation → Type 0) where
  update-Calls :
      (rows : List Reservation)
      → All (λ r. chosen r ≡ true → q r ≡ true) rows
      → All (λ r. chosen r ≡ false → Stays r) rows
      → Calls q now Stays rows
          (update_where chosen (call_row now call_origin_auto) rows)
          (map (call_row now call_origin_auto) (select_where chosen rows))
  update-Calls [] h k = no_rows
  update-Calls (r ∷ rows) h k = elim (Bool-cases (chosen r)) [
    | inl t ↦ rw t (called r _ _ _ (h.0 t) (update-Calls rows h.1 k.1))
    | inr f ↦ rw f (left r _ _ _ (k.0 f) (update-Calls rows h.1 k.1))
  ]

-- No row that is called is younger than a row that no selected one is younger than.
called_older :
    (now : ℕ) (selected : List Reservation) (r : Reservation) (chosen : Reservation → Bool)
    (rows : List Reservation)
    → All (λ s. s.id ≤ r.id) selected
    → ((s : Reservation) → chosen s ≡ true → has_id selected s ≡ true)
    → All (λ s. s.id ≤ r.id) (map (call_row now call_origin_auto) (select_where chosen rows))
called_older now selected r chosen [] old h = tt
called_older now selected r chosen (s ∷ rows) old h = elim (Bool-cases (chosen s)) [
  | inl t ↦ rw t (among selected old (h s t), called_older now selected r chosen rows old h)
  | inr f ↦ rw f (called_older now selected r chosen rows old h)
]
  where
    among : (xs : List Reservation) → All (λ x. x.id ≤ r.id) xs → has_id xs s ≡ true → s.id ≤ r.id
    among [] a e = cc
    among (x ∷ xs) a e = elim (Bool-cases (x.id == s.id)) [
      | inl same ↦ ground (arith, a.0)
      | inr other ↦ among xs a.1 (ground arith)
    ]

module _ (now owner limit : ℕ) (db : Database) (c : IsConsistent db) where
  abbrev q : Reservation → Bool
  q = is_callable db owner

  abbrev selected : List Reservation
  selected = selected_rows db owner limit

  abbrev chosen : Reservation → Bool
  chosen r = has_id selected r && status_eq r.status Status.waiting

  abbrev out : List Reservation
  out = map (call_row now call_origin_auto) (select_where chosen db.reservations)

  callable-waiting :
      (r : Reservation) → is_callable db owner r ≡ true → status_eq r.status Status.waiting ≡ true
  unfolding is_callable
  callable-waiting r h = ground arith

  selected-IsThere : All (IsThere q db.reservations) selected
  unfolding selected_rows
  selected-IsThere = All-take (IsThere q db.reservations) limit _ (
      All-order (IsThere q db.reservations) (select_where q db.reservations)
        (select-IsThere q db.reservations))

  chosen-callable : All (λ r. chosen r ≡ true → q r ≡ true) db.reservations
  chosen-callable =
      All-map (λ r. has_id selected r ≡ true → q r ≡ true) (λ r. chosen r ≡ true → q r ≡ true)
        db.reservations (λ r f e. f (ground arith))
        (ids-IsThere q selected db.reservations (Pairwise-ids db.reservations c.distinct)
          selected-IsThere)

  -- No more reservations than the limit.
  out-few : length out ≤ limit
  out-few = omega (
    arith,
    (selected_rows_lem db owner limit).0,
    length-map (call_row now call_origin_auto) (select_where chosen db.reservations),
    count_where-select chosen db.reservations,
    count-has_id selected (λ r. status_eq r.status Status.waiting) db.reservations c.distinct,
  )

  count-waiting :
      (rows : List Reservation)
      → count_where (λ r. has_id selected r && q r) rows ≤ count_where chosen rows
  count-waiting [] = omega arith
  count-waiting (r ∷ rows) = ground (arith, callable-waiting r, count-waiting rows)

  -- All that are selected are called.
  out-many : length selected ≤ length out
  unfolding selected_rows
  out-many =
      let callable = select_where q db.reservations in
      let apart =
        Pairwise-order callable
          (Pairwise-select q OtherId db.reservations (Pairwise-ids db.reservations c.distinct)) in
      omega (
        arith,
        count-selected q selected db.reservations (Pairwise-take limit _ apart) selected-IsThere,
        count-waiting db.reservations,
        length-map (call_row now call_origin_auto) (select_where chosen db.reservations),
        count_where-select chosen db.reservations,
      )

  left-StaysFor : All (λ r. chosen r ≡ false → StaysFor limit out q r) db.reservations
  left-StaysFor =
      All-map (λ r. q r ≡ true → TakenOrLater limit selected r)
        (λ r. chosen r ≡ false → StaysFor limit out q r) db.reservations
        (λ r later f t. elim (later t) [
          | inl taken ↦ absurd (ground (arith, callable-waiting r t))
          | inr rest ↦ (
            omega (arith, rest.0, out-few, out-many),
            called_older now selected r chosen db.reservations rest.1 (λ s e. ground arith),
          )
        ])
        (selected_rows_lem db owner limit).1

-- A run for one owner calls reservations of the owner that wait, no more than the limit, and leaves every
-- other row as it is; it leaves one that it could call only where it calls as many as the limit, none of
-- them younger. What it returns are the rows that it called, as they now stand in the table, with the status
-- and the time of the call.
pub auto_call_owner_lem :
    (now owner limit : ℕ) (db : Database)
    → IsConsistent db
    → let (out, db') = auto_call_owner now owner limit db in
      (length out ≤ limit)
      × Calls
          (is_callable db owner)
          now
          (StaysFor limit out (is_callable db owner))
          db.reservations
          db'.reservations
          out
      × All (λ r. (r.status ≡ Status.called) × (r.called_at ≡ some now)) out
unfolding auto_call_owner
auto_call_owner_lem now owner limit db c = (
  out-few now owner limit db c,
  update-Calls (is_callable db owner) (chosen now owner limit db c) now _ db.reservations
      (chosen-callable now owner limit db c) (left-StaysFor now owner limit db c),
  all_called (select_where (chosen now owner limit db c) db.reservations),
)
  where
    all_called :
        (rows : List Reservation)
        → All
            (λ r. (r.status ≡ Status.called) × (r.called_at ≡ some now))
            (map (call_row now call_origin_auto) rows)
    all_called [] = tt
    all_called (r ∷ rows) = ((refl, refl), all_called rows)
