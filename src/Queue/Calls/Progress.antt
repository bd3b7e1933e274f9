-- ===== src/Queue/Calls/Progress.antt =====
-- How a run of the batch's statement for one owner brings down the number of those who wait.
use linebot.Prelude.{
  ℕ, ◌+◌, ◌≤◌, ◌≡◌, refl, Bool, true, false, ◌&&◌, List, [], ◌∷◌, arith, take, select_where,
  count_where, count_where-select, update_where, order_by, Bool-cases, ◌⊎◌, inl, inr, if◌then◌else◌,
  and-true,
}
use linebot.Database.Tables.{Status, Reservation, Database, status_eq, call_origin_auto}
use linebot.Database.Rows.{owner_of, type_of}
use linebot.Queue.Calls.{is_callable, selected_rows, has_id, call_row, auto_call_owner}
use linebot.Queue.Calls.Drain.{
  OtherId, IsThere, All-order, All-take, Pairwise-order, Pairwise-take, length-take, length-order,
  Pairwise-ids, select-IsThere, count-selected,
}
use linebot.Invariant.{Pairwise-select, IsConsistent}

-- The reservations of an owner that wait to be called.
unfoldable pub callable_count : ℕ → Database → ℕ
unfolding is_callable
callable_count owner db = count_where (is_callable db owner) db.reservations

-- The batch's statement for one owner, at these times, with nothing else in between.
unfoldable pub auto_call_runs : ℕ → ℕ → List ℕ → Database → Database
unfolding auto_call_owner
auto_call_runs owner limit [] db = db
auto_call_runs owner limit (now ∷ times) db =
    auto_call_runs owner limit times (auto_call_owner now owner limit db).1

module _ (now owner limit : ℕ) (db : Database) where
  abbrev chosen : Reservation → Bool
  chosen r = has_id (selected_rows db owner limit) r && status_eq r.status Status.waiting

  callable-waiting :
      (r : Reservation) → is_callable db owner r ≡ true → status_eq r.status Status.waiting ≡ true
  unfolding is_callable
  callable-waiting r h = ground arith

  called-idle : (r : Reservation) → is_callable db owner (call_row now call_origin_auto r) ≡ false
  unfolding is_callable
  called-idle r = refl

  -- A call takes a row out of the query.
  count-called :
      (rows : List Reservation)
      → count_where
            (is_callable db owner)
            (update_where chosen (call_row now call_origin_auto) rows)
          + count_where
              (λ r. has_id (selected_rows db owner limit) r && is_callable db owner r)
              rows
        ≡ count_where (is_callable db owner) rows
  count-called [] = refl
  count-called (r ∷ rows) = omega (arith, count-called rows, one (chosen r) refl)
    where
      one :
          (b : Bool)
          → chosen r ≡ b
          → (if is_callable db owner (if b then call_row now call_origin_auto r else r)
                then 1
                else 0)
              + (if has_id (selected_rows db owner limit) r && is_callable db owner r then 1 else 0)
            ≡ (if is_callable db owner r then 1 else 0)
      one true h =
          rw
            (
              called-idle r,
              (and-true (has_id (selected_rows db owner limit) r)
                  (status_eq r.status Status.waiting) h).0,
            )
            (omega arith)
      one false h = elim (Bool-cases (is_callable db owner r)) [
        | inr f ↦ rw f (ground arith)
        | inl t ↦ rw t (ground (arith, callable-waiting r t))
      ]

  pub same_query :
      (rows : List Reservation) (r : Reservation)
      → is_callable (record db { reservations = rows }) owner r ≡ is_callable db owner r
  unfolding is_callable owner_of type_of
  same_query rows r = refl

  -- A run leaves none, or as many fewer as the limit.
  pub progress :
      IsConsistent db
      → (callable_count owner (auto_call_owner now owner limit db).1 ≡ 0)
        ⊎ (callable_count owner (auto_call_owner now owner limit db).1 + limit
            ≤ callable_count owner db)
  unfolding callable_count auto_call_owner selected_rows
  progress c =
      let q = is_callable db owner in
      let rows = db.reservations in
      let ordered = order_by (λ r. r.id) (select_where q rows) in
      let apart =
        Pairwise-order (select_where q rows)
          (Pairwise-select q OtherId rows (Pairwise-ids rows c.distinct)) in
      let there = All-order (IsThere q rows) (select_where q rows) (select-IsThere q rows) in
      let few =
        count-selected q (take limit ordered) rows (Pairwise-take limit ordered apart)
          (All-take (IsThere q rows) limit ordered there) in
      let taken = count-called rows in
      let all = length-order (select_where q rows) in
      let matched = count_where-select q rows in
      elim (length-take limit ordered) [
        | inl full ↦ inr (omega (arith, few, taken, full))
        | inr rest ↦ inl (omega (arith, few, taken, rest, all, matched))
      ]
