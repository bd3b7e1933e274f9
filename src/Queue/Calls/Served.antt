-- ===== src/Queue/Calls/Served.antt =====
-- The batch calls everyone who waits, after as many runs as the limit needs.
use linebot.Prelude.{
  ℕ, some, subst, sym, ap, ◌∙◌, ◌*◌, ◌≤◌, ◌≡◌, refl, Bool, true, false, List, [], ◌∷◌, arith,
  length, count_where, ◌⊎◌, inl, inr,
}
use linebot.Database.Tables.{Status, Reservation, Database, call_origin_auto}
use linebot.Queue.Calls.{is_callable, call_row, auto_call_owner}
use linebot.Queue.Calls.Fifo.{Calls, no_rows, called, left, auto_call_owner_lem}
use linebot.Invariant.{IsConsistent}
use linebot.Invariant.Batch.{auto_call_owner-IsConsistent}
use linebot.Queue.Calls.Progress.{callable_count, auto_call_runs, same_query, progress}

contra : {b : Bool} → b ≡ true → b ≡ false → ⊥
contra h k = cc

-- A row that was called: it is the same reservation, and the batch called it.
pub record IsCalledFrom (x y : Reservation) : Type 0 where
  pub status : y.status ≡ Status.called
  pub origin : y.call_origin ≡ some call_origin_auto
  pub id : y.id ≡ x.id
  pub user_id : y.user_id ≡ x.user_id
  pub reservation_no : y.reservation_no ≡ x.reservation_no

-- Row for row: a reservation that could be called is called now, any other is as it was.
abbrev pub AllCalled : (Reservation → Bool) → List Reservation → List Reservation → Type 0
AllCalled q [] [] = Unit
AllCalled q [] (y ∷ ys) = ⊥
AllCalled q (x ∷ xs) [] = ⊥
AllCalled q (x ∷ xs) (y ∷ ys) =
    ((q x ≡ true → IsCalledFrom x y) × (q x ≡ false → y ≡ x)) × AllCalled q xs ys

module _ (owner : ℕ) (start : Database) where
  abbrev q : Reservation → Bool
  q = is_callable start owner

  -- On the way there, a row that could be called may still be as it was.
  abbrev Partly : List Reservation → List Reservation → Type 0
  Partly [] [] = Unit
  Partly [] (y ∷ ys) = ⊥
  Partly (x ∷ xs) [] = ⊥
  Partly (x ∷ xs) (y ∷ ys) = ((y ≡ x) ⊎ ((q x ≡ true) × IsCalledFrom x y)) × Partly xs ys

  Partly-refl : (xs : List Reservation) → Partly xs xs
  Partly-refl [] = tt
  Partly-refl (x ∷ xs) = (inl refl, Partly-refl xs)

  called-uncallable : (x y : Reservation) → IsCalledFrom x y → is_callable start owner y ≡ false
  unfolding is_callable
  called-uncallable x y h = rw h.status refl

  Partly-Calls :
      (p : Reservation → Bool) (now : ℕ) (Stays : Reservation → Type 0)
      (xs ys zs out : List Reservation)
      → ((r : Reservation) → p r ≡ q r)
      → Partly xs ys
      → Calls p now Stays ys zs out
      → Partly xs zs
  Partly-Calls p now Stays [] [] _ _ agree h no_rows = tt
  Partly-Calls p now Stays [] (y ∷ ys) zs out agree h k = absurd h
  Partly-Calls p now Stays (x ∷ xs) [] zs out agree h k = absurd h
  Partly-Calls p now Stays (x ∷ xs) (y ∷ ys) _ _ agree h (called _ _ after out t k) = (
    elim h.0 [
      | inl same ↦ inr (
          subst (λ z. (q z ≡ true) × IsCalledFrom z (call_row now call_origin_auto y)) same
            (
              sym (agree y) ∙ t,
              record {
                status = refl;
                origin = refl;
                id = refl;
                user_id = refl;
                reservation_no = refl;
              },
            ))
      | inr done ↦ absurd (contra (sym (agree y) ∙ t) (called-uncallable x y done.1))
    ],
    Partly-Calls p now Stays xs ys after out agree h.1 k,
  )
  Partly-Calls p now Stays (x ∷ xs) (y ∷ ys) _ out agree h (left _ _ after _ stays k) =
      (h.0, Partly-Calls p now Stays xs ys after out agree h.1 k)

  -- Once no row can be called any more, each that could be has been.
  Partly-AllCalled :
      (xs ys : List Reservation) → Partly xs ys → count_where q ys ≡ 0 → AllCalled q xs ys
  Partly-AllCalled [] [] h none_left = tt
  Partly-AllCalled [] (y ∷ ys) h none_left = absurd h
  Partly-AllCalled (x ∷ xs) [] h none_left = absurd h
  Partly-AllCalled (x ∷ xs) (y ∷ ys) h none_left =
      let idle : q y ≡ false = ground arith in
      (
        elim h.0 [
          | inl same ↦ (λ t. absurd (contra t (ap q (sym same) ∙ idle)), λ _. same)
          | inr done ↦ (λ _. done.1, λ f. absurd (contra done.0 f))
        ],
        Partly-AllCalled xs ys h.1 (ground arith),
      )

  runs-Partly :
      (limit : ℕ) (times : List ℕ) (db : Database)
      → IsConsistent db
      → ((r : Reservation) → is_callable db owner r ≡ is_callable start owner r)
      → Partly start.reservations db.reservations
      → Partly start.reservations (auto_call_runs owner limit times db).reservations
  unfolding auto_call_runs
  runs-Partly limit [] db c same h = h
  runs-Partly limit (now ∷ times) db c same h =
      runs-Partly limit times (auto_call_owner now owner limit db).1
        (auto_call_owner-IsConsistent now owner limit db c)
        (λ r.
          same_query now owner limit db (auto_call_owner now owner limit db).1.reservations r
          ∙ same r)
        (Partly-Calls _ now _ start.reservations db.reservations _ _ same h
          (auto_call_owner_lem now owner limit db c).1)

callable_left :
    (owner limit : ℕ) (times : List ℕ) (db : Database)
    → IsConsistent db
    → callable_count owner db ≤ length times * limit
    → callable_count owner (auto_call_runs owner limit times db) ≡ 0
unfolding auto_call_runs
callable_left owner limit [] db c few = omega (arith, few)
callable_left owner limit (now ∷ times) db c few =
    callable_left owner limit times (auto_call_owner now owner limit db).1
      (auto_call_owner-IsConsistent now owner limit db c)
      (elim (progress now owner limit db c) [
        | inl done ↦ rw done (omega arith)
        | inr less ↦ omega (arith, less, few)
      ])

-- The runs leave the query as it is, for they only write reservations.
runs-query :
    (owner limit : ℕ) (times : List ℕ) (db : Database) (r : Reservation)
    → is_callable (auto_call_runs owner limit times db) owner r ≡ is_callable db owner r
unfolding auto_call_runs
runs-query owner limit [] db r = refl
runs-query owner limit (now ∷ times) db r =
    runs-query owner limit times (auto_call_owner now owner limit db).1 r
    ∙ same_query now owner limit db (auto_call_owner now owner limit db).1.reservations r

-- While nothing else happens in between, everyone of an owner's who waits to be called has been called by the
-- batch's statement for the owner, once it has run so often that the runs times the limit reach their number:
-- each such reservation is called, with the batch as the origin and its id, user and ticket number kept, and
-- every other reservation is as it was.
pub auto_call_runs_serve :
    (owner limit : ℕ) (times : List ℕ) (db : Database)
    → IsConsistent db
    → callable_count owner db ≤ length times * limit
    → AllCalled
        (is_callable db owner)
        db.reservations
        (auto_call_runs owner limit times db).reservations
unfolding callable_count
auto_call_runs_serve owner limit times db c few =
    Partly-AllCalled owner db db.reservations (auto_call_runs owner limit times db).reservations
      (runs-Partly owner db limit times db c (λ r. refl) (Partly-refl owner db db.reservations))
      (count-same (is_callable db owner) _ (auto_call_runs owner limit times db).reservations
          (λ r. sym (runs-query owner limit times db r))
        ∙ callable_left owner limit times db c few)
  where
    count-same :
        (p q : Reservation → Bool) (rows : List Reservation)
        → ((r : Reservation) → p r ≡ q r)
        → count_where p rows ≡ count_where q rows
    count-same p q [] h = refl
    count-same p q (r ∷ rows) h = rw (h r, count-same p q rows h) refl
