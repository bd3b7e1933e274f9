-- ===== src/Tasks/Loadtest.antt =====
-- The load test's route leaves the reservations as they were.
use linebot.Prelude.{
  ℕ, ◌<◌, ◌≡◌, refl, Bool, true, false, not, ◌||◌, Option, List, [], ◌∷◌, ◌++◌, Text, arith, All,
  any, select_where, ◌==◌, if_cases, is_empty, text_eq,
}
use linebot.Config.{Config}
use linebot.Database.Tables.{Reservation, Database}
use linebot.Invariant.{IsConsistent}
use linebot.Tasks.{load_test_row, is_test_row, inserted, loadtest_db, stripped}

delete-added :
    (id : ℕ) (row : Reservation) (rows : List Reservation)
    → row.id ≡ id
    → All (λ r. r.id < id) rows
    → select_where (λ r. not (r.id == id)) (rows ++ row ∷ []) ≡ rows
delete-added id row [] e h = (let gone : (row.id == id) ≡ true = ground arith in rw gone refl)
delete-added id row (r ∷ rows) e h =
    let kept : (r.id == id) ≡ false = ground (arith, h.0) in
    rw (kept, delete-added id row rows e h.1) refl

abbrev KeepsRows : Database → ℕ × Database → Type 0
KeepsRows db out = out.1.reservations ≡ db.reservations

-- From a consistent state, the load test's route leaves the reservations row for row as they were, whether it
-- is refused, fails or succeeds.
pub loadtest_db_lem :
    (config : Config) (token : Text) (header : Option Text) (online : Bool) (now : ℕ) (user : Text)
    (db : Database)
    → IsConsistent db
    → (loadtest_db config token header online now user db).1.reservations ≡ db.reservations
unfolding loadtest_db
loadtest_db_lem config token header online now user db c =
    if_cases (KeepsRows db) (not config.load_test_mode) _ _ (λ _. refl)
      (λ _.
        if_cases (KeepsRows db) (is_empty token || not (text_eq (stripped header) token)) _ _
          (λ _. refl)
          (λ _.
            if_cases (KeepsRows db) online _ _
              (λ _.
                if_cases (KeepsRows db)
                  (any (is_test_row db.next_reservation_id user)
                    (inserted now user db).reservations)
                  _ _
                  (λ _.
                    delete-added db.next_reservation_id
                      (load_test_row db.next_reservation_id now user) db.reservations refl c.below)
                  (λ _. refl))
              (λ _. refl)))
