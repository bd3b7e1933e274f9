-- ===== src/Queue/Calls/Sweep.antt =====
-- The two statements that clear the queue: the time limit of the calls, and the midnight cancellation.
use linebot.Prelude.{
  ℕ, ◌≡◌, refl, Bool, true, false, List, [], ◌∷◌, arith, All, update_where, count_where,
  count_where-select,
}
use linebot.Config.{Config}
use linebot.Database.Tables.{Reservation, Database, is_active}
use linebot.Queue.Calls.{cancel_row, cancel_active_reservations_without_notification}

-- An UPDATE that leaves none of its rows to itself.
cleared_where :
    (p : Reservation → Bool) (f : Reservation → Reservation) (rows : List Reservation)
    → ((r : Reservation) → p (f r) ≡ false)
    → All (λ r. p r ≡ false) (update_where p f rows)
cleared_where p f [] h = tt
cleared_where p f (r ∷ rows) h = (ground (arith, h r), cleared_where p f rows h)

-- After the midnight cancellation no reservation is active, and its count is that of those that were.
pub cancel_active_reservations_without_notification_lem :
    (now : ℕ) (db : Database)
    → let (count, db') = cancel_active_reservations_without_notification true now db in
      All (λ r. is_active r.status ≡ false) db'.reservations
      × (count ≡ count_where (λ r. is_active r.status) db.reservations)
unfolding cancel_active_reservations_without_notification
cancel_active_reservations_without_notification_lem now db = (
  cleared_where (λ r. is_active r.status) (cancel_row now) db.reservations (λ r. refl),
  count_where-select (λ r. is_active r.status) db.reservations,
)
