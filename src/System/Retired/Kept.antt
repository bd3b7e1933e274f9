-- ===== src/System/Retired/Kept.antt =====
-- Each transaction but the edit by hand (blueprints/, services/queue_service.py) leaves a finished or cancelled reservation so.
use linebot.Prelude.{
  ℕ, ◌≡◌, refl, ◌&&◌, ◌||◌, Bool, true, false, Option, none, some, List, [], ◌∷◌, Text, find_where,
  Bool-cases, inl, inr, ◌==◌, and-true, subst, sym,
}
use linebot.Database.Tables.{
  Status, Reservation, Database, status_eq, is_active, call_origin_manual,
}
use linebot.Queue.Number.{allocate_admin_reservation_no, has_sequence, has_account}
use linebot.Queue.Calls.{call_row, push_of}
use linebot.Reserve.Insert.{
  Attempted, reserved, exhausted, conflict, failed, has_active, has_number, insert_reservation,
  settle, attempt,
}
use linebot.Reserve.Message.Keeps.{AttemptedKeeps, allocation_attempts-Keeps, handle_message-Keeps}
use linebot.Admin.Reservations.{
  CallWorld, is_owned_row, write_row, takes_number, call_found, call_owned, admin_call,
  complete_row, complete_found, admin_finish, admin_cancel,
}
use linebot.Invariant.{IsConsistent}
use linebot.Invariant.Unique.{IsTarget, find_unique, find_where-holds}
use linebot.Invariant.Batch.{active_of_eq, drawn-IsConsistent}
use linebot.Invariant.Reserve.{attempt-AttemptedKeeps}
use linebot.Invariant.Admin.{
  call_one-IsConsistent, admin_finish-IsConsistent, admin_cancel-IsConsistent,
}
use linebot.System.{
  Step, Reach, message, batch, expire, call, finish, cancel, edit, restore, delete_all, elsewhere,
  stay, then_step,
}
use linebot.System.History.{NoDeletions, IsNoDeletion}
use linebot.System.Retired.{
  Retires, Retires-refl, Retires-append, Retires-update, Retires-update_all, P, NoEdits, IsNoEdit,
}
use linebot.System.Retired.Batch.{same-P, cancel-P, expire-P, revert-P, batch-P}

both_kept :
    (A B : Database → Type 0) (a : Attempted)
    → AttemptedKeeps A a
    → AttemptedKeeps B a
    → AttemptedKeeps (λ db. A db × B db) a
both_kept A B (reserved number id db) h k = (h, k)
both_kept A B (exhausted db) h k = (h, k)
both_kept A B (conflict db) h k = (h, k)
both_kept A B (failed v db) h k = (h, k)

module _ (rows : List Reservation) where
  insert-Retires :
      (now : ℕ) (user : Text) (type_id owner number : ℕ) (start db : Database)
      → Retires rows start.reservations
      → Retires rows db.reservations
      → AttemptedKeeps
          (λ d. Retires rows d.reservations)
          (settle number start (insert_reservation now user type_id owner number db))
  unfolding insert_reservation
  insert-Retires now user type_id owner number start db h k =
      elim (Bool-cases (has_active user db.reservations)) [
        | inl busy ↦ rw busy h
        | inr idle ↦ elim (Bool-cases (has_number owner number db.reservations)) [
          | inl taken ↦ rw (idle, taken) h
          | inr free ↦ rw (idle, free) (Retires-append rows db.reservations _ k)
        ]
      ]

  attempt-Retires :
      (now : ℕ) (user : Text) (type_id owner y_digit : ℕ) (start : Database)
      → Retires rows start.reservations
      → AttemptedKeeps
          (λ d. Retires rows d.reservations)
          (attempt now user type_id owner y_digit start)
  unfolding attempt allocate_admin_reservation_no
  attempt-Retires now user type_id owner y_digit start h =
      elim (Bool-cases (has_sequence owner start || has_account owner start)) [
        | inl known ↦ rw known (insert-Retires now user type_id owner _ start _ h h)
        | inr unknown ↦ rw unknown h
      ]

  attempt-P :
      (now : ℕ) (user : Text) (type_id owner y_digit : ℕ) (start : Database)
      → P rows start
      → AttemptedKeeps (P rows) (attempt now user type_id owner y_digit start)
  attempt-P now user type_id owner y_digit start h =
      both_kept IsConsistent (λ d. Retires rows d.reservations) _
        (attempt-AttemptedKeeps now user type_id owner y_digit start h.0)
        (attempt-Retires now user type_id owner y_digit start h.1)

  -- The row that is called was waiting, and no other has its id.
  call_one-P :
      (now : ℕ) (p : Reservation → Bool) (db : Database) (r : Reservation)
      → status_eq r.status Status.waiting ≡ true
      → find_where p db.reservations ≡ some r
      → P rows db
      → P rows (write_row r.id (call_row now call_origin_manual) db)
  call_one-P now p db r waiting e h = (
    call_one-IsConsistent now p db r waiting e h.0,
    Retires-update (IsTarget r) (λ x. x.id == r.id) (call_row now call_origin_manual) rows
        db.reservations (find_unique p db.reservations r e h.0.distinct)
        (λ y target same _.
          subst (λ z. is_active z.status ≡ true) (sym (target same))
            (active_of_eq r.status Status.waiting waiting refl))
        h.1,
  )

  call-P :
      (world : CallWorld)
      → ((d : Database) → P rows d → P rows (world.meanwhile d))
      → (now : ℕ) (admin : Option ℕ) (res_id : ℕ) (db : Database) → P rows db
      → P rows (admin_call world now admin res_id db).1
  unfolding admin_call call_owned
  call-P world others now none res_id db h = h
  call-P world others now (some admin) res_id db h = found _ refl
    where
      wanted : Reservation → Bool
      wanted r = is_owned_row db admin res_id r && status_eq r.status Status.waiting

      found :
          (o : Option Reservation)
          → find_where wanted db.reservations ≡ o
          → P rows (call_found world now res_id o db).1
      found none e = h
      found (some r) e =
          let waiting = (and-true _ _ (find_where-holds wanted db.reservations r e)).1 in
          let called = others _ (call_one-P now wanted db r waiting e h) in
          elim (Bool-cases (world.delivers (push_of r))) [
            | inl sent ↦ rw sent called
            | inr lost ↦ rw lost (revert-P rows (res_id ∷ []) _ called)
          ]

  complete-Retires :
      (status : Status) (now admin : ℕ) (o : Option Reservation) (db : Database)
      → is_active status ≡ false
      → Retires rows db.reservations
      → Retires rows (complete_found status now admin o db).1.reservations
  complete-Retires status now admin none db over h = h
  complete-Retires status now admin (some r) db over h =
      elim (Bool-cases (takes_number db admin r)) [
        | inl taken ↦ rw taken h
        | inr free ↦ rw free (
            Retires-update_all _ (complete_row status now admin) rows db.reservations
              (λ y _ on. absurd (cc)) h)
      ]

  finish-P :
      (now : ℕ) (admin : Option ℕ) (res_id : ℕ) (db : Database)
      → P rows db
      → P rows (admin_finish now admin res_id db).1
  unfolding admin_finish
  finish-P now none res_id db h = h
  finish-P now (some admin) res_id db h = (
    admin_finish-IsConsistent now (some admin) res_id db h.0,
    complete-Retires Status.done now admin _ db refl h.1,
  )

  cancel_by_admin-P :
      (now : ℕ) (admin : Option ℕ) (res_id : ℕ) (db : Database)
      → P rows db
      → P rows (admin_cancel now admin res_id db).1
  unfolding admin_cancel
  cancel_by_admin-P now none res_id db h = h
  cancel_by_admin-P now (some admin) res_id db h = (
    admin_cancel-IsConsistent now (some admin) res_id db h.0,
    complete-Retires Status.cancelled now admin _ db refl h.1,
  )

mutual
  Step-P :
      {a b : Database} (rows : List Reservation) (s : Step a b)
      → IsNoEdit s
      → IsNoDeletion s
      → P rows a
      → P rows b
  Step-P rows (message env redis online event db others) n m h =
      handle_message-Keeps (P rows) (same-P rows) env (cancel-P rows env.clock.now)
        (λ user type_id owner.
          allocation_attempts-Keeps (P rows) env.chance env.clock.now user type_id owner
            (λ k d. Reach-P rows (others k d) (n k d) (m k d))
            (λ k. attempt-P rows env.clock.now user type_id owner (env.chance.y_digit k)) 10 0)
        redis online event db h
  Step-P rows (batch config world clock db others) n m h =
      batch-P rows world (λ k d. Reach-P rows (others k d) (n k d) (m k d)) config clock db h
  Step-P rows (expire config online now db) n m h = expire-P rows config online now db h
  Step-P rows (call world now admin res_id db others) n m h =
      call-P rows world (λ d. Reach-P rows (others d) (n d) (m d)) now admin res_id db h
  Step-P rows (finish now admin res_id db) n m h = finish-P rows now admin res_id db h
  Step-P rows (cancel now admin res_id db) n m h = cancel_by_admin-P rows now admin res_id db h
  Step-P rows (edit now admin res_id status db) n m h = absurd n
  Step-P rows (elsewhere db db' same next) n m h =
      (drawn-IsConsistent db db' same next h.0, rw same h.1)
  Step-P rows (restore owner backup db db' timed e) n m h = absurd m
  Step-P rows (delete_all enabled visitor confirmation db) n m h = absurd m

  Reach-P :
      {a b : Database} (rows : List Reservation) (r : Reach a b)
      → NoEdits r
      → NoDeletions r
      → P rows a
      → P rows b
  Reach-P rows (stay db) n m h = h
  Reach-P rows (then_step a b c r s) n m h = Step-P rows s n.1 m.1 (Reach-P rows r n.0 m.0 h)

-- From a consistent state, as long as no admin edits a status by hand, no backup is restored and nobody deletes
-- all reservations, and however the other transactions interleave: a reservation that is finished or cancelled
-- is never again waiting or called.
pub reachable-Retires :
    (a b : Database) (r : Reach a b)
    → NoEdits r
    → NoDeletions r
    → IsConsistent a
    → Retires a.reservations b.reservations
reachable-Retires a b r n m c = (Reach-P a.reservations r n m (c, Retires-refl a.reservations)).1
