-- ===== src/System/History/Kept.antt =====
-- Each transaction keeps the reservations that there are.
use linebot.Prelude.{
  ℕ, refl, ◌&&◌, ◌||◌, Option, none, some, List, [], ◌∷◌, Text, find_where, Bool-cases, inl, inr,
  strip,
}
use linebot.Database.Tables.{Status, Reservation, Database, status_eq, call_origin_manual}
use linebot.Queue.Number.{allocate_admin_reservation_no, has_sequence, has_account}
use linebot.Queue.Calls.{call_row, push_of}
use linebot.Reserve.Insert.{has_active, has_number, insert_reservation, settle, attempt}
use linebot.Reserve.Message.Keeps.{AttemptedKeeps, allocation_attempts-Keeps, handle_message-Keeps}
use linebot.Admin.Reservations.{
  CallWorld, is_owned_row, write_row, takes_number, takes_active, call_found, call_owned,
  admin_call, complete_row, complete_found, admin_finish, admin_cancel, parse_status, edit_row,
  edit_found, edit_parsed, admin_status_update,
}
use linebot.System.{
  Step, Reach, message, batch, expire, call, finish, cancel, edit, restore, delete_all, elsewhere,
  stay, then_step,
}
use linebot.System.History.{
  NoDeletions, IsNoDeletion, Grows, Grows-refl, Grows-append, Grows-update, KeepsSame,
  call-KeepsSame,
}
use linebot.System.History.Steps.{P, same-P, cancel-P, expire-P, revert-P, batch-P}

complete-KeepsSame : (status : Status) (now admin : ℕ) → KeepsSame (complete_row status now admin)
complete-KeepsSame status now admin r = record {
  id = refl;
  user_id = refl;
  reservation_no = refl;
  type_id = refl;
  created_at = refl;
}

edit-KeepsSame : (status : Status) (now admin : ℕ) → KeepsSame (edit_row status now admin)
edit-KeepsSame status now admin r = record {
  id = refl;
  user_id = refl;
  reservation_no = refl;
  type_id = refl;
  created_at = refl;
}

module _ (rows : List Reservation) where
  -- What an attempt leaves, from the rows that it began with.
  insert-P :
      (now : ℕ) (user : Text) (type_id owner number : ℕ) (start db : Database)
      → P rows start
      → P rows db
      → AttemptedKeeps
          (P rows)
          (settle number start (insert_reservation now user type_id owner number db))
  unfolding insert_reservation
  insert-P now user type_id owner number start db h k =
      elim (Bool-cases (has_active user db.reservations)) [
        | inl busy ↦ rw busy h
        | inr idle ↦ elim (Bool-cases (has_number owner number db.reservations)) [
          | inl taken ↦ rw (idle, taken) h
          | inr free ↦ rw (idle, free) (Grows-append rows db.reservations _ k)
        ]
      ]

  attempt-P :
      (now : ℕ) (user : Text) (type_id owner y_digit : ℕ) (start : Database)
      → P rows start
      → AttemptedKeeps (P rows) (attempt now user type_id owner y_digit start)
  unfolding attempt allocate_admin_reservation_no
  attempt-P now user type_id owner y_digit start h =
      elim (Bool-cases (has_sequence owner start || has_account owner start)) [
        | inl known ↦ rw known (insert-P now user type_id owner _ start _ h h)
        | inr unknown ↦ rw unknown h
      ]

  call-P :
      (world : CallWorld)
      → ((d : Database) → P rows d → P rows (world.meanwhile d))
      → (now : ℕ) (admin : Option ℕ) (res_id : ℕ) (db : Database) → P rows db
      → P rows (admin_call world now admin res_id db).1
  unfolding admin_call call_owned
  call-P world others now none res_id db h = h
  call-P world others now (some admin) res_id db h = found (
      find_where (λ r. is_owned_row db admin res_id r && status_eq r.status Status.waiting)
        db.reservations)
    where
      found : (o : Option Reservation) → P rows (call_found world now res_id o db).1
      found none = h
      found (some r) =
          let called =
            others (write_row r.id (call_row now call_origin_manual) db)
              (Grows-update _ _ rows db.reservations (call-KeepsSame now call_origin_manual) h) in
          elim (Bool-cases (world.delivers (push_of r))) [
            | inl sent ↦ rw sent called
            | inr lost ↦ rw lost (revert-P rows (res_id ∷ []) _ called)
          ]

  complete-P :
      (status : Status) (now admin : ℕ) (o : Option Reservation) (db : Database)
      → P rows db
      → P rows (complete_found status now admin o db).1
  complete-P status now admin none db h = h
  complete-P status now admin (some r) db h = elim (Bool-cases (takes_number db admin r)) [
    | inl taken ↦ rw taken h
    | inr free ↦
        rw free (Grows-update _ _ rows db.reservations (complete-KeepsSame status now admin) h)
  ]

  finish-P :
      (now : ℕ) (admin : Option ℕ) (res_id : ℕ) (db : Database)
      → P rows db
      → P rows (admin_finish now admin res_id db).1
  unfolding admin_finish
  finish-P now none res_id db h = h
  finish-P now (some admin) res_id db h = complete-P Status.done now admin _ db h

  cancel_by_admin-P :
      (now : ℕ) (admin : Option ℕ) (res_id : ℕ) (db : Database)
      → P rows db
      → P rows (admin_cancel now admin res_id db).1
  unfolding admin_cancel
  cancel_by_admin-P now none res_id db h = h
  cancel_by_admin-P now (some admin) res_id db h = complete-P Status.cancelled now admin _ db h

  edit-P :
      (now : ℕ) (admin : Option ℕ) (res_id : ℕ) (status : Text) (db : Database)
      → P rows db
      → P rows (admin_status_update now admin res_id status db).1
  unfolding admin_status_update
  edit-P now none res_id status db h = h
  edit-P now (some admin) res_id status db h = parsed (parse_status (strip status))
    where
      found :
          (new_status : Status) (o : Option Reservation)
          → P rows (edit_found new_status now admin o db).1
      found new_status none = h
      found new_status (some r) = elim (Bool-cases (takes_active db new_status r)) [
        | inl busy ↦ rw busy h
        | inr idle ↦ elim (Bool-cases (takes_number db admin r)) [
          | inl taken ↦ rw (idle, taken) h
          | inr free ↦
              rw (idle, free)
                (Grows-update _ _ rows db.reservations (edit-KeepsSame new_status now admin) h)
        ]
      ]

      parsed : (o : Option Status) → P rows (edit_parsed o now admin res_id db).1
      parsed none = h
      parsed (some new_status) =
          found new_status (find_where (is_owned_row db admin res_id) db.reservations)

mutual
  Step-Grows :
      {a b : Database} (rows : List Reservation) (s : Step a b)
      → IsNoDeletion s
      → P rows a
      → P rows b
  Step-Grows rows (message env redis online event db others) n h =
      handle_message-Keeps (P rows) (same-P rows) env (cancel-P rows env.clock.now)
        (λ user type_id owner.
          allocation_attempts-Keeps (P rows) env.chance env.clock.now user type_id owner
            (λ k d. Reach-Grows rows (others k d) (n k d))
            (λ k. attempt-P rows env.clock.now user type_id owner (env.chance.y_digit k)) 10 0)
        redis online event db h
  Step-Grows rows (batch config world clock db others) n h =
      batch-P rows world (λ k d. Reach-Grows rows (others k d) (n k d)) config clock db h
  Step-Grows rows (expire config online now db) n h = expire-P rows config online now db h
  Step-Grows rows (call world now admin res_id db others) n h =
      call-P rows world (λ d. Reach-Grows rows (others d) (n d)) now admin res_id db h
  Step-Grows rows (finish now admin res_id db) n h = finish-P rows now admin res_id db h
  Step-Grows rows (cancel now admin res_id db) n h = cancel_by_admin-P rows now admin res_id db h
  Step-Grows rows (edit now admin res_id status db) n h = edit-P rows now admin res_id status db h
  Step-Grows rows (restore owner backup db db' timed e) n h = absurd n
  Step-Grows rows (delete_all enabled visitor confirmation db) n h = absurd n
  Step-Grows rows (elsewhere db db' same next) n h = rw same h

  Reach-Grows :
      {a b : Database} (rows : List Reservation) (r : Reach a b)
      → NoDeletions r
      → P rows a
      → P rows b
  Reach-Grows rows (stay db) n h = h
  Reach-Grows rows (then_step a b c r s) n h = Step-Grows rows s n.1 (Reach-Grows rows r n.0 h)

-- As long as no backup is restored and nobody deletes all reservations, and however the other transactions
-- interleave, each reservation that was made stays in the table, in its place, with its id, user, ticket
-- number, type and time.
pub reachable-Grows :
    (a b : Database) (r : Reach a b) → NoDeletions r → Grows a.reservations b.reservations
reachable-Grows a b r n = Reach-Grows a.reservations r n (Grows-refl a.reservations)
