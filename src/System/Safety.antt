-- ===== src/System/Safety.antt =====
-- What holds in every state that the program reaches.
use linebot.Prelude.{
  ℕ, Bool, not, text_eq, codes, subst, if_cases, ◌≤◌, ◌≡◌, refl, true, false, ◌&&◌, Option, none,
  some, [], Text, arith, count_where, ◌==◌, ◌≢◌,
}
use linebot.Database.Tables.{Reservation, Database, is_id}
use linebot.Database.Rows.{is_active_of}
use linebot.Reserve.Insert.{is_numbered}
use linebot.Admin.Reservations.{Response}
use linebot.Backup.Full.Handlers.{Visitor, is_auditor, admin_delete_all_reservations}
use linebot.Backup.Account.Others.{AfterImport}
use linebot.Backup.Account.Kept.{import_account-IsConsistent}
use linebot.System.{
  Step, Reach, message, batch, expire, call, finish, cancel, edit, restore, delete_all, elsewhere,
  stay, then_step,
}
use linebot.Invariant.{Distinct, IsConsistent, same_id}
use linebot.Invariant.Unique.{count_unique}
use linebot.Invariant.Batch.{
  process_queued_calls-IsConsistent, expire-IsConsistent, drawn-IsConsistent,
}
use linebot.Invariant.Message.{handle_message-IsConsistent}
use linebot.Invariant.Admin.{
  admin_call-IsConsistent, admin_finish-IsConsistent, admin_cancel-IsConsistent,
  admin_status_update-IsConsistent,
}
use linebot.Reserve.Message.Cancel.{other-inactive}

-- Deleting all reservations leaves a consistent table, or the one that was there.
deleted-IsConsistent :
    (enabled : Bool) (visitor : Visitor) (confirmation : Text) (db : Database)
    → IsConsistent db
    → IsConsistent (admin_delete_all_reservations enabled visitor confirmation db).1
unfolding admin_delete_all_reservations
deleted-IsConsistent enabled visitor confirmation db c =
    let After : Response × Database → Type 0 = λ out. IsConsistent out.1 in
    if_cases After (not (is_auditor visitor)) _ _ (λ _. c)
      (λ _.
        if_cases After (not enabled) _ _ (λ _. c)
          (λ _.
            if_cases After (not (text_eq confirmation (codes "全アカウントの予約を削除"))) _ _ (λ _. c)
              (λ _. record { distinct = tt; below = tt; timed = tt })))

mutual
  Step-IsConsistent : {a b : Database} → Step a b → IsConsistent a → IsConsistent b
  Step-IsConsistent (message env redis online event db others) c =
      handle_message-IsConsistent env (λ k d. Reach-IsConsistent (others k d)) redis online event db
        c
  Step-IsConsistent (batch config world clock db others) c =
      process_queued_calls-IsConsistent world (λ k d. Reach-IsConsistent (others k d)) config clock
        db c
  Step-IsConsistent (expire config online now db) c = expire-IsConsistent config online now db c
  Step-IsConsistent (call world now admin res_id db others) c =
      admin_call-IsConsistent world (λ d. Reach-IsConsistent (others d)) now admin res_id db c
  Step-IsConsistent (finish now admin res_id db) c = admin_finish-IsConsistent now admin res_id db c
  Step-IsConsistent (cancel now admin res_id db) c = admin_cancel-IsConsistent now admin res_id db c
  Step-IsConsistent (edit now admin res_id status db) c =
      admin_status_update-IsConsistent now admin res_id status db c
  Step-IsConsistent (restore owner backup db db' timed e) c =
      subst (AfterImport IsConsistent) e (import_account-IsConsistent owner backup db c timed)
  Step-IsConsistent (delete_all enabled visitor confirmation db) c =
      deleted-IsConsistent enabled visitor confirmation db c
  Step-IsConsistent (elsewhere db db' rows next) c = drawn-IsConsistent db db' rows next c

  Reach-IsConsistent : {a b : Database} → Reach a b → IsConsistent a → IsConsistent b
  Reach-IsConsistent (stay db) c = c
  Reach-IsConsistent (then_step a b d r s) c = Step-IsConsistent s (Reach-IsConsistent r c)

-- Whatever the program does from a consistent state, and however its transactions interleave, the state
-- stays consistent; a restored backup's reservations have the times of their statuses.
pub reachable-IsConsistent : (a b : Database) → Reach a b → IsConsistent a → IsConsistent b
reachable-IsConsistent a b r c = Reach-IsConsistent r c

apart-number :
    (owner number : ℕ) (r s : Reservation)
    → is_numbered owner number r ≡ true
    → Distinct r s
    → is_numbered owner number s ≡ false
apart-number owner number r s h d =
    apart r.owner_admin_id s.owner_admin_id r.reservation_no s.reservation_no h d.numbers
  where
    apart :
        (a b m n : Option ℕ)
        → (is_id a owner && is_id m number) ≡ true
        → (same_id a b && same_id m n) ≡ false
        → (is_id b owner && is_id n number) ≡ false
    apart (some a) (some b) (some m) (some n) h k = ground arith
    apart none b m n h k = cc
    apart a none m n h k = refl
    apart a b none n h k = ground arith
    apart a b m none h k = ground arith

-- From an empty table of reservations, however the transactions interleave: no user ever has two active
-- reservations, no ticket number of an owner is ever on two rows, and no id is.
pub reachable_unique :
    (a b : Database) (user : Text) (owner number id : ℕ)
    → Reach a b
    → a.reservations ≡ []
    → (count_where (is_active_of user) b.reservations ≤ 1)
      × (count_where (is_numbered owner number) b.reservations ≤ 1)
      × (count_where (λ r. r.id == id) b.reservations ≤ 1)
reachable_unique a b user owner number id r empty =
    let c : IsConsistent b =
      Reach-IsConsistent r
        (record { distinct = rw empty tt; below = rw empty tt; timed = rw empty tt }) in
    (
      count_unique (is_active_of user) b.reservations
          (λ r s h d. other-inactive user r s h d.actives) c.distinct,
      count_unique (is_numbered owner number) b.reservations (apart-number owner number) c.distinct,
      count_unique (λ r. r.id == id) b.reservations (λ r s h d. apart r s h d.ids) c.distinct,
    )
  where
    apart : (r s : Reservation) → (r.id == id) ≡ true → r.id ≢ s.id → (s.id == id) ≡ false
    apart r s h e = ground arith
