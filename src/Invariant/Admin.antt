-- ===== src/Invariant/Admin.antt =====
-- The handlers of the admins (blueprints/admin_routes.py) keep the invariant.
use linebot.Prelude.{
  ℕ, ◌≡◌, refl, sym, Bool, true, false, not, ◌&&◌, Option, none, some, List, [], ◌∷◌, Text, arith,
  All, All-zip, any, any-false→All, find_where, text_eq, ◌==◌, ne→==, Bool-cases, ◌≢◌, ◌⊎◌, inl,
  inr, strip, and-true,
}
use linebot.Database.Tables.{
  Status, Reservation, Database, status_eq, is_active, coalesce_or, call_origin_manual,
}
use linebot.Queue.Calls.{call_row, push_of}
use linebot.Admin.Reservations.{
  CallWorld, is_owned_row, write_row, takes_number, brings_number, takes_active, is_other_active,
  call_found, call_owned, admin_call, complete_row, complete_found, admin_finish, admin_cancel,
  parse_status, edit_row, edit_found, edit_parsed, admin_status_update,
}
use linebot.Invariant.{IsTimed, Distinct, same_id, IsConsistent, Unit-All}
use linebot.Invariant.Reserve.{same_id-some}
use linebot.Invariant.Write.{write_row-IsConsistent}
use linebot.Invariant.Unique.{text_eq_sym, same_id_sym, find_where-holds}
use linebot.Invariant.Batch.{completed_of_waiting, active_of_eq, revert-IsConsistent}

-- The columns of a row whose owner may be filled in.
clash-own :
    (admin : ℕ) (o n : Option ℕ) (y : Reservation)
    → (same_id o y.owner_admin_id && same_id n y.reservation_no) ≡ false
    → brings_number admin o n y ≡ false
    → (same_id (some (coalesce_or o admin)) y.owner_admin_id && same_id n y.reservation_no) ≡ false
clash-own admin (some owner) n y h b = h
clash-own admin none none y h b = and_false (same_id (some admin) y.owner_admin_id)
  where
    and_false : (a : Bool) → (a && false) ≡ false
    and_false true = refl
    and_false false = refl
clash-own admin none (some k) y h b =
    rw
      (
        same_id_sym (some admin) y.owner_admin_id,
        same_id_sym (some k) y.reservation_no,
        same_id-some y.owner_admin_id admin,
        same_id-some y.reservation_no k,
      )
      b

module _ (status : Status) (now admin : ℕ) (r : Reservation) where
  complete-apart :
      is_active status ≡ false
      → (y : Reservation) → brings_number admin r.owner_admin_id r.reservation_no y ≡ false
      → Distinct r y
      → Distinct (complete_row status now admin r) y
  complete-apart over y fresh d = record {
    ids = d.ids;
    actives = idle_and (text_eq r.user_id y.user_id) (is_active status) (is_active y.status) over;
    numbers = clash-own admin r.owner_admin_id r.reservation_no y d.numbers fresh;
  }
    where
      idle_and : (e a b : Bool) → a ≡ false → (e && (a && b)) ≡ false
      idle_and e a b h = ground arith

  -- A status that is over keeps the time at which it was reached.
  complete_row-IsTimed :
      (status ≡ Status.done) ⊎ (status ≡ Status.cancelled)
      → IsTimed (complete_row status now admin r)
  complete_row-IsTimed (inl e) = rw e refl
  complete_row-IsTimed (inr e) = rw e refl

  EditFacts : Reservation → Type 0
  EditFacts y =
      (brings_number admin r.owner_admin_id r.reservation_no y ≡ false)
      × ((is_active status && is_other_active r y) ≡ false)

  edit-apart :
      (y : Reservation) → EditFacts y → Distinct r y → Distinct (edit_row status now admin r) y
  unfolding EditFacts
  edit-apart y fresh d = record {
    ids = d.ids;
    actives =
        lone (is_active status) (y.id == r.id) (text_eq r.user_id y.user_id) (is_active y.status)
          (ne→== y.id r.id (λ e. d.ids (sym e))) (rw (text_eq_sym r.user_id y.user_id) fresh.1);
    numbers = clash-own admin r.owner_admin_id r.reservation_no y d.numbers fresh.0;
  }
    where
      lone :
          (a same e b : Bool)
          → same ≡ false
          → (a && (not same && (e && b))) ≡ false
          → (e && (a && b)) ≡ false
      lone a same e b h k = ground arith

edit_row-IsTimed :
    (status : Status) (now admin : ℕ) (r : Reservation)
    → status ≢ Status.queued_call
    → IsTimed (edit_row status now admin r)
edit_row-IsTimed Status.waiting now admin r h = (refl, refl, refl)
edit_row-IsTimed Status.called now admin r h = (refl, refl, refl)
edit_row-IsTimed Status.done now admin r h = refl
edit_row-IsTimed Status.cancelled now admin r h = refl
edit_row-IsTimed Status.queued_call now admin r h = absurd (h refl)

All-of_any :
    (b : Bool) (q : Reservation → Bool) (rows : List Reservation)
    → (b && any q rows) ≡ false
    → All (λ x. (b && q x) ≡ false) rows
All-of_any true q rows h = any-false→All q rows h
All-of_any false q [] h = tt
All-of_any false q (x ∷ xs) h = (refl, All-of_any false q xs refl)

-- Closing a reservation keeps the invariant.
complete_found-IsConsistent :
    (status : Status) (now admin : ℕ) (p : Reservation → Bool) (db : Database)
    (o : Option Reservation)
    → (status ≡ Status.done) ⊎ (status ≡ Status.cancelled)
    → is_active status ≡ false
    → find_where p db.reservations ≡ o
    → IsConsistent db
    → IsConsistent (complete_found status now admin o db).1
complete_found-IsConsistent status now admin p db none over idle e c = c
complete_found-IsConsistent status now admin p db (some r) over idle e c =
    elim (Bool-cases (takes_number db admin r)) [
      | inl taken ↦ rw taken c
      | inr free ↦ rw free (
          write_row-IsConsistent r (complete_row status now admin)
            (λ y. brings_number admin r.owner_admin_id r.reservation_no y ≡ false) refl
            (complete-apart status now admin r idle) p db e
            (λ _. complete_row-IsTimed status now admin r over)
            (any-false→All _ db.reservations free) c)
    ]

-- Finishing a reservation keeps the table well formed.
pub admin_finish-IsConsistent :
    (now : ℕ) (admin : Option ℕ) (res_id : ℕ) (db : Database)
    → IsConsistent db
    → IsConsistent (admin_finish now admin res_id db).1
unfolding admin_finish
admin_finish-IsConsistent now none res_id db c = c
admin_finish-IsConsistent now (some admin) res_id db c =
    complete_found-IsConsistent Status.done now admin _ db _ (inl refl) refl refl c

-- Cancelling a reservation keeps the table well formed.
pub admin_cancel-IsConsistent :
    (now : ℕ) (admin : Option ℕ) (res_id : ℕ) (db : Database)
    → IsConsistent db
    → IsConsistent (admin_cancel now admin res_id db).1
unfolding admin_cancel
admin_cancel-IsConsistent now none res_id db c = c
admin_cancel-IsConsistent now (some admin) res_id db c =
    complete_found-IsConsistent Status.cancelled now admin _ db _ (inr refl) refl refl c

edit_found-IsConsistent :
    (status : Status) (now admin : ℕ) (p : Reservation → Bool) (db : Database)
    (o : Option Reservation)
    → status ≢ Status.queued_call
    → find_where p db.reservations ≡ o
    → IsConsistent db
    → IsConsistent (edit_found status now admin o db).1
unfolding EditFacts
edit_found-IsConsistent status now admin p db none ne e c = c
edit_found-IsConsistent status now admin p db (some r) ne e c =
    elim (Bool-cases (takes_active db status r)) [
      | inl busy ↦ rw busy c
      | inr lone ↦ elim (Bool-cases (takes_number db admin r)) [
        | inl taken ↦ rw (lone, taken) c
        | inr free ↦
            rw (lone, free)
              (write_row-IsConsistent r (edit_row status now admin) (EditFacts status now admin r)
                refl (edit-apart status now admin r) p db e
                (λ _. edit_row-IsTimed status now admin r ne)
                (All-zip _ _ _ db.reservations (λ y a b. (a, b))
                  (any-false→All _ db.reservations free)
                  (All-of_any (is_active status) (is_other_active r) db.reservations lone))
                c)
      ]
    ]

-- The form names none but the four statuses.
parse_status-ne :
    (s : Text) (status : Status) → parse_status s ≡ some status → status ≢ Status.queued_call
parse_status-ne s status e q = ground arith

edit_parsed-IsConsistent :
    (o : Option Status) (now admin res_id : ℕ) (db : Database)
    → ((status : Status) → o ≡ some status → status ≢ Status.queued_call)
    → IsConsistent db
    → IsConsistent (edit_parsed o now admin res_id db).1
edit_parsed-IsConsistent none now admin res_id db ne c = c
edit_parsed-IsConsistent (some status) now admin res_id db ne c =
    edit_found-IsConsistent status now admin (is_owned_row db admin res_id) db _ (ne status refl)
      refl c

-- Editing the status by hand keeps the table well formed.
pub admin_status_update-IsConsistent :
    (now : ℕ) (admin : Option ℕ) (res_id : ℕ) (status : Text) (db : Database)
    → IsConsistent db
    → IsConsistent (admin_status_update now admin res_id status db).1
unfolding admin_status_update
admin_status_update-IsConsistent now none res_id status db c = c
admin_status_update-IsConsistent now (some admin) res_id status db c =
    edit_parsed-IsConsistent (parse_status (strip status)) now admin res_id db
      (parse_status-ne (strip status)) c

call_row-apart :
    (now : ℕ) (r : Reservation)
    → is_active r.status ≡ true
    → (y : Reservation) → Unit {0}
    → Distinct r y
    → Distinct (call_row now call_origin_manual r) y
call_row-apart now r on y _ d = record {
  ids = d.ids;
  actives = rw on at d.actives;
  numbers = d.numbers;
}

-- Calling one waiting row that a query found keeps the invariant.
pub call_one-IsConsistent :
    (now : ℕ) (p : Reservation → Bool) (db : Database) (r : Reservation)
    → status_eq r.status Status.waiting ≡ true
    → find_where p db.reservations ≡ some r
    → IsConsistent db
    → IsConsistent (write_row r.id (call_row now call_origin_manual) db)
call_one-IsConsistent now p db r waiting e =
    write_row-IsConsistent r (call_row now call_origin_manual) (λ _. Unit {0}) refl
      (call_row-apart now r (active_of_eq r.status Status.waiting waiting refl)) p db e
      (λ h. (
        refl,
        refl,
        completed_of_waiting r.status r.called_at r.call_origin r.completed_at waiting h,
      ))
      (Unit-All db.reservations)

module _ (world : CallWorld)
    (kept : (db : Database) → IsConsistent db → IsConsistent (world.meanwhile db)) where
  call_found-IsConsistent :
      (now res_id : ℕ) (p : Reservation → Bool) (db : Database) (o : Option Reservation)
      → ((r : Reservation) → p r ≡ true → status_eq r.status Status.waiting ≡ true)
      → find_where p db.reservations ≡ o
      → IsConsistent db
      → IsConsistent (call_found world now res_id o db).1
  call_found-IsConsistent now res_id p db none waits e c = c
  call_found-IsConsistent now res_id p db (some r) waits e c =
      let waiting = waits r (find_where-holds p db.reservations r e) in
      let called = call_one-IsConsistent now p db r waiting e c in
      elim (Bool-cases (world.delivers (push_of r))) [
        | inl sent ↦ rw sent (kept _ called)
        | inr lost ↦ rw lost (revert-IsConsistent (res_id ∷ []) _ (kept _ called))
      ]

  -- Calling a user keeps the table well formed, also where the message fails and the call is taken back.
  pub admin_call-IsConsistent :
      (now : ℕ) (admin : Option ℕ) (res_id : ℕ) (db : Database)
      → IsConsistent db
      → IsConsistent (admin_call world now admin res_id db).1
  unfolding admin_call call_owned
  admin_call-IsConsistent now none res_id db c = c
  admin_call-IsConsistent now (some admin) res_id db c =
      call_found-IsConsistent now res_id _ db _ (λ r t. (and-true _ _ t).1) refl c
