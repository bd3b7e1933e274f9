-- ===== src/Admin/Reservations/Undelivered.antt =====
-- A call whose message is not delivered is taken back: nothing is left of it.
use linebot.Prelude.{
  ℕ, ◌≡◌, refl, sym, subst, ap, Bool, true, false, ◌&&◌, Option, none, some, List, [], ◌∷◌, Text,
  arith, All, update_where, find_where, ◌==◌, ==→eq, ==-refl, Bool-cases, and-true, inl, inr,
  All-map,
}
use linebot.Database.Tables.{Status, Reservation, Database, status_eq, is_id, call_origin_manual}
use linebot.Database.Rows.{is_joined, type_of, owner_of}
use linebot.Queue.Calls.{Push, push_of, call_row, wait_row, is_called_in, revert_calls}
use linebot.Admin.Reservations.{
  CallWorld, is_owned_row, write_row, call_found, call_owned, admin_call,
}
use mathlib.Core.Path.{ap₂}
use linebot.Invariant.{IsAbsent, Timed, IsTimed, IsConsistent, written}
use linebot.Invariant.Unique.{IsTarget, find-All, find_unique, find_where-holds}

absent-none {ℓ} : {A : Type ℓ} (o : Option A) → IsAbsent o → o ≡ none
absent-none none h = refl
absent-none (some a) h = cc

uncalled :
    (s : Status) (called_at : Option ℕ) (origin : Option Text) (completed_at : Option ℕ)
    → status_eq s Status.waiting ≡ true
    → Timed s called_at origin completed_at
    → (s ≡ Status.waiting) × (called_at ≡ none) × (origin ≡ none)
uncalled Status.waiting called_at origin completed_at h t =
    (refl, absent-none called_at t.0, absent-none origin t.1)
uncalled _ called_at origin completed_at h t = cc

-- Calling a waiting row and taking that back gives the row.
wait-call :
    (now : ℕ) (origin : Text) (r : Reservation)
    → status_eq r.status Status.waiting ≡ true
    → IsTimed r
    → wait_row (call_row now origin r) ≡ r
wait-call now origin r h t =
    let (waits, not_called, no_origin) =
      uncalled r.status r.called_at r.call_origin r.completed_at h t in
    same r.status r.called_at r.call_origin waits not_called no_origin
  where
    same :
        (s : Status) (when : Option ℕ) (from : Option Text)
        → s ≡ Status.waiting
        → when ≡ none
        → from ≡ none
        → wait_row (call_row now origin r)
          ≡ record r { status = s; called_at = when; call_origin = from }
    same s when from a b c = rw (a, b, c) refl

update-update :
    (p q : Reservation → Bool) (f g : Reservation → Reservation) (rows : List Reservation)
    → All (λ r. written q g (written p f r) ≡ r) rows
    → update_where q g (update_where p f rows) ≡ rows
update-update p q f g [] h = refl
update-update p q f g (r ∷ rows) h = ap₂ (λ x xs. x ∷ xs) h.0 (update-update p q f g rows h.1)

module _ (now : ℕ) (r : Reservation) (waits : status_eq r.status Status.waiting ≡ true)
    (timed : IsTimed r) where
  restored :
      (x : Reservation)
      → IsTarget r x
      → written
          (is_called_in (r.id ∷ []))
          wait_row
          (written (λ s. s.id == r.id) (call_row now call_origin_manual) x)
        ≡ x
  restored x unique = elim (Bool-cases (x.id == r.id)) [
    | inl t ↦
        subst
          (λ y.
            written (is_called_in (r.id ∷ [])) wait_row
              (written (λ s. s.id == r.id) (call_row now call_origin_manual) y)
            ≡ y)
          (sym (unique t))
          (rw (==-refl r.id) (rw (==-refl r.id) (wait-call now call_origin_manual r waits timed)))
    | inr f ↦ rw f (rw (swapped f) refl)
  ]
    where
      swapped : (x.id == r.id) ≡ false → (r.id == x.id) ≡ false
      swapped h = ground arith

  revert-call :
      (db : Database)
      → All (IsTarget r) db.reservations
      → revert_calls (r.id ∷ []) (write_row r.id (call_row now call_origin_manual) db) ≡ db
  unfolding revert_calls
  revert-call db unique =
      ap (λ rows. record db { reservations = rows })
        (update-update (λ s. s.id == r.id) (is_called_in (r.id ∷ []))
          (call_row now call_origin_manual) wait_row db.reservations
          (All-map (IsTarget r) _ db.reservations restored unique))

owned-id :
    (db : Database) (admin res_id : ℕ) (r : Reservation)
    → is_owned_row db admin res_id r ≡ true
    → r.id ≡ res_id
unfolding is_owned_row
owned-id db admin res_id r h =
    ==→eq r.id res_id
      (and-true (r.id == res_id) (is_joined (type_of db r))
        (and-true (r.id == res_id && is_joined (type_of db r)) (is_id (owner_of db r) admin) h).0).0

module _ (world : CallWorld) (undelivered : (push : Push) → world.delivers push ≡ false)
    (alone : (db : Database) → world.meanwhile db ≡ db) where
  call_found-undelivered :
      (now res_id admin : ℕ) (found : Option Reservation) (db : Database)
      → find_where
          (λ r. is_owned_row db admin res_id r && status_eq r.status Status.waiting)
          db.reservations
        ≡ found
      → IsConsistent db
      → (call_found world now res_id found db).1 ≡ db
  call_found-undelivered now res_id admin none db e c = refl
  call_found-undelivered now res_id admin (some r) db e c =
      let wanted : Reservation → Bool =
        λ x. is_owned_row db admin res_id x && status_eq x.status Status.waiting in
      let (owned, waits) =
        and-true (is_owned_row db admin res_id r) (status_eq r.status Status.waiting)
          (find_where-holds wanted db.reservations r e) in
      let same : r.id ≡ res_id = owned-id db admin res_id r owned in
      let timed : IsTimed r = find-All IsTimed wanted db.reservations r e c.timed in
      rw (undelivered (push_of r), alone (write_row r.id (call_row now call_origin_manual) db))
        (subst
          (λ i. revert_calls (i ∷ []) (write_row r.id (call_row now call_origin_manual) db) ≡ db)
          same
          (revert-call now r waits timed db (find_unique wanted db.reservations r e c.distinct)))

-- In a consistent table, and with no other transaction in between, an admin's call whose message is not
-- delivered leaves the database exactly as it was, whoever calls whatever.
pub admin_call-undelivered :
    (world : CallWorld) (now : ℕ) (admin : Option ℕ) (res_id : ℕ) (db : Database)
    → ((push : Push) → world.delivers push ≡ false)
    → ((d : Database) → world.meanwhile d ≡ d)
    → IsConsistent db
    → (admin_call world now admin res_id db).1 ≡ db
unfolding admin_call call_owned
admin_call-undelivered world now none res_id db undelivered alone c = refl
admin_call-undelivered world now (some admin) res_id db undelivered alone c =
    call_found-undelivered world undelivered alone now res_id admin
      (find_where (λ r. is_owned_row db admin res_id r && status_eq r.status Status.waiting)
        db.reservations)
      db refl c
