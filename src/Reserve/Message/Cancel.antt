-- ===== src/Reserve/Message/Cancel.antt =====
-- What the message that cancels leaves: the handler writes the newest active row of the user only.
use linebot.Prelude.{
  ℕ, ◌≡◌, refl, subst, ap, Bool, true, false, ◌&&◌, Option, none, some, List, [], ◌∷◌, Text, arith,
  All, All-map, update_where, ◌==◌, ==-refl, ltb, text_eq, text_eq→eq, text_eq_refl, Bool-cases,
  and-true, ◌⊎◌, inl, inr, ◌≢◌,
}
use mathlib.Core.Option.{some-injective}
use linebot.Database.Tables.{Reservation, Database, is_active}
use linebot.Database.Rows.{is_active_of, newer, latest_where}
use linebot.Queue.Calls.{cancel_row}
use linebot.Reserve.Message.{Env, cancel_found, cancel_reservation}
use linebot.Invariant.{Distinct, clash_active, Pairwise, IsConsistent}

-- Two distinct rows are not both active reservations of one user.
pub other-inactive :
    (user : Text) (r s : Reservation)
    → is_active_of user r ≡ true
    → clash_active r s ≡ false
    → is_active_of user s ≡ false
other-inactive user r s h clash =
    let (mine, active) = and-true (text_eq r.user_id user) (is_active r.status) h in
    let e : r.user_id ≡ user = text_eq→eq r.user_id user mine in
    elim (Bool-cases (text_eq s.user_id user)) [
      | inr f ↦ rw f refl
      | inl t ↦
          (let same : text_eq r.user_id s.user_id ≡ true =
              rw (e, text_eq→eq s.user_id user t) (text_eq_refl user) in
            rw t (idle (is_active s.status) (rw (same, active) at clash)))
    ]
  where
    idle : (b : Bool) → (true && (true && b)) ≡ false → b ≡ false
    idle b h = h

-- Exactly the row with the id is an active reservation of the user.
abbrev IsTheOne : Text → ℕ → Reservation → Type 0
IsTheOne user i x = (x.id == i) ≡ is_active_of user x

others-IsTheOne :
    (user : Text) (r : Reservation) (rows : List Reservation)
    → is_active_of user r ≡ true
    → All (Distinct r) rows
    → All (IsTheOne user r.id) rows
others-IsTheOne user r rows h =
    All-map (Distinct r) (IsTheOne user r.id) rows
      (λ x d. rw (other-inactive user r x h d.actives) (apart x d.ids))
  where
    apart : (x : Reservation) → r.id ≢ x.id → (x.id == r.id) ≡ false
    apart x e = ground arith

latest-idle :
    (p : Reservation → Bool) (rows : List Reservation)
    → All (λ r. p r ≡ false) rows
    → latest_where p rows ≡ none
latest-idle p [] h = refl
latest-idle p (r ∷ rows) h = rw (latest-idle p rows h.1, h.0) refl

newer-cases :
    (r s : Reservation) (rest : Option Reservation)
    → newer r rest ≡ some s
    → (r ≡ s) ⊎ (rest ≡ some s)
newer-cases r s none e = inl (some-injective _ _ e)
newer-cases r s (some x) e = elim (Bool-cases (ltb x.id r.id)) [
  | inl t ↦ inl (some-injective _ _ (rw t at e))
  | inr t ↦ inr (rw t at e)
]

latest-All {κ} :
    (P : Reservation → Type κ) (p : Reservation → Bool) (rows : List Reservation) (s : Reservation)
    → latest_where p rows ≡ some s
    → All P rows
    → P s
latest-All P p [] s e h = cc
latest-All P p (r ∷ rows) s e h = elim (Bool-cases (p r)) [
  | inl t ↦ elim (newer-cases r s (latest_where p rows) (rw t at e)) [
    | inl same ↦ subst P same h.0
    | inr later ↦ latest-All P p rows s later h.1
  ]
  | inr t ↦ latest-All P p rows s (rw t at e) h.1
]

-- What the query of the user's newest active row says of all rows.
abbrev Found : Text → List Reservation → Option Reservation → Type 0
Found user rows none = All (λ r. is_active_of user r ≡ false) rows
Found user rows (some r) = All (IsTheOne user r.id) rows

later-Found :
    (user : Text) (r : Reservation) (rows : List Reservation) (latest : Option Reservation)
    → is_active_of user r ≡ false
    → latest_where (is_active_of user) rows ≡ latest
    → All (Distinct r) rows
    → Found user rows latest
    → Found user (r ∷ rows) latest
later-Found user r rows none idle e d h = (idle, h)
later-Found user r rows (some s) idle e d h =
    (rw idle (apart (latest-All (Distinct r) (is_active_of user) rows s e d).ids), h)
  where
    apart : r.id ≢ s.id → (r.id == s.id) ≡ false
    apart h = ground arith

latest-Found :
    (user : Text) (rows : List Reservation)
    → Pairwise Distinct rows
    → Found user rows (latest_where (is_active_of user) rows)
latest-Found user [] d = tt
latest-Found user (r ∷ rows) d = elim (Bool-cases (is_active_of user r)) [
  | inr f ↦ rw f (
      later-Found user r rows (latest_where (is_active_of user) rows) f refl d.0
        (latest-Found user rows d.1))
  | inl t ↦
      (let idle : latest_where (is_active_of user) rows ≡ none =
          latest-idle (is_active_of user) rows (
            All-map (Distinct r) (λ s. is_active_of user s ≡ false) rows
              (λ s e. other-inactive user r s t e.actives) d.0) in
        rw (t, idle) (rw (t, ==-refl r.id) refl, others-IsTheOne user r rows t d.0))
]

update_where-cong :
    (p q : Reservation → Bool) (f : Reservation → Reservation) (rows : List Reservation)
    → All (λ r. p r ≡ q r) rows
    → update_where p f rows ≡ update_where q f rows
update_where-cong p q f [] h = refl
update_where-cong p q f (r ∷ rows) h = rw (h.0, update_where-cong p q f rows h.1) refl

update_where-idle :
    (p : Reservation → Bool) (f : Reservation → Reservation) (rows : List Reservation)
    → All (λ r. p r ≡ false) rows
    → rows ≡ update_where p f rows
update_where-idle p f [] h = refl
update_where-idle p f (r ∷ rows) h = rw h.0 (ap (λ rest. r ∷ rest) (update_where-idle p f rows h.1))

cancelled_all :
    (env : Env) (user : Text) (latest : Option Reservation) (db : Database)
    → Found user db.reservations latest
    → (cancel_found env latest db).1 ≡ record db {
      reservations = update_where (is_active_of user) (cancel_row env.clock.now) db.reservations;
    }
cancelled_all env user none db h =
    ap (λ rows. record db { reservations = rows })
      (update_where-idle (is_active_of user) (cancel_row env.clock.now) db.reservations h)
cancelled_all env user (some r) db h =
    ap (λ rows. record db { reservations = rows })
      (update_where-cong (λ s. s.id == r.id) (is_active_of user) (cancel_row env.clock.now)
        db.reservations h)

-- In a consistent table, the cancelling message has the effect of cancelling every active reservation of
-- the user, now, and nothing else, although the handler writes only the newest one.
pub cancel_reservation_lem :
    (env : Env) (user : Text) (db : Database)
    → IsConsistent db
    → (cancel_reservation env user db).1 ≡ record db {
      reservations = update_where (is_active_of user) (cancel_row env.clock.now) db.reservations;
    }
unfolding cancel_reservation
cancel_reservation_lem env user db c =
    cancelled_all env user (latest_where (is_active_of user) db.reservations) db
      (latest-Found user db.reservations c.distinct)
