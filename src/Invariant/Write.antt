-- ===== src/Invariant/Write.antt =====
-- The write of one row that a query found keeps the invariant, if its result clashes with no other row.
use linebot.Prelude.{
  ◌<◌, ◌≡◌, sym, subst, Bool, some, All, All-zip, find_where, ◌==◌, ==→eq, Bool-cases, inl, inr,
  ◌∙◌,
}
use linebot.Database.Tables.{Reservation, Database}
use linebot.Admin.Reservations.{write_row}
use linebot.Invariant.{IsTimed, Distinct, IsConsistent, written, All-written, Pairwise-written}
use linebot.Invariant.Unique.{Distinct-sym, IsTarget, find_unique}

-- The write of one row, whose result is distinct from all others by the facts on them.
module _ (r : Reservation) (f : Reservation → Reservation) (Facts : Reservation → Type 0)
    (id_kept : (f r).id ≡ r.id)
    (apart : (y : Reservation) → Facts y → Distinct r y → Distinct (f r) y) where
  abbrev pub Q : Reservation → Type 0
  Q x = IsTarget r x × Facts x

  abbrev pub target : Reservation → Bool
  target x = x.id == r.id

  write-apart :
      (x y : Reservation)
      → Q x
      → Q y
      → Distinct x y
      → Distinct (written target f x) (written target f y)
  write-apart x y qx qy d = elim (Bool-cases (target x)) [
    | inl hx ↦ elim (Bool-cases (target y)) [
      | inl hy ↦ absurd (d.ids (==→eq x.id r.id hx ∙ sym (==→eq y.id r.id hy)))
      | inr hy ↦
          rw (hx, hy)
            (subst (λ z. Distinct (f z) y) (sym (qx.0 hx))
              (apart y qy.1 (subst (λ z. Distinct z y) (qx.0 hx) d)))
    ]
    | inr hx ↦ elim (Bool-cases (target y)) [
      | inl hy ↦
          rw (hx, hy)
            (subst (λ z. Distinct x (f z)) (sym (qy.0 hy))
              (Distinct-sym (f r) x
                (apart x qx.1 (Distinct-sym x r (subst (λ z. Distinct x z) (qy.0 hy) d)))))
      | inr hy ↦ rw (hx, hy) d
    ]
  ]

  -- The write keeps the invariant.
  pub write_row-IsConsistent :
      (p : Reservation → Bool) (db : Database)
      → find_where p db.reservations ≡ some r
      → (IsTimed r → IsTimed (f r))
      → All Facts db.reservations
      → IsConsistent db
      → IsConsistent (write_row r.id f db)
  write_row-IsConsistent p db e times facts c =
      let q : All Q db.reservations =
        All-zip (IsTarget r) Facts Q db.reservations (λ x a b. (a, b))
          (find_unique p db.reservations r e c.distinct) facts in
      record {
        distinct = Pairwise-written Q target f Distinct db.reservations q write-apart c.distinct;
        below =
            All-written Q target f (λ x. x.id < db.next_reservation_id)
              (λ x. x.id < db.next_reservation_id) db.reservations q
              (λ x qx h. elim (Bool-cases (target x)) [
                | inl hx ↦
                    rw (hx, qx.0 hx, id_kept)
                      (subst (λ z. z.id < db.next_reservation_id) (qx.0 hx) h)
                | inr hx ↦ rw hx h
              ])
              c.below;
        timed =
            All-written Q target f IsTimed IsTimed db.reservations q
              (λ x qx h. elim (Bool-cases (target x)) [
                | inl hx ↦
                    rw hx (
                      subst (λ z. IsTimed (f z)) (sym (qx.0 hx))
                        (times (subst IsTimed (qx.0 hx) h)))
                | inr hx ↦ rw hx h
              ])
              c.timed;
      }
