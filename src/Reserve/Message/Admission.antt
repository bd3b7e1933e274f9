-- ===== src/Reserve/Message/Admission.antt =====
-- Which requests for a reservation come to the attempts at a number.
use linebot.Prelude.{
  ℕ, ◌≡◌, refl, true, Option, none, some, Text, text_eq, find_where, drop, is_empty, Bool-cases,
  ◌⊎◌, inl, inr,
}
use linebot.Validators.{normalize_type_name, validate_type_name}
use linebot.Database.Tables.{ReservationType, Database}
use linebot.Database.Runtime.{is_accepting_new}
use linebot.Reserve.Message.{
  Outcome, Env, owner_account, owner_accepts, reserve, reserve_owned, reserve_type, reserve_named,
  request_reservation,
}

-- The type that was named accepts, and so does its owner, whose account is the one that the type names.
pub record Admits (t : ReservationType) (owner : ℕ) (db : Database) : Type 0 where
  pub owned : t.owner_admin_id ≡ some owner
  pub accepting : t.accepting ≡ true
  pub owner_open : owner_accepts (owner_account (some owner) db) ≡ true

-- The request changed nothing, or is the attempt to reserve a type that admits it.
abbrev pub Decided : Env → Text → Text → Database → Outcome × Database → Type 0
Decided env user requested db result =
    (result.1 ≡ db)
    ⊎ ((t : ReservationType) × (owner : ℕ) × (find_where (λ x. text_eq x.name requested)
            db.reservation_types
          ≡ some t)
        × Admits t owner db
        × (result ≡ reserve env user t owner db))

module _ (env : Env) (user requested : Text) (t : ReservationType) (db : Database) where
  owned-Decided :
      (owner : Option ℕ)
      → find_where (λ x. text_eq x.name requested) db.reservation_types ≡ some t
      → t.owner_admin_id ≡ owner
      → t.accepting ≡ true
      → owner_accepts (owner_account owner db) ≡ true
      → Decided env user requested db (reserve_owned env user t owner db)
  owned-Decided none found owned accepting owner_open = inl refl
  owned-Decided (some i) found owned accepting owner_open =
      inr (
        t,
        i,
        found,
        record { owned = owned; accepting = accepting; owner_open = owner_open },
        refl,
      )

  type-Decided :
      find_where (λ x. text_eq x.name requested) db.reservation_types ≡ some t
      → Decided env user requested db (reserve_type env user t db)
  unfolding reserve_type
  type-Decided found = elim (Bool-cases (owner_accepts (owner_account t.owner_admin_id db))) [
    | inr f ↦ rw f (inl refl)
    | inl owner_open ↦ elim (Bool-cases t.accepting) [
      | inr f ↦ simp (owner_open, f) (inl refl)
      | inl accepting ↦
          simp (owner_open, accepting)
            (owned-Decided t.owner_admin_id found refl accepting owner_open)
    ]
  ]

named-Decided :
    (env : Env) (user requested : Text) (found : Option ReservationType) (db : Database)
    → find_where (λ x. text_eq x.name requested) db.reservation_types ≡ found
    → Decided env user requested db (reserve_named env user requested found db)
named-Decided env user requested none db e = inl refl
named-Decided env user requested (some t) db e = type-Decided env user requested t db e

-- A request for a reservation leaves the database as it was, unless some admin takes new reservations, the
-- name is a valid one and names a type that accepts, and the type's owner accepts and is active: then it is
-- the attempt to reserve that type with that owner.
pub request_reservation_lem :
    (env : Env) (user normalized : Text) (db : Database)
    → let requested = normalize_type_name (drop 2 normalized) in
      let result = request_reservation env user normalized db in
      (result.1 ≡ db)
      ⊎ ((is_accepting_new none db ≡ true)
          × (validate_type_name env.config requested ≡ true)
          × Decided env user requested db result)
unfolding request_reservation
request_reservation_lem env user normalized db =
    let requested = normalize_type_name (drop 2 normalized) in
    elim (Bool-cases (is_accepting_new none db)) [
      | inr f ↦ rw f (inl refl)
      | inl opened ↦ elim (Bool-cases (is_empty requested)) [
        | inl listed ↦ rw (opened, listed) (inl refl)
        | inr named ↦ elim (Bool-cases (validate_type_name env.config requested)) [
          | inr f ↦ rw (opened, named, f) (inl refl)
          | inl valid ↦
              rw (opened, named, valid)
                (inr (refl, refl, named-Decided env user requested _ db refl))
        ]
      ]
    ]
