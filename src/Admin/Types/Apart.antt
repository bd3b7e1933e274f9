-- ===== src/Admin/Types/Apart.antt =====
-- Two types under the keys of `ensure_types_table`, and the writes that keep them apart.
use linebot.Prelude.{
  ℕ, ◌≡◌, ◌≢◌, refl, Bool, true, false, Text, text_eq, ◌==◌, ==→eq, arith, Bool-cases, inl, inr,
  if◌then◌else◌,
}
use linebot.Database.Tables.{ReservationType}
use linebot.Invariant.{written}
use linebot.Invariant.Unique.{text_eq_sym}
use linebot.Admin.Types.{is_own_type, other_has_name}
use linebot.Admin.Types.Change.{KeepsKey}

abbrev pub ApartTypes : ReservationType → ReservationType → Type 0
ApartTypes s t = (s.id ≢ t.id) × (text_eq s.name t.name ≡ false)

pub apart-updated :
    (p : ReservationType → Bool) (f : ReservationType → ReservationType) (k : KeepsKey f)
    (s t : ReservationType)
    → ApartTypes s t
    → ApartTypes (written p f s) (written p f t)
apart-updated p f k s t h = (rw (kept_id s, kept_id t) h.0, rw (kept_name s, kept_name t) h.1)
  where
    kept_id : (t : ReservationType) → (written p f t).id ≡ t.id
    kept_id t = ground (arith, k.id_kept t)

    kept_name : (t : ReservationType) → (written p f t).name ≡ t.name
    kept_name t = elim (Bool-cases (p t)) [ inl e ↦ rw e (k.name_kept t) | inr e ↦ rw e refl ]

-- A type with a new name stays apart from the others, of which none has the name.
module _ (admin type_id : ℕ) (name : Text) where
  abbrev pub rename : ReservationType → ReservationType
  rename t = record t { name = name }

  abbrev pub IsFree : ReservationType → Type 0
  IsFree t = other_has_name type_id name t ≡ false

  id-renamed : (t : ReservationType) → (written (is_own_type admin type_id) rename t).id ≡ t.id
  id-renamed t = ground arith

  pub apart-renamed :
      (s t : ReservationType)
      → IsFree s
      → IsFree t
      → ApartTypes s t
      → ApartTypes
          (written (is_own_type admin type_id) rename s)
          (written (is_own_type admin type_id) rename t)
  apart-renamed s t fs ft h = (
    rw (id-renamed s, id-renamed t) h.0,
    names (is_own_type admin type_id s) (is_own_type admin type_id t) refl refl,
  )
    where
      names :
          (a b : Bool)
          → is_own_type admin type_id s ≡ a
          → is_own_type admin type_id t ≡ b
          → text_eq (if a then rename s else s).name (if b then rename t else t).name ≡ false
      names true true ea eb = absurd (
          h.0 (omega (arith, ==→eq s.id type_id (ground arith), ==→eq t.id type_id (ground arith))))
      names true false ea eb =
          let other : (t.id == type_id) ≡ false = ground (arith, h.0) in
          rw (text_eq_sym name t.name) (ground (arith, other))
      names false true ea eb =
          let other : (s.id == type_id) ≡ false = ground (arith, h.0) in ground (arith, other)
      names false false ea eb = h.1
