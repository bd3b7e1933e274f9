-- ===== src/Invariant/Unique.antt =====
-- A row that a query found: it is the only one with its id.
use linebot.Prelude.{
  ℕ, ◌≡◌, refl, sym, subst, Bool, true, false, ◌&&◌, Option, none, some, List, [], ◌∷◌, Text, arith,
  All, All-map, find_where, text_eq, text_eq_iff, ◌==◌, ==→eq, Bool-cases, ◌⊎◌, inl, inr, ◌≤◌,
  count_where,
}
use mathlib.Core.Option.{some-injective}
use linebot.Database.Tables.{Reservation, is_active}
use linebot.Invariant.{Distinct, same_id, Pairwise}

pub text_eq_sym : (s t : Text) → text_eq s t ≡ text_eq t s
text_eq_sym s t = ground (arith, text_eq_iff s t, text_eq_iff t s)

pub and_swap : (e a b : Bool) → (e && (a && b)) ≡ (e && (b && a))
and_swap e a b = ground arith

pub same_id_sym : (a b : Option ℕ) → same_id a b ≡ same_id b a
same_id_sym none none = refl
same_id_sym none (some n) = refl
same_id_sym (some m) none = refl
same_id_sym (some m) (some n) = ground arith

pub Distinct-sym : (r s : Reservation) → Distinct r s → Distinct s r
Distinct-sym r s d = record {
  ids = λ e. d.ids (sym e);
  actives =
      rw
        (
          text_eq_sym s.user_id r.user_id,
          and_swap (text_eq r.user_id s.user_id) (is_active s.status) (is_active r.status),
        )
        d.actives;
  numbers =
      rw
        (
          same_id_sym s.owner_admin_id r.owner_admin_id,
          same_id_sym s.reservation_no r.reservation_no,
        )
        d.numbers;
}

pub find-All {ℓ κ} :
    {A : Type ℓ} (P : A → Type κ) (p : A → Bool) (xs : List A) (x : A)
    → find_where p xs ≡ some x
    → All P xs
    → P x
find-All P p [] x e h = cc
find-All P p (y ∷ ys) x e h = elim (Bool-cases (p y)) [
  | inl t ↦ subst P (some-injective _ _ (rw t at e)) h.0
  | inr t ↦ find-All P p ys x (rw t at e) h.1
]

pub find_where-holds {ℓ} :
    {A : Type ℓ} (p : A → Bool) (xs : List A) (x : A) → find_where p xs ≡ some x → p x ≡ true
find_where-holds p [] x e = cc
find_where-holds p (y ∷ ys) x e = ground (arith, find_where-holds p ys x)

-- What a query found is one of the rows: the first, or found among the rest.
pub find-cons {ℓ} :
    {A : Type ℓ} (p : A → Bool) (x : A) (xs : List A) (y : A)
    → find_where p (x ∷ xs) ≡ some y
    → (x ≡ y) ⊎ (find_where p xs ≡ some y)
find-cons p x xs y e = elim (Bool-cases (p x)) [
  | inl t ↦ inl (some-injective _ _ (rw t at e))
  | inr t ↦ inr (rw t at e)
]

abbrev pub IsTarget : Reservation → Reservation → Type 0
IsTarget r x = (x.id == r.id) ≡ true → x ≡ r

pub others-IsTarget :
    (r : Reservation) (rows : List Reservation) → All (Distinct r) rows → All (IsTarget r) rows
others-IsTarget r rows =
    All-map (Distinct r) (IsTarget r) rows (λ x d same. absurd (d.ids (sym (==→eq x.id r.id same))))

-- The row that a query found is the only one with its id.
pub find_unique :
    (p : Reservation → Bool) (rows : List Reservation) (r : Reservation)
    → find_where p rows ≡ some r
    → Pairwise Distinct rows
    → All (IsTarget r) rows
find_unique p [] r e d = tt
find_unique p (x ∷ xs) r e d = elim (find-cons p x xs r e) [
  | inl same ↦ subst (λ y. All (IsTarget y) (x ∷ xs)) same ((λ _. refl), others-IsTarget x xs d.0)
  | inr later ↦ (
    λ h. absurd ((find-All (Distinct x) p xs r later d.0).ids (==→eq x.id r.id h)),
    find_unique p xs r later d.1,
  )
]

none_left :
    (p : Reservation → Bool) (rows : List Reservation)
    → All (λ r. p r ≡ false) rows
    → count_where p rows ≡ 0
none_left p [] h = refl
none_left p (r ∷ rows) h = rw h.0 (omega (arith, none_left p rows h.1))

-- A query that no two distinct rows meet finds one row at most.
pub count_unique :
    (p : Reservation → Bool) (rows : List Reservation)
    → ((r s : Reservation) → p r ≡ true → Distinct r s → p s ≡ false)
    → Pairwise Distinct rows
    → count_where p rows ≤ 1
count_unique p [] apart d = omega arith
count_unique p (r ∷ rows) apart d = elim (Bool-cases (p r)) [
  | inr f ↦ rw f (omega (arith, count_unique p rows apart d.1))
  | inl t ↦
      (let idle : count_where p rows ≡ 0 =
          none_left p rows
            (All-map (Distinct r) (λ s. p s ≡ false) rows (λ s e. apart r s t e) d.0) in
        rw t (omega (arith, idle)))
]
