-- ===== src/Prelude/Lists.antt =====
-- Lists over the native numbers: the queries and updates that the SQL statements are written with.
use Prim.Native.Nat.{ℕ, zero, suc, ◌+◌}
use mathlib.Core.Path.{◌≡◌, refl, ap}
use mathlib.Core.Bool.{Bool, true, false, ◌||◌, not}
use mathlib.Core.Option.{Option, none, some}
use mathlib.Core.List.{List, [], ◌∷◌, ◌++◌, map}
use native.Mathlib.Omega.{arith}
use mathlib.Core.Logic.{inl, inr}
use linebot.Prelude.Tests.{leb, if◌then◌else◌, Bool-cases}

-- A predicate by recursion, which the tactics read as a tuple.
abbrev pub All {ℓ κ} : {A : Type ℓ} → (A → Type κ) → List A → Type κ
All P [] = Unit
All P (x ∷ xs) = P x × All P xs

module _ {ℓ} {A : Type ℓ} where
  abbrev pub length : List A → ℕ
  length [] = 0
  length (x ∷ xs) = suc (length xs)

  abbrev pub take : ℕ → List A → List A
  take zero xs = []
  take (suc n) [] = []
  take (suc n) (x ∷ xs) = x ∷ take n xs

  abbrev pub drop : ℕ → List A → List A
  drop zero xs = xs
  drop (suc n) [] = []
  drop (suc n) (x ∷ xs) = drop n xs

  -- SELECT ... WHERE p
  abbrev pub select_where : (A → Bool) → List A → List A
  select_where p [] = []
  select_where p (x ∷ xs) = let rest = select_where p xs in if p x then x ∷ rest else rest

  -- SELECT COUNT(*) ... WHERE p
  abbrev pub count_where : (A → Bool) → List A → ℕ
  count_where p [] = 0
  count_where p (x ∷ xs) = (if p x then 1 else 0) + count_where p xs

  -- SELECT EXISTS (... WHERE p)
  abbrev pub any : (A → Bool) → List A → Bool
  any p [] = false
  any p (x ∷ xs) = p x || any p xs

  -- SELECT ... WHERE p LIMIT 1
  abbrev pub find_where : (A → Bool) → List A → Option A
  find_where p [] = none
  find_where p (x ∷ xs) = let rest = find_where p xs in if p x then some x else rest

  -- UPDATE ... SET f WHERE p
  abbrev pub update_where : (A → Bool) → (A → A) → List A → List A
  update_where p f [] = []
  update_where p f (x ∷ xs) = (if p x then f x else x) ∷ update_where p f xs

  -- ORDER BY key ASC, by insertion
  abbrev pub insert_by : (A → ℕ) → A → List A → List A
  insert_by key x [] = x ∷ []
  insert_by key x (y ∷ ys) =
      let rest = insert_by key x ys in if leb (key x) (key y) then x ∷ y ∷ ys else y ∷ rest

  unfoldable pub order_by : (A → ℕ) → List A → List A
  order_by key [] = []
  order_by key (x ∷ xs) = insert_by key x (order_by key xs)

  pub length-append : (xs ys : List A) → length (xs ++ ys) ≡ length xs + length ys
  length-append [] ys = omega arith
  length-append (x ∷ xs) ys = omega (arith, length-append xs ys)

  pub count_where-select :
      (p : A → Bool) (xs : List A) → length (select_where p xs) ≡ count_where p xs
  count_where-select p [] = refl
  count_where-select p (x ∷ xs) = ground (arith, count_where-select p xs)

  pub count_where-append :
      (p : A → Bool) (xs ys : List A)
      → count_where p (xs ++ ys) ≡ count_where p xs + count_where p ys
  count_where-append p [] ys = omega arith
  count_where-append p (x ∷ xs) ys = omega (arith, count_where-append p xs ys)

  pub All-append {κ} : (P : A → Type κ) (xs ys : List A) → All P xs → All P ys → All P (xs ++ ys)
  All-append P [] ys hx hy = hy
  All-append P (x ∷ xs) ys hx hy = (hx.0, All-append P xs ys hx.1 hy)

  pub All-map {κ} : (P Q : A → Type κ) (xs : List A) → ((x : A) → P x → Q x) → All P xs → All Q xs
  All-map P Q [] f h = tt
  All-map P Q (x ∷ xs) f h = (f x h.0, All-map P Q xs f h.1)

  -- An update keeps what each of its writes keeps.
  pub All-update {κ} :
      (P : A → Type κ) (p : A → Bool) (f : A → A) (xs : List A)
      → ((x : A) → p x ≡ true → P x → P (f x))
      → All P xs
      → All P (update_where p f xs)
  All-update P p f [] keep h = tt
  All-update P p f (x ∷ xs) keep h = (go (p x) (keep x), All-update P p f xs keep h.1)
    where
      go : (b : Bool) → (b ≡ true → P x → P (f x)) → P (if b then f x else x)
      go true k = k refl h.0
      go false k = h.0

  pub any-false→All : (q : A → Bool) (xs : List A) → any q xs ≡ false → All (λ x. q x ≡ false) xs
  any-false→All q [] h = tt
  any-false→All q (x ∷ xs) h = (ground arith, any-false→All q xs (ground arith))

  pub All-zip {κ μ ν} :
      (P : A → Type κ) (Q : A → Type μ) (R : A → Type ν) (xs : List A)
      → ((x : A) → P x → Q x → R x)
      → All P xs
      → All Q xs
      → All R xs
  All-zip P Q R [] f h k = tt
  All-zip P Q R (x ∷ xs) f h k = (f x h.0 k.0, All-zip P Q R xs f h.1 k.1)

  pub any-append : (q : A → Bool) (xs ys : List A) → any q (xs ++ ys) ≡ (any q xs || any q ys)
  any-append q [] ys = refl
  any-append q (x ∷ xs) ys = ground (arith, any-append q xs ys)

  pub All→any-false : (q : A → Bool) (xs : List A) → All (λ x. q x ≡ false) xs → any q xs ≡ false
  All→any-false q [] h = refl
  All→any-false q (x ∷ xs) h = rw h.0 (All→any-false q xs h.1)

  pub All-select {κ} :
      (P : A → Type κ) (p : A → Bool) (xs : List A) → All P xs → All P (select_where p xs)
  All-select P p [] h = tt
  All-select P p (x ∷ xs) h = elim (Bool-cases (p x)) [
    | inl t ↦ rw t (h.0, All-select P p xs h.1)
    | inr f ↦ rw f (All-select P p xs h.1)
  ]

  -- A row that a DELETE does not meet stays.
  pub any-select :
      (q p : A → Bool) (xs : List A)
      → ((x : A) → q x ≡ true → p x ≡ true)
      → any q xs ≡ true
      → any q (select_where p xs) ≡ true
  any-select q p [] keep h = h
  any-select q p (x ∷ xs) keep h = ground (arith, keep x, any-select q p xs keep)

  -- An UPDATE changes no query that its writes do not change.
  pub any-update :
      (q p : A → Bool) (f : A → A) (xs : List A)
      → ((x : A) → q (f x) ≡ q x)
      → any q (update_where p f xs) ≡ any q xs
  any-update q p f [] keep = refl
  any-update q p f (x ∷ xs) keep = ground (arith, keep x, any-update q p f xs keep)

  -- A query does not see a new row that it does not meet.
  pub select_where-append :
      (p : A → Bool) (xs : List A) (y : A)
      → p y ≡ false
      → select_where p (xs ++ y ∷ []) ≡ select_where p xs
  select_where-append p [] y out = rw out refl
  select_where-append p (x ∷ xs) y out = elim (Bool-cases (p x)) [
    | inl t ↦ rw (t, select_where-append p xs y out) refl
    | inr f ↦ rw (f, select_where-append p xs y out) refl
  ]

  pub select_where-select :
      (p : A → Bool) (xs : List A) → select_where p (select_where p xs) ≡ select_where p xs
  select_where-select p [] = refl
  select_where-select p (x ∷ xs) = elim (Bool-cases (p x)) [
    | inl t ↦ rw t (rw (t, select_where-select p xs) refl)
    | inr f ↦ rw f (select_where-select p xs)
  ]

  pub any-or : (q r : A → Bool) (xs : List A) → any (λ x. q x || r x) xs ≡ (any q xs || any r xs)
  any-or q r [] = refl
  any-or q r (x ∷ xs) = ground (arith, any-or q r xs)

  -- A query finds what it finds among the rows that another meets and those that it does not.
  pub any-split :
      (q p : A → Bool) (xs : List A)
      → any q xs ≡ (any q (select_where p xs) || any q (select_where (λ x. not (p x)) xs))
  any-split q p [] = refl
  any-split q p (x ∷ xs) = ground (arith, any-split q p xs)

pub length-map {ℓ κ} :
    {A : Type ℓ} {B : Type κ} (f : A → B) (xs : List A) → length (map f xs) ≡ length xs
length-map f [] = refl
length-map f (x ∷ xs) = ap suc (length-map f xs)
