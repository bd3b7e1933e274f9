-- ===== src/Admin/Accounts/Inactive.antt =====
-- Whom the guard for the last audit admin stops.
use linebot.Prelude.{
  ℕ, ◌≤◌, ◌≡◌, refl, Bool, true, false, ◌&&◌, some, List, [], ◌∷◌, arith, find_where, count_where,
  leb→le, ◌==◌, Bool-cases, inl, inr, and-true,
}
use mathlib.Core.Option.{some-injective}
use linebot.Database.Tables.{Role, AdminAccount, Database, role_eq}
use linebot.Database.Rows.{account_of}
use linebot.Admin.Accounts.{get_active_admin_count, is_last_audit}

module _ (p : AdminAccount → Bool) where
  count-found :
      (i : ℕ) (rows : List AdminAccount) (a : AdminAccount)
      → find_where (λ x. x.id == i) rows ≡ some a
      → p a ≡ true
      → 1 ≤ count_where p rows
  count-found i [] a e h = cc
  count-found i (x ∷ rows) a e h = elim (Bool-cases (x.id == i)) [
    | inl t ↦
        (let same : p x ≡ true = rw (some-injective _ _ (rw t at e)) h in rw same (omega arith))
    | inr f ↦ omega (arith, count-found i rows a (rw f at e) h)
  ]

  -- Two accounts that two ids find, and that the query counts, are counted twice.
  count-both :
      (i j : ℕ) (rows : List AdminAccount) (a b : AdminAccount)
      → (i == j) ≡ false
      → find_where (λ x. x.id == i) rows ≡ some a
      → find_where (λ x. x.id == j) rows ≡ some b
      → p a ≡ true
      → p b ≡ true
      → 2 ≤ count_where p rows
  count-both i j [] a b other e k ha hb = cc
  count-both i j (x ∷ rows) a b other e k ha hb = elim (Bool-cases (x.id == i)) [
    | inl t ↦
        (let apart : (x.id == j) ≡ false = differs t in
          let same : p x ≡ true = rw (some-injective _ _ (rw t at e)) ha in
          rw same (omega (arith, count-found j rows b (rw apart at k) hb)))
    | inr f ↦ elim (Bool-cases (x.id == j)) [
      | inl t ↦
          (let same : p x ≡ true = rw (some-injective _ _ (rw t at k)) hb in
            rw same (omega (arith, count-found i rows a (rw f at e) ha)))
      | inr g ↦ omega (arith, count-both i j rows a b other (rw f at e) (rw g at k) ha hb)
    ]
  ]
    where
      differs : (x.id == i) ≡ true → (x.id == j) ≡ false
      differs t = ground arith

-- When an active audit admin acts on another account, the guard for the last audit admin stops only an
-- account that is not active: the count includes the one who acts, and the other if that is active.
pub is_last_audit-inactive :
    (i id : ℕ) (db : Database) (actor a : AdminAccount)
    → (i == id) ≡ false
    → account_of db i ≡ some actor
    → (role_eq actor.role Role.audit_admin && actor.active) ≡ true
    → account_of db id ≡ some a
    → is_last_audit a db ≡ true
    → a.active ≡ false
unfolding account_of get_active_admin_count
is_last_audit-inactive i id db actor a other e acting k last =
    let (audit, few) = and-true (role_eq a.role Role.audit_admin) _ last in
    elim (Bool-cases a.active) [
      | inr f ↦ f
      | inl t ↦ absurd (
          omega (
            arith,
            leb→le
                (count_where (λ x. role_eq x.role Role.audit_admin && x.active) db.admin_accounts) 1
                few,
            count-both (λ x. role_eq x.role Role.audit_admin && x.active) i id db.admin_accounts
                actor a other e k acting (both audit t),
          ))
    ]
  where
    both :
        role_eq a.role Role.audit_admin ≡ true
        → a.active ≡ true
        → (role_eq a.role Role.audit_admin && a.active) ≡ true
    both h t = rw (h, t) refl
