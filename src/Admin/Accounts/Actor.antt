-- ===== src/Admin/Accounts/Actor.antt =====
-- The audit admin who acts cannot lose the own account.
use linebot.Prelude.{
  ℕ, ◌≡◌, refl, Bool, true, false, not, ◌&&◌, Option, none, some, List, [], ◌∷◌, arith, find_where,
  select_where, update_where, ◌==◌, Bool-cases, inl, inr,
}
use linebot.Database.Tables.{AdminAccount, Database}
use linebot.Database.Rows.{account_of}
use linebot.Admin.Accounts.{
  is_last_audit, has_id, toggle_found, admin_accounts_toggle_active, is_referred, delete_found,
  admin_accounts_delete, set_active, delete_account,
}

module _ (i id : ℕ) (other : (i == id) ≡ false) where
  find-update :
      (active : Bool) (rows : List AdminAccount)
      → find_where
          (λ a. a.id == i)
          (update_where (λ a. a.id == id) (λ a. record a { active = active }) rows)
        ≡ find_where (λ a. a.id == i) rows
  find-update active [] = refl
  find-update active (a ∷ rows) = elim (Bool-cases (a.id == id)) [
    | inr f ↦ rw (f, find-update active rows) refl
    | inl t ↦
        (let apart : (a.id == i) ≡ false = differs t in rw (t, apart) (find-update active rows))
  ]
    where
      differs : (a.id == id) ≡ true → (a.id == i) ≡ false
      differs t = ground arith

  find-select :
      (rows : List AdminAccount)
      → find_where (λ a. a.id == i) (select_where (λ a. not (a.id == id)) rows)
        ≡ find_where (λ a. a.id == i) rows
  find-select [] = refl
  find-select (a ∷ rows) = ground (arith, find-select rows)

account_of-update :
    (i id : ℕ) (active : Bool) (db : Database)
    → (i == id) ≡ false
    → account_of (set_active id active db) i ≡ account_of db i
unfolding account_of
account_of-update i id active db other = find-update i id other active db.admin_accounts

account_of-delete :
    (i id : ℕ) (db : Database)
    → (i == id) ≡ false
    → account_of (delete_account id db) i ≡ account_of db i
unfolding account_of
account_of-delete i id db other = find-select i id other db.admin_accounts

toggled :
    (i id : ℕ) (o : Option AdminAccount) (db : Database)
    → (i == id) ≡ false
    → account_of (toggle_found id o db).1 i ≡ account_of db i
toggled i id none db other = refl
toggled i id (some a) db other = elim (Bool-cases (a.active && is_last_audit a db)) [
  | inl t ↦ rw t refl
  | inr f ↦ elim (Bool-cases (has_id id db)) [
    | inl t ↦ rw (f, t) (account_of-update i id (not a.active) db other)
    | inr g ↦ rw (f, g) refl
  ]
]

deleted :
    (i id : ℕ) (o : Option AdminAccount) (db : Database)
    → (i == id) ≡ false
    → account_of (delete_found id o db).1 i ≡ account_of db i
deleted i id none db other = refl
deleted i id (some a) db other = elim (Bool-cases (is_last_audit a db)) [
  | inl t ↦ rw t refl
  | inr f ↦ elim (Bool-cases (is_referred id db)) [
    | inl t ↦ rw (f, t) refl
    | inr g ↦ elim (Bool-cases (has_id id db)) [
      | inl t ↦ rw (f, g, t) (account_of-delete i id db other)
      | inr h ↦ rw (f, g, h) refl
    ]
  ]
]

-- Whatever account an audit admin toggles or deletes, the own account is exactly as before.
pub admin_accounts_actor :
    (i id : ℕ) (db : Database)
    → (account_of (admin_accounts_toggle_active (some i) id db).1 i ≡ account_of db i)
      × (account_of (admin_accounts_delete (some i) id db).1 i ≡ account_of db i)
unfolding admin_accounts_toggle_active admin_accounts_delete
admin_accounts_actor i id db = elim (Bool-cases (i == id)) [
  | inl t ↦ rw t (refl, refl)
  | inr other ↦
      rw other (toggled i id (account_of db id) db other, deleted i id (account_of db id) db other)
]
