-- ===== src/Admin/Accounts/Requests.antt =====
-- blueprints/admin_routes.py: everything that an audit admin may ask of the accounts.
use linebot.Prelude.{
  ℕ, ◌<◌, ◌≡◌, refl, Bool, true, false, not, ◌&&◌, Option, none, some, Text, any, any-false→All,
  All, All-select, update_where, ◌==◌, ==→eq, arith, Bool-cases, inl, inr, if_cases,
}
use linebot.Database.Tables.{AdminAccount, Database}
use linebot.Database.Rows.{account_of}
use linebot.Invariant.{written, All-written, Pairwise-written}
use linebot.Invariant.Unique.{text_eq_sym}
use linebot.Invariant.{Pairwise-select}
use linebot.Admin.Reservations.{Response}
use linebot.Admin.Accounts.{
  has_id, is_last_audit, is_referred, set_active, delete_account, toggle_found, delete_found,
  admin_accounts_toggle_active, admin_accounts_delete,
}
use linebot.Admin.Accounts.Input.{normalize_login_id, is_login_id}
use linebot.Admin.Accounts.Create.{
  AccountForm, admin_accounts_create, other_has_login_id, update_login_id,
  admin_accounts_update_login_id,
}
use linebot.Admin.Accounts.Unique.{
  ApartAccounts, IsLoginId, AccountsConsistent, KeepsAccounts,
  admin_accounts_create-AccountsConsistent,
}

-- The requests that change the accounts.
pub data AccountEdit : Type 0 where
  make : AccountForm → AccountEdit
  rename : ℕ → Text → AccountEdit
  toggle remove : ℕ → AccountEdit

unfoldable pub run_account :
    (Text → Text) → (Database → Database) → Option ℕ → AccountEdit → Database → Response × Database
unfolding admin_accounts_create admin_accounts_update_login_id admin_accounts_toggle_active
    admin_accounts_delete
run_account gen meanwhile auditor (make form) db =
    admin_accounts_create gen meanwhile auditor form db
run_account gen meanwhile auditor (rename id raw) db =
    admin_accounts_update_login_id auditor id raw db
run_account gen meanwhile auditor (toggle id) db = admin_accounts_toggle_active auditor id db
run_account gen meanwhile auditor (remove id) db = admin_accounts_delete auditor id db

renamed-apart :
    (id : ℕ) (login_id : Text) (a b : AdminAccount)
    → other_has_login_id id login_id a ≡ false
    → other_has_login_id id login_id b ≡ false
    → ApartAccounts a b
    → ApartAccounts
        (written (λ x. x.id == id) (λ x. record x { login_id = login_id }) a)
        (written (λ x. x.id == id) (λ x. record x { login_id = login_id }) b)
renamed-apart id login_id a b fa fb h = elim (Bool-cases (a.id == id)) [
  | inl s ↦ elim (Bool-cases (b.id == id)) [
    | inl t ↦ absurd (h.0 (omega (arith, ==→eq a.id id s, ==→eq b.id id t)))
    | inr t ↦ rw (s, t) (h.0, rw (text_eq_sym login_id b.login_id) (ground (arith, t)))
  ]
  | inr s ↦ elim (Bool-cases (b.id == id)) [
    | inl t ↦ rw (s, t) (h.0, ground (arith, s))
    | inr t ↦ rw (s, t) h
  ]
]

update_login_id-Keeps :
    (id : ℕ) (login_id : Text) (db : Database)
    → is_login_id login_id ≡ true
    → AccountsConsistent db
    → KeepsAccounts (update_login_id id login_id db)
update_login_id-Keeps id login_id db named c =
    if_cases KeepsAccounts (has_id id db && any (other_has_login_id id login_id) db.admin_accounts)
      _ _ (λ _. c)
      (λ free.
        if_cases KeepsAccounts (not (has_id id db)) _ _ (λ _. c)
          (λ there.
            renamed
              (any-false→All (other_has_login_id id login_id) db.admin_accounts (ground arith))))
  where
    renamed :
        All (λ a. other_has_login_id id login_id a ≡ false) db.admin_accounts
        → AccountsConsistent (record db {
          admin_accounts =
              update_where
                (λ a. a.id == id)
                (λ a. record a { login_id = login_id })
                db.admin_accounts;
        })
    renamed free = record {
      apart =
          Pairwise-written (λ a. other_has_login_id id login_id a ≡ false) (λ a. a.id == id)
            (λ a. record a { login_id = login_id }) ApartAccounts db.admin_accounts free
            (renamed-apart id login_id) c.apart;
      below =
          All-written (λ a. other_has_login_id id login_id a ≡ false) (λ a. a.id == id)
            (λ a. record a { login_id = login_id }) (λ a. a.id < db.next_account_id)
            (λ a. a.id < db.next_account_id) db.admin_accounts free (λ a _ h. ground arith) c.below;
      named =
          All-written (λ a. other_has_login_id id login_id a ≡ false) (λ a. a.id == id)
            (λ a. record a { login_id = login_id }) IsLoginId IsLoginId db.admin_accounts free
            (λ a _ h. ground (arith, named)) c.named;
    }

admin_accounts_update_login_id-AccountsConsistent :
    (auditor : Option ℕ) (id : ℕ) (raw : Text) (db : Database)
    → AccountsConsistent db
    → AccountsConsistent (admin_accounts_update_login_id auditor id raw db).1
unfolding admin_accounts_update_login_id
admin_accounts_update_login_id-AccountsConsistent none id raw db c = c
admin_accounts_update_login_id-AccountsConsistent (some auditor) id raw db c =
    if_cases KeepsAccounts (is_login_id (normalize_login_id raw)) _ _
      (λ named. update_login_id-Keeps id (normalize_login_id raw) db named c) (λ _. c)

set_active-Keeps :
    (id : ℕ) (active : Bool) (db : Database)
    → AccountsConsistent db
    → AccountsConsistent (set_active id active db)
set_active-Keeps id active db c = record {
  apart =
      Pairwise-written IsLoginId (λ a. a.id == id) (λ a. record a { active = active }) ApartAccounts
        db.admin_accounts c.named
        (λ a b _ _ h. (rw (kept_id a, kept_id b) h.0, rw (kept_name a, kept_name b) h.1)) c.apart;
  below =
      All-written IsLoginId (λ a. a.id == id) (λ a. record a { active = active })
        (λ a. a.id < db.next_account_id) (λ a. a.id < db.next_account_id) db.admin_accounts c.named
        (λ a _ h. rw (kept_id a) h) c.below;
  named =
      All-written IsLoginId (λ a. a.id == id) (λ a. record a { active = active }) IsLoginId
        IsLoginId db.admin_accounts c.named (λ a _ h. rw (kept_name a) h) c.named;
}
  where
    kept_id :
        (a : AdminAccount)
        → (written (λ a. a.id == id) (λ a. record a { active = active }) a).id ≡ a.id
    kept_id a = ground arith

    kept_name :
        (a : AdminAccount)
        → (written (λ a. a.id == id) (λ a. record a { active = active }) a).login_id ≡ a.login_id
    kept_name a = elim (Bool-cases (a.id == id)) [ inl t ↦ rw t refl | inr t ↦ rw t refl ]

toggle_found-Keeps :
    (id : ℕ) (o : Option AdminAccount) (db : Database)
    → AccountsConsistent db
    → KeepsAccounts (toggle_found id o db)
toggle_found-Keeps id none db c = c
toggle_found-Keeps id (some a) db c =
    if_cases KeepsAccounts (a.active && is_last_audit a db) _ _ (λ _. c)
      (λ _.
        if_cases KeepsAccounts (has_id id db) _ _ (λ _. set_active-Keeps id (not a.active) db c)
          (λ _. c))

delete_found-Keeps :
    (id : ℕ) (o : Option AdminAccount) (db : Database)
    → AccountsConsistent db
    → KeepsAccounts (delete_found id o db)
delete_found-Keeps id none db c = c
delete_found-Keeps id (some a) db c =
    if_cases KeepsAccounts (is_last_audit a db) _ _ (λ _. c)
      (λ _.
        if_cases KeepsAccounts (is_referred id db) _ _ (λ _. c)
          (λ _. if_cases KeepsAccounts (has_id id db) _ _ (λ _. deleted) (λ _. c)))
  where
    deleted : AccountsConsistent (delete_account id db)
    deleted = record {
      apart = Pairwise-select (λ a. not (a.id == id)) ApartAccounts db.admin_accounts c.apart;
      below =
          All-select (λ a. a.id < db.next_account_id) (λ a. not (a.id == id)) db.admin_accounts
            c.below;
      named = All-select IsLoginId (λ a. not (a.id == id)) db.admin_accounts c.named;
    }

-- Whatever an audit admin asks of the accounts, ids and login ids stay unique, ids stay below the next one and
-- every login id keeps to the pattern, as long as what others commit in between keeps that.
pub run_account-AccountsConsistent :
    (gen : Text → Text) (meanwhile : Database → Database) (auditor : Option ℕ) (edit : AccountEdit)
    (db : Database)
    → AccountsConsistent db
    → AccountsConsistent (meanwhile db)
    → AccountsConsistent (run_account gen meanwhile auditor edit db).1
unfolding run_account admin_accounts_toggle_active admin_accounts_delete
run_account-AccountsConsistent gen meanwhile auditor (make form) db c m =
    admin_accounts_create-AccountsConsistent gen meanwhile auditor form db c m
run_account-AccountsConsistent gen meanwhile auditor (rename id raw) db c m =
    admin_accounts_update_login_id-AccountsConsistent auditor id raw db c
run_account-AccountsConsistent gen meanwhile none (toggle id) db c m = c
run_account-AccountsConsistent gen meanwhile (some auditor) (toggle id) db c m =
    if_cases KeepsAccounts (auditor == id) _ _ (λ _. c)
      (λ _. toggle_found-Keeps id (account_of db id) db c)
run_account-AccountsConsistent gen meanwhile none (remove id) db c m = c
run_account-AccountsConsistent gen meanwhile (some auditor) (remove id) db c m =
    if_cases KeepsAccounts (auditor == id) _ _ (λ _. c)
      (λ _. delete_found-Keeps id (account_of db id) db c)
