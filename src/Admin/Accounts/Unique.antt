-- ===== src/Admin/Accounts/Unique.antt =====
-- The well-formedness of the accounts: their keys (`ensure_admin_accounts_table`) and the form of a login id.
use linebot.Prelude.{
  ℕ, suc, ◌<◌, ◌≡◌, ◌≢◌, true, false, not, Option, none, some, List, [], ◌∷◌, Text, text_eq, any,
  any-false→All, All, All-append, All-map, All-zip, length, ltb, arith, if_cases, ◌≤◌,
}
use linebot.Database.Tables.{AdminAccount, Database}
use linebot.Invariant.{Pairwise}
use linebot.Invariant.Reserve.{Pairwise-append}
use linebot.Admin.Reservations.{Response}
use linebot.Admin.Accounts.Input.{
  normalize_login_id, is_login_id, bulk_lines, NewAccount, Parsed, refused, accounts, parse_lines,
}
use linebot.Admin.Accounts.Create.{
  new_account, has_login_id, add_account, skip_account_id, insert_one, create_one, insert_all,
  inserted, insert_checked, create_parsed, create_lines, AccountForm, admin_accounts_create,
  first_existing,
}
use linebot.Admin.Accounts.Named.{NamedNew, NamedParsed, parse_lines-NamedParsed}

abbrev pub ApartAccounts : AdminAccount → AdminAccount → Type 0
ApartAccounts a b = (a.id ≢ b.id) × (text_eq a.login_id b.login_id ≡ false)

abbrev pub IsLoginId : AdminAccount → Type 0
IsLoginId a = is_login_id a.login_id ≡ true

pub record AccountsConsistent (db : Database) : Type 0 where
  pub apart : Pairwise ApartAccounts db.admin_accounts
  pub below : All (λ a. a.id < db.next_account_id) db.admin_accounts
  pub named : All IsLoginId db.admin_accounts

abbrev pub KeepsAccounts : Response × Database → Type 0
KeepsAccounts r = AccountsConsistent r.1

skip-AccountsConsistent :
    (db : Database) → AccountsConsistent db → AccountsConsistent (skip_account_id db)
skip-AccountsConsistent db c = record {
  apart = c.apart;
  below =
      All-map (λ a. a.id < db.next_account_id) (λ a. a.id < suc db.next_account_id)
        db.admin_accounts (λ a h. omega arith) c.below;
  named = c.named;
}

add-AccountsConsistent :
    (login_id hash : Text) (db : Database)
    → is_login_id login_id ≡ true
    → any (has_login_id login_id) db.admin_accounts ≡ false
    → AccountsConsistent db
    → AccountsConsistent (add_account login_id hash db)
add-AccountsConsistent login_id hash db named free c =
    let new = new_account db.next_account_id login_id hash in
    record {
      apart = Pairwise-append ApartAccounts db.admin_accounts new c.apart (
          All-zip (λ a. a.id < db.next_account_id) (λ a. has_login_id login_id a ≡ false)
            (λ a. ApartAccounts a new) db.admin_accounts (λ a low other. (λ e. omega arith, other))
            c.below (any-false→All (has_login_id login_id) db.admin_accounts free));
      below =
          All-append (λ a. a.id < suc db.next_account_id) db.admin_accounts (new ∷ [])
            (skip-AccountsConsistent db c).below (omega arith, tt);
      named = All-append IsLoginId db.admin_accounts (new ∷ []) c.named (named, tt);
    }

insert_one-Keeps :
    (gen : Text → Text) (login_id password : Text) (db : Database)
    → is_login_id login_id ≡ true
    → AccountsConsistent db
    → KeepsAccounts (insert_one gen login_id password db)
insert_one-Keeps gen login_id password db named c =
    if_cases KeepsAccounts (any (has_login_id login_id) db.admin_accounts) _ _
      (λ _. skip-AccountsConsistent db c)
      (λ free. add-AccountsConsistent login_id (gen password) db named free c)

create_one-Keeps :
    (gen : Text → Text) (raw password : Text) (db : Database)
    → AccountsConsistent db
    → KeepsAccounts (create_one gen raw password db)
unfolding create_one
create_one-Keeps gen raw password db c =
    if_cases KeepsAccounts (not (is_login_id (normalize_login_id raw))) _ _ (λ _. c)
      (λ named.
        if_cases KeepsAccounts (ltb (length password) 8) _ _ (λ _. c)
          (λ _. insert_one-Keeps gen (normalize_login_id raw) password db (ground arith) c))

-- After INSERTs that end in a rollback, the accounts are those of `base`.
rolled-AccountsConsistent :
    (base db : Database)
    → base.next_account_id ≤ db.next_account_id
    → AccountsConsistent base
    → AccountsConsistent (record db { admin_accounts = base.admin_accounts })
rolled-AccountsConsistent base db later c = record {
  apart = c.apart;
  below =
      All-map (λ a. a.id < base.next_account_id) (λ a. a.id < db.next_account_id)
        base.admin_accounts (λ a h. omega arith) c.below;
  named = c.named;
}

insert_all-Keeps :
    (gen : Text → Text) (number : ℕ) (news : List NewAccount) (base db : Database)
    → All NamedNew news
    → base.next_account_id ≤ db.next_account_id
    → AccountsConsistent base
    → AccountsConsistent db
    → KeepsAccounts (inserted number base.admin_accounts (insert_all gen news db))
insert_all-Keeps gen number [] base db named later b c = c
insert_all-Keeps gen number ((login_id, password) ∷ news) base db named later b c =
    if_cases (λ r. KeepsAccounts (inserted number base.admin_accounts r))
      (any (has_login_id login_id) db.admin_accounts) _ _
      (λ _. rolled-AccountsConsistent base (skip_account_id db) (omega arith) b)
      (λ free.
        insert_all-Keeps gen number news base (add_account login_id (gen password) db) named.1
          (omega arith) b (add-AccountsConsistent login_id (gen password) db named.0 free c))

module _ (gen : Text → Text) (meanwhile : Database → Database) where
  insert_checked-Keeps :
      (news : List NewAccount) (existing : Option Text) (db : Database)
      → All NamedNew news
      → AccountsConsistent db
      → AccountsConsistent (meanwhile db)
      → KeepsAccounts (insert_checked gen meanwhile news existing db)
  insert_checked-Keeps news (some login_id) db named c m = c
  insert_checked-Keeps news none db named c m =
      insert_all-Keeps gen (length news) news (meanwhile db) (meanwhile db) named (omega arith) m m

  create_parsed-Keeps :
      (parsed : Parsed) (db : Database)
      → NamedParsed parsed
      → AccountsConsistent db
      → AccountsConsistent (meanwhile db)
      → KeepsAccounts (create_parsed gen meanwhile parsed db)
  create_parsed-Keeps (refused message) db named c m = c
  create_parsed-Keeps (accounts news) db named c m =
      insert_checked-Keeps news (first_existing db.admin_accounts news) db named c m

  create_lines-Keeps :
      (form : AccountForm) (lines : List Text) (db : Database)
      → AccountsConsistent db
      → AccountsConsistent (meanwhile db)
      → KeepsAccounts (create_lines gen meanwhile form lines db)
  create_lines-Keeps form [] db c m = create_one-Keeps gen form.login_id form.password db c
  create_lines-Keeps form (line ∷ lines) db c m =
      create_parsed-Keeps (parse_lines 1 [] (line ∷ lines)) db
        (parse_lines-NamedParsed 1 [] (line ∷ lines)) c m

  pub admin_accounts_create-AccountsConsistent :
      (auditor : Option ℕ) (form : AccountForm) (db : Database)
      → AccountsConsistent db
      → AccountsConsistent (meanwhile db)
      → AccountsConsistent (admin_accounts_create gen meanwhile auditor form db).1
  unfolding admin_accounts_create
  admin_accounts_create-AccountsConsistent none form db c m = c
  admin_accounts_create-AccountsConsistent (some auditor) form db c m =
      create_lines-Keeps form (bulk_lines form.bulk_accounts) db c m
