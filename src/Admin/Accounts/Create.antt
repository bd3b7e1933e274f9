-- ===== src/Admin/Accounts/Create.antt =====
-- blueprints/admin_routes.py: `admin_accounts_create` and `admin_accounts_update_login_id`, by which an audit
-- admin makes accounts, one or a list of them, and changes a login id. `auditor` is the account that the
-- session is authenticated as in that role, where it is.
use linebot.Prelude.{
  ℕ, suc, Bool, true, false, not, ◌&&◌, ◌||◌, Option, none, some, List, [], ◌∷◌, ◌++◌, Text, codes,
  decimal, text_eq, any, length, ltb, ◌==◌, update_where, if◌then◌else◌,
}
use linebot.Database.Tables.{Role, AdminAccount, Database}
use linebot.Admin.Reservations.{Response, redirect_login, redirect_to}
use linebot.Admin.Accounts.{logs_page, missing_account, has_id}
use linebot.Admin.Accounts.Input.{
  normalize_login_id, is_login_id, bulk_lines, NewAccount, Parsed, refused, accounts, parse_lines,
}

-- The row, with the columns' defaults.
abbrev pub new_account : ℕ → Text → Text → AdminAccount
new_account id login_id password_hash = record {
  id = id;
  login_id = login_id;
  password_hash = password_hash;
  role = Role.admin;
  active = true;
  accepting_new = true;
  auto_call_count = 0;
}

-- UNIQUE (login_id)
abbrev pub has_login_id : Text → AdminAccount → Bool
has_login_id login_id a = text_eq a.login_id login_id

abbrev pub add_account : Text → Text → Database → Database
add_account login_id password_hash db = record db {
  admin_accounts = db.admin_accounts ++ new_account db.next_account_id login_id password_hash ∷ [];
  next_account_id = suc db.next_account_id;
}

-- An INSERT that is refused has drawn an id.
abbrev pub skip_account_id : Database → Database
skip_account_id db = record db { next_account_id = suc db.next_account_id }

abbrev pub same_id_exists : Response
same_id_exists = redirect_to logs_page (codes "同じログインIDが既に存在します。")

abbrev bad_login_id : Response
bad_login_id = redirect_to logs_page (codes "ログインIDは3〜32文字の英小文字・数字・_-で入力してください。")

abbrev pub insert_one : (Text → Text) → Text → Text → Database → Response × Database
insert_one generate_password_hash login_id password db =
    if any (has_login_id login_id) db.admin_accounts
    then (same_id_exists, skip_account_id db)
    else (
      redirect_to logs_page (codes "管理者アカウント「" ++ login_id ++ codes "」を作成しました。"),
      add_account login_id (generate_password_hash password) db,
    )

unfoldable pub create_one : (Text → Text) → Text → Text → Database → Response × Database
unfolding normalize_login_id is_login_id
create_one generate_password_hash raw_login_id password db =
    let login_id = normalize_login_id raw_login_id in
    if not (is_login_id login_id)
    then (bad_login_id, db)
    else if ltb (length password) 8
    then (redirect_to logs_page (codes "パスワードは8文字以上で入力してください。"), db)
    else insert_one generate_password_hash login_id password db

-- The INSERTs of one transaction; after the one that is refused, the rollback keeps only the ids drawn.
abbrev pub insert_all : (Text → Text) → List NewAccount → Database → Bool × Database
insert_all generate_password_hash [] db = (true, db)
insert_all generate_password_hash ((login_id, password) ∷ rest) db =
    let after =
      insert_all generate_password_hash rest
        (add_account login_id (generate_password_hash password) db) in
    if any (has_login_id login_id) db.admin_accounts then (false, skip_account_id db) else after

-- The text that sorts first: sorted(texts)[0].
abbrev text_before : Text → Text → Bool
text_before [] t = true
text_before (a ∷ s) [] = false
text_before (a ∷ s) (b ∷ t) = ltb a b || ((a == b) && text_before s t)

abbrev first_of : Option Text → Text → Text
first_of none s = s
first_of (some t) s = if text_before s t then s else t

abbrev pub first_existing : List AdminAccount → List NewAccount → Option Text
first_existing rows [] = none
first_existing rows ((login_id, password) ∷ rest) =
    let later = first_existing rows rest in
    if any (has_login_id login_id) rows then some (first_of later login_id) else later

abbrev pub inserted : ℕ → List AdminAccount → Bool × Database → Response × Database
inserted number before (true, after) =
    (redirect_to logs_page (codes "管理者アカウントを" ++ decimal number ++ codes "件作成しました。"), after)
inserted number before (false, after) = (same_id_exists, record after { admin_accounts = before })

-- `meanwhile` is what other transactions commit between the SELECT and the first INSERT.
abbrev pub insert_checked :
    (Text → Text)
    → (Database → Database)
    → List NewAccount
    → Option Text
    → Database
    → Response × Database
insert_checked generate_password_hash meanwhile news (some login_id) db =
    (redirect_to logs_page (codes "ログインID「" ++ login_id ++ codes "」は既に存在します。"), db)
insert_checked generate_password_hash meanwhile news none db =
    inserted (length news) (meanwhile db).admin_accounts
      (insert_all generate_password_hash news (meanwhile db))

abbrev pub create_parsed :
    (Text → Text) → (Database → Database) → Parsed → Database → Response × Database
create_parsed generate_password_hash meanwhile (refused message) db =
    (redirect_to logs_page message, db)
create_parsed generate_password_hash meanwhile (accounts news) db =
    insert_checked generate_password_hash meanwhile news (first_existing db.admin_accounts news) db

-- The fields of the form, each the empty text where it is missing.
pub record AccountForm : Type 0 where
  pub login_id : Text
  pub password : Text
  pub bulk_accounts : Text

abbrev pub create_lines :
    (Text → Text) → (Database → Database) → AccountForm → List Text → Database → Response × Database
create_lines generate_password_hash meanwhile form [] db =
    create_one generate_password_hash form.login_id form.password db
create_lines generate_password_hash meanwhile form (line ∷ lines) db =
    create_parsed generate_password_hash meanwhile (parse_lines 1 [] (line ∷ lines)) db

unfoldable pub admin_accounts_create :
    (Text → Text) → (Database → Database) → Option ℕ → AccountForm → Database → Response × Database
unfolding create_one bulk_lines parse_lines decimal
admin_accounts_create generate_password_hash meanwhile none form db = (redirect_login, db)
admin_accounts_create generate_password_hash meanwhile (some auditor) form db =
    create_lines generate_password_hash meanwhile form (bulk_lines form.bulk_accounts) db

abbrev pub other_has_login_id : ℕ → Text → AdminAccount → Bool
other_has_login_id id login_id a = not (a.id == id) && has_login_id login_id a

abbrev pub update_login_id : ℕ → Text → Database → Response × Database
update_login_id id login_id db =
    if has_id id db && any (other_has_login_id id login_id) db.admin_accounts
    then (same_id_exists, db)
    else if not (has_id id db)
    then (missing_account, db)
    else (
      redirect_to logs_page (codes "ログインIDを「" ++ login_id ++ codes "」に更新しました。"),
      record db {
        admin_accounts =
            update_where (λ a. a.id == id) (λ a. record a { login_id = login_id })
              db.admin_accounts;
      },
    )

unfoldable pub admin_accounts_update_login_id : Option ℕ → ℕ → Text → Database → Response × Database
unfolding normalize_login_id is_login_id
admin_accounts_update_login_id none id raw db = (redirect_login, db)
admin_accounts_update_login_id (some auditor) id raw db =
    if is_login_id (normalize_login_id raw)
    then update_login_id id (normalize_login_id raw) db
    else (bad_login_id, db)
