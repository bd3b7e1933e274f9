-- ===== src/Auth/Login/Created.antt =====
-- An account that an audit admin made can log in.
use linebot.Prelude.{
  ℕ, ◌≤◌, ◌≡◌, refl, Bool, true, false, some, List, [], ◌∷◌, ◌++◌, Text, text_eq, text_eq_refl,
  is_empty, is_space, strip, lstrip, reverse, any, find_where, length, ltb, arith,
}
use mathlib.Core.List.{reverse-reverse, reverse-cons}
use linebot.Config.{Config}
use linebot.Database.Tables.{Role, AdminAccount, Database}
use linebot.Database.RateLimit.{is_login_rate_limited}
use linebot.Admin.Accounts.Input.{
  lower_char, lower, normalize_login_id, is_id_char, all_id_chars, is_login_id, bulk_lines,
}
use linebot.Admin.Accounts.Create.{
  new_account, has_login_id, add_account, create_one, AccountForm, admin_accounts_create,
}
use linebot.Auth.Session.{Session, start_admin_session}
use linebot.Auth.Login.{LoginRequest, alone, login, may_log_in, authenticate_admin_account}

id_char-plain : (c : ℕ) → is_id_char c ≡ true → (is_space c ≡ false) × (lower_char c ≡ c)
unfolding is_space
id_char-plain c h = (ground arith, ground arith)

all_id_chars-append :
    (s t : Text) → all_id_chars s ≡ true → all_id_chars t ≡ true → all_id_chars (s ++ t) ≡ true
all_id_chars-append [] t h k = k
all_id_chars-append (c ∷ s) t h k = ground (arith, all_id_chars-append s t)

all_id_chars-reverse : (s : Text) → all_id_chars s ≡ true → all_id_chars (reverse s) ≡ true
all_id_chars-reverse [] h = refl
all_id_chars-reverse (c ∷ s) h = rw (reverse-cons c s) (
    all_id_chars-append (reverse s) (c ∷ []) (all_id_chars-reverse s (ground arith)) (ground arith))

lstrip-id : (s : Text) → all_id_chars s ≡ true → lstrip s ≡ s
lstrip-id [] h = refl
lstrip-id (c ∷ s) h = ground (arith, id_char-plain c)

strip-id : (s : Text) → all_id_chars s ≡ true → strip s ≡ s
unfolding strip
strip-id s h =
    rw (lstrip-id s h, lstrip-id (reverse s) (all_id_chars-reverse s h)) (reverse-reverse s)

lower-id : (s : Text) → all_id_chars s ≡ true → lower s ≡ s
lower-id [] h = refl
lower-id (c ∷ s) h = rw ((id_char-plain c (ground arith)).1, lower-id s (ground arith)) refl

all_id_chars-login_id : (s : Text) → is_login_id s ≡ true → all_id_chars s ≡ true
unfolding is_login_id
all_id_chars-login_id [] h = refl
all_id_chars-login_id (c ∷ s) h = ground arith

is_empty-login_id : (s : Text) → is_login_id s ≡ true → is_empty s ≡ false
unfolding is_login_id
is_empty-login_id [] h = cc
is_empty-login_id (c ∷ s) h = refl

-- A login id is read as it is written.
pub normalize_login_id_fixed : (s : Text) → is_login_id s ≡ true → normalize_login_id s ≡ s
unfolding normalize_login_id
normalize_login_id_fixed s h =
    let plain = all_id_chars-login_id s h in rw (strip-id s plain) (lower-id s plain)

find-created :
    (login_id : Text) (new : AdminAccount) (rows : List AdminAccount)
    → any (has_login_id login_id) rows ≡ false
    → may_log_in login_id new ≡ true
    → find_where (may_log_in login_id) (rows ++ new ∷ []) ≡ some new
find-created login_id new [] free active = rw active refl
find-created login_id new (a ∷ rows) free active =
    let others : text_eq a.login_id login_id ≡ false = ground arith in
    rw (others, find-created login_id new rows (ground arith) active) refl

create_one-new :
    (gen : Text → Text) (raw password : Text) (db : Database)
    → is_login_id (normalize_login_id raw) ≡ true
    → 8 ≤ length password
    → any (has_login_id (normalize_login_id raw)) db.admin_accounts ≡ false
    → (create_one gen raw password db).1 ≡ add_account (normalize_login_id raw) (gen password) db
unfolding create_one
create_one-new gen raw password db good long free =
    let enough : ltb (length password) 8 ≡ false = ground arith in rw (good, enough, free) refl

authenticate-new :
    (gen : Text → Text) (check : Text → Text → Bool)
    → ((p : Text) → check (gen p) p ≡ true)
    → (login_id password : Text) (db : Database) → is_login_id login_id ≡ true
    → 8 ≤ length password
    → any (has_login_id login_id) db.admin_accounts ≡ false
    → authenticate_admin_account check login_id password (add_account login_id (gen password) db)
      ≡ some (new_account db.next_account_id login_id (gen password))
unfolding authenticate_admin_account
authenticate-new gen check law login_id [] db good long free = absurd (omega arith)
authenticate-new gen check law login_id (c ∷ cs) db good long free =
    let new = new_account db.next_account_id login_id (gen (c ∷ cs)) in
    let found =
      find-created login_id new db.admin_accounts free (rw (text_eq_refl login_id) refl) in
    rw
      (normalize_login_id_fixed login_id good, is_empty-login_id login_id good, found, law (c ∷ cs))
      refl

-- An account that was made by the form logs in with the login id and the password of the form, as they were
-- typed, wherever the address may try and while no other transaction commits during the login: the session is then
-- the new account's.
pub created_logs_in :
    (gen : Text → Text) (check : Text → Text → Bool)
    → ((p : Text) → check (gen p) p ≡ true)
    → (meanwhile : Database → Database) (config : Config) (auditor : ℕ) (form : AccountForm)
      (request : LoginRequest) (session : Session) (db : Database)
    → bulk_lines form.bulk_accounts ≡ []
    → is_login_id (normalize_login_id form.login_id) ≡ true
    → 8 ≤ length form.password
    → any (has_login_id (normalize_login_id form.login_id)) db.admin_accounts ≡ false
    → request.login_id ≡ form.login_id
    → request.password ≡ form.password
    → is_login_rate_limited config true request.now request.ip db ≡ false
    → (login check alone config true request session
        (admin_accounts_create gen meanwhile (some auditor) form db).1).1
      ≡ start_admin_session request.now request.fresh Role.admin db.next_account_id
          (normalize_login_id form.login_id)
          session
unfolding login admin_accounts_create is_login_rate_limited
created_logs_in gen check law meanwhile config auditor form request session db single good long free
      same_id same_password open' =
    let login_id = normalize_login_id form.login_id in
    rw
      (
        single,
        create_one-new gen form.login_id form.password db good long free,
        open',
        same_id,
        same_password,
        authenticate-new gen check law login_id form.password db good long free,
      )
      refl
