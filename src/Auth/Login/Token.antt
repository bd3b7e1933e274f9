-- ===== src/Auth/Login/Token.antt =====
-- The CSRF token of the login form, before and after the login.
use linebot.Prelude.{
  ℕ, ◌≡◌, refl, true, false, Option, none, some, Text, is_empty, text_eq_refl, arith,
}
use linebot.Database.Tables.{Role}
use linebot.Auth.Session.{Session, start_admin_session, token_or}
use linebot.Auth.Request.{validate_csrf, or_else, tokens_match}
use linebot.Auth.Login.{get_csrf_token}

is_empty-token_or :
    (o : Option Text) (fresh : Text) → is_empty fresh ≡ false → is_empty (token_or o fresh) ≡ false
is_empty-token_or none fresh h = h
is_empty-token_or (some token) fresh h = ground (arith, h)

token_or_kept : (token fresh : Text) → is_empty token ≡ false → token_or (some token) fresh ≡ token
token_or_kept token fresh h = rw h refl

posted_token :
    (token : Text)
    → is_empty token ≡ false
    → tokens_match (some token) (or_else (some token) none) ≡ true
posted_token token h = rw h (rw h (text_eq_refl token))

-- The token that a form shows passes when it is posted back, to the session that showed the form and to the
-- one that a login, in whatever role, makes of it: tabs that are open at the login go on working.
pub csrf_token_kept :
    (fresh later : Text) (now account_id : ℕ) (login_id : Text) (role : Role) (session : Session)
    → is_empty fresh ≡ false
    → let (token, shown) = get_csrf_token fresh session in
      (validate_csrf shown (some token) none ≡ true)
      × (validate_csrf
            (start_admin_session now later role account_id login_id shown)
            (some token)
            none
          ≡ true)
unfolding get_csrf_token validate_csrf start_admin_session
csrf_token_kept fresh later now account_id login_id role session h =
    let token = token_or session.csrf_token fresh in
    let there = is_empty-token_or session.csrf_token fresh h in
    (posted_token token there, rw (token_or_kept token later there) (posted_token token there))
