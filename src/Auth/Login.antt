-- ===== src/Auth/Login.antt =====
-- main.py `login`, with auth.py's `authenticate_admin_account`, `record_admin_login` and `get_csrf_token`.
-- `check_password_hash` (Werkzeug) is a parameter. The check of the limit, the query of the account, the log and
-- the record of a failure are four transactions, and others may commit between them. A failure of the database
-- under the query or the log is an error page, which is left out.
pub mod Lockout
pub mod Created
pub mod Token
use linebot.Prelude.{
  ℕ, Bool, true, false, ◌&&◌, Option, none, some, List, [], ◌∷◌, ◌++◌, Text, codes, text_eq,
  is_empty, strip, take, find_where, any, if◌then◌else◌,
}
use linebot.Config.{Config}
use linebot.Database.Tables.{Role, AdminAccount, LoginLog, Database, role_eq}
use linebot.Database.RateLimit.{is_login_rate_limited, record_login_failure}
use linebot.Admin.Accounts.Input.{normalize_login_id}
use linebot.Auth.Session.{Session, start_admin_session, token_or}
use linebot.Auth.Request.{or_else, sanitize_next_path}

abbrev pub role_text : Role → Text
role_text Role.admin = codes "admin"
role_text Role.audit_admin = codes "audit_admin"

-- WHERE login_id = %s AND active = TRUE
abbrev pub may_log_in : Text → AdminAccount → Bool
may_log_in login_id a = text_eq a.login_id login_id && a.active

abbrev pub checked_password :
    (Text → Text → Bool) → Text → Option AdminAccount → Option AdminAccount
checked_password check_password_hash candidate none = none
checked_password check_password_hash candidate (some a) =
    if check_password_hash a.password_hash candidate then some a else none

-- The text that is missing from a form counts as empty.
unfoldable pub authenticate_admin_account :
    (Text → Text → Bool) → Text → Text → Database → Option AdminAccount
unfolding normalize_login_id
authenticate_admin_account check_password_hash login_id [] db = none
authenticate_admin_account check_password_hash login_id (c ∷ cs) db =
    let normalized_login_id = normalize_login_id login_id in
    if is_empty normalized_login_id
    then none
    else checked_password check_password_hash (c ∷ cs)
        (find_where (may_log_in normalized_login_id) db.admin_accounts)

abbrev text_or_none : Text → Option Text
text_or_none [] = none
text_or_none (c ∷ s) = some (c ∷ s)

-- `login_id` is the empty text where the program passes None.
unfoldable pub record_admin_login :
    ℕ → Text → Option ℕ → Text → Text → Text → Text → Database → Database
record_admin_login now role account_id login_id ip_address user_agent login_result db = record db {
  admin_login_logs =
      db.admin_login_logs
      ++ record {
        login_result = login_result;
        admin_role = role;
        admin_account_id = account_id;
        admin_login_id = text_or_none login_id;
        ip_address = ip_address;
        user_agent = take 300 user_agent;
        logged_in_at = now;
      }
        ∷ [];
}

-- The token of the session, which a form shows, and the session that keeps it.
unfoldable pub get_csrf_token : Text → Session → Text × Session
get_csrf_token fresh session =
    let token = token_or session.csrf_token fresh in
    (token, record session { csrf_token = some token })

-- What a POST brings. `fresh` is what `secrets.token_urlsafe` would draw.
pub record LoginRequest : Type 0 where
  pub now : ℕ
  pub fresh : Text
  pub ip : Text
  pub user_agent : Text
  pub login_id : Text
  pub password : Text
  pub next_arg : Option Text
  pub next_form : Option Text

-- What happens around a login: what other transactions commit before the account is queried (0), before the log
-- is written (1) and before the failure is recorded (2), and whether that record goes through, since
-- `record_login_failure` catches what it raises.
pub record LoginWorld : Type 0 where
  pub meanwhile : ℕ → Database → Database
  pub stored : Bool

-- No other transaction, and a database that answers.
abbrev pub alone : LoginWorld
alone = record { meanwhile = λ k db. db; stored = true }

-- `login_form` is the page with the form again, with the error and the token that it shows.
pub data LoginResponse : Type 0 where
  too_many : LoginResponse
  redirect_to : Text → LoginResponse
  login_form : Text → Text → LoginResponse

abbrev pub path_or : Option Text → Text → Text
path_or none page = page
path_or (some path) page = path

abbrev home_of : Role → Text
home_of Role.admin = codes "/admin"
home_of Role.audit_admin = codes "/admin/login-logs"

abbrev pub record_success : LoginRequest → AdminAccount → Database → Database
record_success request a =
    record_admin_login request.now (role_text a.role) (some a.id) a.login_id request.ip
      request.user_agent (codes "success")

abbrev pub record_failure : LoginWorld → LoginRequest → Database → Database
record_failure world request db = record_login_failure world.stored request.now request.ip (
    world.meanwhile 2 (
      record_admin_login request.now (codes "unknown") none [] request.ip request.user_agent
        (codes "failure") (world.meanwhile 1 db)))

abbrev pub answered :
    LoginWorld
    → LoginRequest
    → Option AdminAccount
    → Session
    → Database
    → LoginResponse × Session × Database
answered world request none session db =
    let (token, shown) = get_csrf_token request.fresh session in
    (login_form (codes "ログインIDまたはパスワードが正しくありません") token, shown, record_failure world request db)
answered world request (some a) session db = (
  redirect_to
      (path_or (sanitize_next_path (or_else request.next_arg request.next_form)) (home_of a.role)),
  start_admin_session request.now request.fresh a.role a.id a.login_id session,
  record_success request a (world.meanwhile 1 db),
)

-- What the credentials lead to, once the limit was checked.
abbrev pub log_in :
    (Text → Text → Bool)
    → LoginWorld
    → LoginRequest
    → Session
    → Database
    → LoginResponse × Session × Database
log_in check_password_hash world request session db =
    answered world request
      (authenticate_admin_account check_password_hash (normalize_login_id request.login_id)
        request.password db)
      session db

-- A POST to /login. The outcome is the answer, the session and the database.
unfoldable pub login :
    (Text → Text → Bool)
    → LoginWorld
    → Config
    → Bool
    → LoginRequest
    → Session
    → Database
    → LoginResponse × Session × Database
unfolding is_login_rate_limited normalize_login_id authenticate_admin_account record_admin_login
    get_csrf_token record_login_failure start_admin_session sanitize_next_path
login check_password_hash world config online request session db =
    if is_login_rate_limited config online request.now request.ip db
    then (too_many, session, db)
    else log_in check_password_hash world request session (world.meanwhile 0 db)

-- auth.py `has_audit_admin_account`; `audit_hash` is AUDIT_ADMIN_PASSWORD_HASH.
unfoldable pub has_audit_admin_account : Bool → Text → Database → Bool
has_audit_admin_account true audit_hash db =
    any (λ a. role_eq a.role Role.audit_admin && a.active) db.admin_accounts
has_audit_admin_account false [] db = false
has_audit_admin_account false (c ∷ hash) db = true
