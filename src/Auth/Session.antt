-- ===== src/Auth/Session.antt =====
-- auth.py: logging in, and whether a session is authenticated.
pub mod Expiry
use linebot.Prelude.{
  ℕ, zero, suc, ◌+◌, Bool, true, false, not, ◌&&◌, ◌||◌, Option, none, some, List, [], ◌∷◌, Text,
  text_eq, is_empty, ltb, leb, ◌==◌, if◌then◌else◌,
}
use linebot.Config.{Config}
use linebot.Database.Tables.{Role, AdminAccount, Database, role_eq}
use linebot.Database.Rows.{account_of}

-- The keys of the session cookie that the program sets; `none` is a key that is not there.
pub record Session : Type 0 where
  pub logged_in : Bool
  pub admin_role : Option Role
  pub admin_account_id : Option ℕ
  pub admin_login_id : Option Text
  pub issued_at : Option ℕ
  pub last_activity : Option ℕ
  pub csrf_token : Option Text

-- session.clear()
abbrev pub cleared : Session
cleared = record {
  logged_in = false;
  admin_role = none;
  admin_account_id = none;
  admin_login_id = none;
  issued_at = none;
  last_activity = none;
  csrf_token = none;
}

abbrev pub is_role : Role → Option Role → Bool
is_role role none = false
is_role role (some r) = role_eq r role

-- csrf_token or secrets.token_urlsafe(32)
abbrev pub token_or : Option Text → Text → Text
token_or none fresh = fresh
token_or (some token) fresh = if is_empty token then fresh else token

unfoldable pub start_admin_session : ℕ → Text → Role → ℕ → Text → Session → Session
start_admin_session now fresh role account_id login_id session = record {
  logged_in = true;
  admin_role = some role;
  admin_account_id = some account_id;
  admin_login_id = some login_id;
  issued_at = some now;
  last_activity = some now;
  csrf_token = some (token_or session.csrf_token fresh);
}

-- isinstance(admin_account_id, int) and admin_account_id > 0
abbrev pub positive_id : Option ℕ → Option ℕ
positive_id none = none
positive_id (some zero) = none
positive_id (some (suc i)) = some (suc i)

unfoldable pub get_current_admin_account_id : Session → Option ℕ
get_current_admin_account_id session = positive_id session.admin_account_id

-- `none` also where the database does not answer.
abbrev pub get_admin_account_by_id : Bool → ℕ → Database → Option AdminAccount
get_admin_account_by_id online i db = if online then account_of db i else none

abbrev pub is_account_as : Role → Option AdminAccount → Bool
is_account_as role none = false
is_account_as role (some a) = a.active && role_eq a.role role

abbrev pub has_expired : Config → ℕ → ℕ → Bool
has_expired config now last_activity = ltb (last_activity + config.session_idle_timeout_seconds) now

abbrev checked_account : Config → ℕ → Bool → Session → ℕ → Bool → Bool × Session
checked_account config now update_activity session last_activity false = (false, cleared)
checked_account config now update_activity session last_activity true =
    if has_expired config now last_activity
    then (false, cleared)
    else (true, if update_activity then record session { last_activity = some now } else session)

abbrev checked_times :
    Config → ℕ → Bool → Role → Bool → Database → Session → Option ℕ → Option ℕ → Bool × Session
checked_times config now online role update_activity db session none last = (false, cleared)
checked_times config now online role update_activity db session (some i) none = (false, cleared)
checked_times config now online role update_activity db session (some i) (some last) =
    checked_account config now update_activity session last
      (is_account_as role (get_admin_account_by_id online i db))

unfoldable pub is_authenticated_as :
    Config → ℕ → Bool → Role → Bool → Database → Session → Bool × Session
unfolding account_of
is_authenticated_as config now online role update_activity db session =
    if not session.logged_in
    then (false, session)
    else if not (is_role role session.admin_role)
    then (false, session)
    else checked_times config now online role update_activity db session
        (positive_id session.admin_account_id) session.last_activity

-- The first lines of each handler of the admin pages: the account that may go on, if any.
abbrev current_of : Bool × Session → Option ℕ × Session
current_of (false, session) = (none, session)
current_of (true, session) = (get_current_admin_account_id session, session)

unfoldable pub current_admin : Config → ℕ → Bool → Database → Session → Option ℕ × Session
unfolding is_authenticated_as get_current_admin_account_id
current_admin config now online db session =
    current_of (is_authenticated_as config now online Role.admin true db session)

abbrev pub is_fresh : Config → ℕ → Option ℕ → Option ℕ → Bool
is_fresh config now none last = false
is_fresh config now (some i) none = false
is_fresh config now (some i) (some last) = leb now (last + config.session_idle_timeout_seconds)

abbrev pub is_role_or_any : Option Role → Option Role → Bool
is_role_or_any none r = true
is_role_or_any (some role) r = is_role role r

unfoldable pub has_active_auth_session : Config → ℕ → Option Role → Session → Bool
has_active_auth_session config now role session =
    session.logged_in
    && is_role_or_any role session.admin_role
    && is_fresh config now (positive_id session.admin_account_id) session.last_activity
