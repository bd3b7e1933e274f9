-- ===== src/Auth/Guard.antt =====
-- main.py: what runs before each request, `security_preflight`, `initialize_database_once` and
-- `csrf_protect`, and the headers that `apply_security_headers` adds after it; auth.py `enforce_https`.
pub mod Csrf
use linebot.Prelude.{
  ℕ, Bool, true, false, not, ◌&&◌, ◌||◌, Option, none, some, List, [], ◌∷◌, ◌++◌, Text, codes,
  text_eq, any, starts_with, drop, map, ◌==◌, if◌then◌else◌,
}
use linebot.Config.{Config}
use linebot.Database.Tables.{Role}
use linebot.Admin.Accounts.Input.{lower}
use linebot.Auth.Session.{Session, has_active_auth_session}
use linebot.Auth.Request.{validate_csrf, sanitize_next_path, enforce_host_allowlist}

-- What Flask tells of a request: `host` with its port, `url` in full.
pub record Request : Type 0 where
  pub method : Text
  pub path : Text
  pub host : Text
  pub url : Text
  pub is_secure : Bool
  pub is_static : Bool
  pub form_token : Option Text
  pub header_token : Option Text

-- ALLOWED_HOSTS, a set without order, and FORCE_HTTPS.
pub record HostPolicy : Type 0 where
  pub allowed_hosts : List Text
  pub force_https : Bool

-- host.split(":", 1)[0].lower()
abbrev before_colon : Text → Text
before_colon [] = []
before_colon (c ∷ s) = let rest = before_colon s in if c == b':' then [] else c ∷ rest

abbrev pub host_of : Request → Text
host_of request = lower (before_colon request.host)

abbrev pub is_local_host : Text → Bool
is_local_host host = text_eq host (codes "localhost") || text_eq host (codes "127.0.0.1")

abbrev http_prefix : Text
http_prefix = codes "http://"

-- s.replace("http://", "https://", 1)
abbrev pub secure_url : Text → Text
secure_url [] = []
secure_url (c ∷ s) =
    let rest = secure_url s in
    if starts_with (c ∷ s) http_prefix then codes "https://" ++ drop 7 (c ∷ s) else c ∷ rest

-- The address to go to instead, where there is one.
unfoldable pub enforce_https : Bool → Request → Option Text
enforce_https force_https request =
    if not force_https
    then none
    else if is_local_host (host_of request)
    then none
    else if request.is_secure
    then none
    else some (secure_url request.url)

-- The path for `url_for("login", next = ..., notice = "session_expired")` is its `next`.
pub data Verdict : Type 0 where
  passes : Verdict
  rejected : ℕ → Verdict
  redirect_to : Text → Verdict
  redirect_login : Option Text → Verdict

abbrev secured : Option Text → Verdict
secured none = passes
secured (some url) = redirect_to url

unfoldable pub security_preflight : HostPolicy → Request → Verdict
unfolding enforce_host_allowlist enforce_https
security_preflight policy request =
    if enforce_host_allowlist policy.allowed_hosts (host_of request)
    then secured (enforce_https policy.force_https request)
    else rejected 400

abbrev is_one_of : Text → List Text → Bool
is_one_of path paths = any (text_eq path) paths

-- Whether `initialize_database_once` brings the schema up to date.
unfoldable pub initializes_database : Request → Bool
initializes_database request =
    not request.is_static
    && not (
        is_one_of request.path
          (codes "/health" ∷ codes "/healthz" ∷ codes "/readyz" ∷ codes "/loadtest/db" ∷ []))
    && not (text_eq request.path (codes "/login") && text_eq request.method (codes "GET"))

abbrev pub is_writing : Text → Bool
is_writing method =
    is_one_of method (codes "POST" ∷ codes "PUT" ∷ codes "PATCH" ∷ codes "DELETE" ∷ [])

abbrev pub is_exempt : Text → Bool
is_exempt path =
    is_one_of path
      (codes "/callback" ∷ codes "/tasks/process-call-queue" ∷ codes "/loadtest/db" ∷ [])

abbrev pub is_audit_path : Text → Bool
is_audit_path path =
    starts_with path (codes "/admin/login-logs") || starts_with path (codes "/admin/admin-accounts")

abbrev pub is_admin_path : Text → Bool
is_admin_path path = starts_with path (codes "/admin")

-- Without a session that is active in a role for the path, the token is left to the handler's own refusal.
unfoldable pub needs_token : Config → ℕ → Request → Session → Bool
unfolding has_active_auth_session
needs_token config now request session =
    if is_audit_path request.path
    then has_active_auth_session config now (some Role.audit_admin) session
    else if is_admin_path request.path || text_eq request.path (codes "/logout")
    then has_active_auth_session config now (some Role.admin) session
      || has_active_auth_session config now (some Role.audit_admin) session
    else true

unfoldable pub csrf_protect : Config → ℕ → Request → Session → Verdict
unfolding needs_token validate_csrf sanitize_next_path
csrf_protect config now request session =
    if not (is_writing request.method)
    then passes
    else if is_exempt request.path
    then passes
    else if not (needs_token config now request session)
    then passes
    else if validate_csrf session request.form_token request.header_token
    then passes
    else redirect_login (sanitize_next_path (some request.path))

abbrev pub and_then : Verdict → Verdict → Verdict
and_then passes next = next
and_then (rejected code) next = rejected code
and_then (redirect_to url) next = redirect_to url
and_then (redirect_login path) next = redirect_login path

-- The checks in the order in which the program registers them; the schema is no reason to refuse.
unfoldable pub before_request : HostPolicy → Config → ℕ → Request → Session → Verdict
unfolding security_preflight csrf_protect
before_request policy config now request session =
    and_then (security_preflight policy request) (csrf_protect config now request session)

abbrev Header : Type 0
Header = Text × Text

abbrev fixed_headers : List Header
fixed_headers =
    (codes "X-Frame-Options", codes "DENY")
    ∷ (codes "X-Content-Type-Options", codes "nosniff")
    ∷ (codes "Referrer-Policy", codes "same-origin")
    ∷ (codes "Permissions-Policy", codes "geolocation=(), microphone=(), camera=()")
    ∷ (
      codes "Content-Security-Policy",
      codes "default-src 'self'; script-src 'self'; style-src 'self' 'unsafe-inline'; "
          ++ codes
              "img-src 'self' data:; connect-src 'self'; frame-ancestors 'none'; base-uri 'self'; "
          ++ codes "form-action 'self'",
    )
    ∷ []

-- The headers that a response gets.
unfoldable pub apply_security_headers : Request → List Header
apply_security_headers request =
    fixed_headers
    ++ (if not request.is_static
          && (text_eq request.path (codes "/login") || is_admin_path request.path)
        then (codes "Cache-Control", codes "no-store") ∷ []
        else [])
    ++ (if request.is_secure
        then (codes "Strict-Transport-Security", codes "max-age=31536000; includeSubDomains") ∷ []
        else [])
