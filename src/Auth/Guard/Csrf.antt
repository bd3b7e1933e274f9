-- ===== src/Auth/Guard/Csrf.antt =====
-- No handler of the admin pages acts on a request that writes without a valid CSRF token.
use linebot.Prelude.{
  ℕ, ◌≤◌, ◌≡◌, refl, Bool, true, false, Option, some, Text, codes, arith, Bool-cases, inl, inr,
  text_eq, text_eq→eq, sym, ◌⊎◌, le→leb,
}
use linebot.Config.{Config}
use linebot.Database.Tables.{Role, Database}
use linebot.Auth.Session.{Session, is_fresh, is_authenticated_as, has_active_auth_session}
use linebot.Auth.Session.Expiry.{IsLive, is_authenticated_as_lem}
use linebot.Auth.Request.{validate_csrf, sanitize_next_path}
use linebot.Auth.Guard.{
  HostPolicy, Request, Verdict, passes, rejected, redirect_to, redirect_login, is_writing,
  is_exempt, is_audit_path, is_admin_path, needs_token, csrf_protect, before_request,
  security_preflight, and_then,
}

fresh_earlier :
    (config : Config) (now later : ℕ) (online : Bool) (role : Role) (db : Database)
    (account_id last : Option ℕ)
    → now ≤ later
    → IsLive config later online role db account_id last
    → is_fresh config now account_id last ≡ true
fresh_earlier config now later online role db account_id last h live =
    rw (live.has_id, live.has_last) (le→leb _ _ (omega (arith, live.fresh)))

-- A session that a handler accepts later was active when the request came in.
authenticated-active :
    (config : Config) (now later : ℕ) (online update : Bool) (role : Role) (db : Database)
    (session : Session)
    → now ≤ later
    → (is_authenticated_as config later online role update db session).0 ≡ true
    → has_active_auth_session config now (some role) session ≡ true
unfolding has_active_auth_session
authenticated-active config now later online update role db session h k =
    elim (is_authenticated_as_lem config later online role update db session) [
      | inl accepted ↦
          rw
            (
              accepted.1.0,
              accepted.1.1,
              fresh_earlier config now later online role db _ _ h accepted.1.2,
            )
            refl
      | inr refused ↦ cc
    ]

-- A session that a handler accepts needs the token.
accepted-needs_token :
    (config : Config) (now : ℕ) (role : Role) (request : Request) (session : Session)
    → has_active_auth_session config now (some role) session ≡ true
    → is_admin_path request.path ≡ true
    → (role ≡ Role.audit_admin) ⊎ (is_audit_path request.path ≡ false)
    → needs_token config now request session ≡ true
unfolding needs_token
accepted-needs_token config now Role.audit_admin request session active here fits =
    elim (Bool-cases (is_audit_path request.path)) [
      | inl t ↦ rw t active
      | inr t ↦ rw (t, here) (ground (arith, active))
    ]
accepted-needs_token config now Role.admin request session active here (inr plain) =
    rw (plain, here) (ground (arith, active))
accepted-needs_token config now Role.admin request session active here (inl other) = cc

apart_from :
    (path other : Text)
    → is_admin_path path ≡ true
    → is_admin_path other ≡ false
    → text_eq path other ≡ false
apart_from path other h k = elim (Bool-cases (text_eq path other)) [
  | inr f ↦ f
  | inl t ↦ (let same : is_admin_path other ≡ true = rw (sym (text_eq→eq path other t)) h in cc)
]

exempt-admin_path : (path : Text) → is_admin_path path ≡ true → is_exempt path ≡ false
exempt-admin_path path h =
    rw
      (
        apart_from path (codes "/callback") h refl,
        apart_from path (codes "/tasks/process-call-queue") h refl,
        apart_from path (codes "/loadtest/db") h refl,
      )
      refl

and_then-passes : (v w : Verdict) → and_then v w ≡ passes → w ≡ passes
and_then-passes passes w h = h
and_then-passes (rejected code) w h = cc
and_then-passes (redirect_to url) w h = cc
and_then-passes (redirect_login path) w h = cc

-- When a request that writes to a path of the admin pages passes the checks, and its handler then takes the
-- session for authenticated in the role that the path belongs to, the request brought the session's token.
pub admin_write_has_token :
    (policy : HostPolicy) (config : Config) (now later : ℕ) (online update : Bool) (role : Role)
    (db : Database) (request : Request) (session : Session)
    → now ≤ later
    → is_writing request.method ≡ true
    → is_admin_path request.path ≡ true
    → (role ≡ Role.audit_admin) ⊎ (is_audit_path request.path ≡ false)
    → before_request policy config now request session ≡ passes
    → (is_authenticated_as config later online role update db session).0 ≡ true
    → validate_csrf session request.form_token request.header_token ≡ true
unfolding before_request csrf_protect
admin_write_has_token policy config now later online update role db request session h writes here
      fits passed accepted =
    let active = authenticated-active config now later online update role db session h accepted in
    let needs = accepted-needs_token config now role request session active here fits in
    elim (Bool-cases (validate_csrf session request.form_token request.header_token)) [
      | inl t ↦ t
      | inr f ↦
          (let refused : redirect_login (sanitize_next_path (some request.path)) ≡ passes =
              rw (writes, exempt-admin_path request.path here, needs, f) at
                (and_then-passes (security_preflight policy request) _ passed) in
            cc)
    ]
