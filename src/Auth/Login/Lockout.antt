-- ===== src/Auth/Login/Lockout.antt =====
-- How many wrong logins an address may try within the window of `is_login_rate_limited`.
use linebot.Prelude.{
  ℕ, ◌+◌, ◌≤◌, ◌<◌, ◌≡◌, refl, Bool, true, false, ◌&&◌, Option, none, some, List, [], ◌∷◌, Text,
  codes, text_eq, arith, leb, All, count_where, count_where-append, Bool-cases, inl, inr, ◌⊎◌,
  if_cases, if◌then◌else◌, text_eq→eq, sym,
}
use linebot.Config.{Config}
use linebot.Database.Tables.{RateRecord, AdminAccount, Database}
use linebot.Database.RateLimit.{is_recent, is_login_rate_limited, record_login_failure}
use linebot.Auth.Session.{Session}
use linebot.Auth.Login.{
  LoginWorld, LoginRequest, LoginResponse, too_many, redirect_to, login_form, login, answered,
  record_admin_login, get_csrf_token,
}

-- A POST to /login, the session it comes with, whether the database answers, and what happens around it.
pub record LoginAttempt : Type 0 where
  pub world : LoginWorld
  pub online : Bool
  pub request : LoginRequest
  pub session : Session

abbrev pub is_form : LoginResponse → Bool
is_form too_many = false
is_form (redirect_to path) = false
is_form (login_form error token) = true

-- The answers that tell an address that its password was wrong.
abbrev pub wrong_from : Text → LoginRequest → LoginResponse → ℕ
wrong_from ip request response = if text_eq request.ip ip && is_form response then 1 else 0

below : (limit n : ℕ) → leb limit n ≡ false → n < limit
below limit n h = ground arith

module _ (check : Text → Text → Bool) (config : Config) where
  unfoldable pub wrong_answers : Text → List LoginAttempt → Database → ℕ
  unfolding login
  wrong_answers ip [] db = 0
  wrong_answers ip (a ∷ attempts) db =
      let (response, session, db') = login check a.world config a.online a.request a.session db in
      wrong_from ip a.request response + wrong_answers ip attempts db'

  module _ (ip : Text) (start : ℕ) where
    abbrev pub since : RateRecord → Bool
    since r = text_eq r.subject ip && leb start r.at

    abbrev pub on_record : Database → ℕ
    on_record db = count_where since db.login_attempt_records

    -- The request comes within the window, its failure is recorded, and what others commit around it removes no
    -- record of the address from the window.
    pub record Within (a : LoginAttempt) : Type 0 where
      pub from : start ≤ a.request.now
      pub to : a.request.now < start + config.login_window_seconds
      pub stored : a.world.stored ≡ true
      pub others : (k : ℕ) (db : Database) → on_record db ≤ on_record (a.world.meanwhile k db)

    on_record-recent :
        (now : ℕ) (rows : List RateRecord)
        → now < start + config.login_window_seconds
        → count_where since rows ≤ count_where (is_recent now config.login_window_seconds ip) rows
    unfolding is_recent
    on_record-recent now [] h = omega arith
    on_record-recent now (r ∷ rows) h = ground (arith, on_record-recent now rows h)

    -- What one answer does to the count.
    abbrev Counts : Database → LoginRequest → LoginResponse × Session × Database → Type 0
    Counts db request out =
        (on_record db + wrong_from ip request out.0 ≤ on_record out.2)
        × ((wrong_from ip request out.0 ≡ 0) ⊎ (on_record db < config.login_max_attempts))

    recorded :
        (request : LoginRequest) (db : Database)
        → start ≤ request.now
        → on_record db + (if text_eq request.ip ip && true then 1 else 0)
          ≤ on_record (record_login_failure true request.now request.ip db)
    unfolding record_login_failure
    recorded request db h =
        let added =
          count_where-append since db.login_attempt_records
            (record { subject = request.ip; at = request.now } ∷ []) in
        elim (Bool-cases (text_eq request.ip ip)) [
          | inl mine ↦ rw (mine, added) (ground (arith, mine))
          | inr other ↦ rw (other, added) (ground (arith, other))
        ]

    answered-Counts :
        (a : LoginAttempt) (o : Option AdminAccount) (session : Session) (db start_db : Database)
        → Within a
        → on_record start_db ≤ on_record db
        → (text_eq a.request.ip ip ≡ true → on_record start_db < config.login_max_attempts)
        → Counts start_db a.request (answered a.world a.request o session db)
    unfolding record_admin_login get_csrf_token
    answered-Counts a (some account) session db start_db within before room =
        (ground (arith, before, within.others 1 db), inl (ground arith))
    answered-Counts a none session db start_db within before room =
        let logged =
          record_admin_login a.request.now (codes "unknown") none [] a.request.ip
            a.request.user_agent (codes "failure") (a.world.meanwhile 1 db) in
        (
          rw within.stored (
              omega (
                arith,
                before,
                within.others 1 db,
                within.others 2 logged,
                recorded a.request (a.world.meanwhile 2 logged) within.from,
              )),
          late (text_eq a.request.ip ip) room,
        )
      where
        late :
            (b : Bool)
            → (b ≡ true → on_record start_db < config.login_max_attempts)
            → (◌≡◌ {A = ℕ} (if b && true then 1 else 0) 0)
              ⊎ (on_record start_db < config.login_max_attempts)
        late true f = inr (f refl)
        late false f = inl refl

    login-Counts :
        (a : LoginAttempt) (db : Database)
        → Within a
        → Counts db a.request (login check a.world config a.online a.request a.session db)
    unfolding login is_login_rate_limited
    login-Counts a db within =
        if_cases (Counts db a.request)
          (is_login_rate_limited config a.online a.request.now a.request.ip db) _ _
          (λ _. (ground arith, inl (ground arith)))
          (λ free.
            answered-Counts a _ a.session (a.world.meanwhile 0 db) db within (within.others 0 db)
              (room a.online free))
      where
        room :
            (online : Bool)
            → is_login_rate_limited config online a.request.now a.request.ip db ≡ false
            → text_eq a.request.ip ip ≡ true
            → on_record db < config.login_max_attempts
        room false free mine = cc
        room true free mine =
            let few : leb config.login_max_attempts (
                  count_where (is_recent a.request.now config.login_window_seconds ip)
                    db.login_attempt_records)
                ≡ false =
              rw (sym (text_eq→eq a.request.ip ip mine)) free in
            omega (
              arith,
              below config.login_max_attempts _ few,
              on_record-recent a.request.now db.login_attempt_records within.to,
            )

    wrong_from_bound :
        (request : LoginRequest) (response : LoginResponse) → wrong_from ip request response ≤ 1
    wrong_from_bound request response = ground arith

    wrong_bound :
        (attempts : List LoginAttempt) (db : Database)
        → All Within attempts
        → (wrong_answers ip attempts db ≡ 0)
          ⊎ (on_record db + wrong_answers ip attempts db ≤ config.login_max_attempts)
    unfolding wrong_answers
    wrong_bound [] db within = inl refl
    wrong_bound (a ∷ attempts) db within =
        let out = login check a.world config a.online a.request a.session db in
        let counts = login-Counts a db within.0 in
        let one = wrong_from_bound a.request out.0 in
        elim (wrong_bound attempts out.2 within.1) [
          | inr some_left ↦ inr (omega (arith, some_left, counts.0))
          | inl no_more ↦ elim counts.1 [
            | inl right ↦ inl (omega (arith, no_more, right))
            | inr few ↦ inr (omega (arith, no_more, few, one))
          ]
        ]

    -- Of requests to log in that are answered one after another within the window that begins at `start`, an
    -- address is told at most `login_max_attempts` times that a login id or a password was wrong, as long as
    -- each failure is recorded and no other transaction, whatever else it commits between those of a request,
    -- removes records of the address from the window.
    pub login_lockout :
        (attempts : List LoginAttempt) (db : Database)
        → All Within attempts
        → wrong_answers ip attempts db ≤ config.login_max_attempts
    login_lockout attempts db within = elim (wrong_bound attempts db within) [
      | inl no_more ↦ omega (arith, no_more)
      | inr bound ↦ omega (arith, bound)
    ]
