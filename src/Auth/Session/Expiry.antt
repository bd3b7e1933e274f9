-- ===== src/Auth/Session/Expiry.antt =====
-- When a session counts as authenticated, and what is left of one that does not.
use linebot.Prelude.{
  ℕ, ◌+◌, ◌≤◌, ◌≡◌, refl, Bool, true, false, not, ◌&&◌, Option, none, some, arith, Bool-cases, inl,
  inr, ◌⊎◌, if◌then◌else◌, and-true,
}
use linebot.Config.{Config}
use linebot.Database.Tables.{Role, AdminAccount, Database, role_eq}
use linebot.Auth.Session.{
  Session, cleared, is_role, positive_id, get_admin_account_by_id, is_account_as, has_expired,
  checked_account, checked_times, is_authenticated_as,
}

-- The account and the time that a session must show to be authenticated in a role.
pub record IsLive (config : Config) (now : ℕ) (online : Bool) (role : Role) (db : Database)
    (account_id last : Option ℕ) : Type 0 where
  pub i : ℕ
  pub account : AdminAccount
  pub used : ℕ
  pub has_id : account_id ≡ some i
  pub has_last : last ≡ some used
  pub found : get_admin_account_by_id online i db ≡ some account
  pub active : account.active ≡ true
  pub account_role : role_eq account.role role ≡ true
  pub fresh : now ≤ used + config.session_idle_timeout_seconds

abbrev pub touched : Bool → ℕ → Session → Session
touched update now s = if update then record s { last_activity = some now } else s

-- The verdict on a session and what is left of it.
abbrev pub Checked : Type 0 → Bool → ℕ → Session → Bool × Session → Type 0
Checked Live update now s v =
    ((v.0 ≡ true) × Live × (v.1 ≡ touched update now s))
    ⊎ ((v.0 ≡ false) × ((v.1 ≡ s) ⊎ (v.1 ≡ cleared)))

module _ (config : Config) (now : ℕ) (online : Bool) (role : Role) (update : Bool) (db : Database)
    (s : Session) where
  account-Checked :
      (i last : ℕ) (account : Option AdminAccount)
      → get_admin_account_by_id online i db ≡ account
      → Checked
          (IsLive config now online role db (some i) (some last))
          update
          now
          s
          (checked_account config now update s last (is_account_as role account))
  account-Checked i last none e = inr (refl, inr refl)
  account-Checked i last (some a) e = elim (Bool-cases (a.active && role_eq a.role role)) [
    | inr f ↦ rw f (inr (refl, inr refl))
    | inl t ↦ elim (Bool-cases (has_expired config now last)) [
      | inl old ↦ rw (t, old) (inr (refl, inr refl))
      | inr new ↦
          rw (t, new)
            (inl (
              refl,
              record {
                i = i;
                account = a;
                used = last;
                has_id = refl;
                has_last = refl;
                found = e;
                active = (and-true a.active (role_eq a.role role) t).0;
                account_role = (and-true a.active (role_eq a.role role) t).1;
                fresh = in_time new;
              },
              refl,
            ))
    ]
  ]
    where
      in_time :
          has_expired config now last ≡ false → now ≤ last + config.session_idle_timeout_seconds
      in_time h = ground arith

  times-Checked :
      (account_id last : Option ℕ)
      → Checked
          (IsLive config now online role db account_id last)
          update
          now
          s
          (checked_times config now online role update db s account_id last)
  times-Checked none last = inr (refl, inr refl)
  times-Checked (some i) none = inr (refl, inr refl)
  times-Checked (some i) (some last) = account-Checked i last _ refl

guarded-Checked :
    {Live : Type 0} (update : Bool) (now : ℕ) (s : Session) (logged_in in_role : Bool)
    (v : Bool × Session)
    → Checked Live update now s v
    → Checked
        ((logged_in ≡ true) × (in_role ≡ true) × Live)
        update
        now
        s
        (if not logged_in then (false, s) else if not in_role then (false, s) else v)
guarded-Checked update now s false in_role v h = inr (refl, inl refl)
guarded-Checked update now s true false v h = inr (refl, inl refl)
guarded-Checked update now s true true v (inl (verdict, live, kept)) =
    inl (verdict, (refl, refl, live), kept)
guarded-Checked update now s true true v (inr refused) = inr refused

-- An authenticated session is logged in under the role, belongs to an account that the database answers
-- with, active and of the role, and was used within the time limit; it is kept, its time set to now
-- where the caller asks for that. Any other session is refused, and left as it was or cleared.
pub is_authenticated_as_lem :
    (config : Config) (now : ℕ) (online : Bool) (role : Role) (update : Bool) (db : Database)
    (s : Session)
    → Checked
        ((s.logged_in ≡ true)
          × (is_role role s.admin_role ≡ true)
          × IsLive config now online role db (positive_id s.admin_account_id) s.last_activity)
        update
        now
        s
        (is_authenticated_as config now online role update db s)
unfolding is_authenticated_as
is_authenticated_as_lem config now online role update db s =
    guarded-Checked update now s s.logged_in (is_role role s.admin_role) _ (
      times-Checked config now online role update db s (positive_id s.admin_account_id)
        s.last_activity)
