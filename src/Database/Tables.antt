-- ===== src/Database/Tables.antt =====
-- The tables that database.py creates (`ensure_*_table`), a record for each row and one for them all.
-- A table is the list of its rows, the oldest first. A time is a number of seconds.
use linebot.Prelude.{ℕ, Bool, true, false, Option, none, some, List, Text, codes, ◌==◌}

-- config.py's STATUS_* values, and the legacy value that `migrate_legacy_queued_calls` removes.
pub data Status : Type 0 where
  waiting called done cancelled queued_call : Status

abbrev pub status_text : Status → Text
status_text Status.waiting = codes "waiting"
status_text Status.called = codes "called"
status_text Status.done = codes "done"
status_text Status.cancelled = codes "cancelled"
status_text Status.queued_call = codes "queued_call"

-- status = %s
abbrev pub status_eq : Status → Status → Bool
status_eq Status.waiting Status.waiting = true
status_eq Status.called Status.called = true
status_eq Status.done Status.done = true
status_eq Status.cancelled Status.cancelled = true
status_eq Status.queued_call Status.queued_call = true
status_eq _ _ = false

-- status IN ('waiting', 'called')
abbrev pub is_active : Status → Bool
is_active Status.waiting = true
is_active Status.called = true
is_active _ = false

abbrev pub call_origin_auto : Text
call_origin_auto = codes "auto"

abbrev pub call_origin_manual : Text
call_origin_manual = codes "manual"

pub record Reservation : Type 0 where
  pub id : ℕ
  pub user_id : Text
  pub message : Text
  pub status : Status
  pub created_at : Option ℕ
  pub call_origin : Option Text
  pub owner_admin_id : Option ℕ
  pub reservation_no : Option ℕ
  pub type_id : Option ℕ
  pub called_at : Option ℕ
  pub completed_at : Option ℕ

-- The bytes of the image stand in no query of the model, so the row holds only its description.
pub record ReservationType : Type 0 where
  pub id : ℕ
  pub name : Text
  pub owner_admin_id : Option ℕ
  pub accepting : Bool
  pub flavor_text : Text
  pub image_mime_type : Text
  pub image_version : ℕ
  pub price : Option ℕ

pub data Role : Type 0 where
  admin audit_admin : Role

abbrev pub role_eq : Role → Role → Bool
role_eq Role.admin Role.admin = true
role_eq Role.audit_admin Role.audit_admin = true
role_eq _ _ = false

pub record AdminAccount : Type 0 where
  pub id : ℕ
  pub login_id : Text
  pub password_hash : Text
  pub role : Role
  pub active : Bool
  pub accepting_new : Bool
  pub auto_call_count : ℕ

pub record AppSetting : Type 0 where
  pub key : Text
  pub value : Text

pub record NumberSequence : Type 0 where
  pub owner_admin_id : ℕ
  pub next_sequence : ℕ

-- A row of `login_attempt_records` or of `user_request_records`: who, and when.
pub record RateRecord : Type 0 where
  pub subject : Text
  pub at : ℕ

pub record LoginLog : Type 0 where
  pub login_result : Text
  pub admin_role : Text
  pub admin_account_id : Option ℕ
  pub admin_login_id : Option Text
  pub ip_address : Text
  pub user_agent : Text
  pub logged_in_at : ℕ

-- `next_reservation_id` and its like are the SERIALs' sequences, which no rollback sets back.
pub record Database : Type 0 where
  pub reservations : List Reservation
  pub next_reservation_id : ℕ
  pub reservation_types : List ReservationType
  pub next_type_id : ℕ
  pub admin_accounts : List AdminAccount
  pub next_account_id : ℕ
  pub app_settings : List AppSetting
  pub reservation_number_sequences : List NumberSequence
  pub webhook_events : List Text
  pub login_attempt_records : List RateRecord
  pub user_request_records : List RateRecord
  pub admin_login_logs : List LoginLog

-- `a = b` in SQL where `a` may be NULL: not true of NULL.
abbrev pub is_id : Option ℕ → ℕ → Bool
is_id none n = false
is_id (some m) n = m == n

-- COALESCE(a, b)
abbrev pub coalesce {ℓ} : {A : Type ℓ} → Option A → Option A → Option A
coalesce none b = b
coalesce (some a) b = some a

abbrev pub coalesce_or {ℓ} : {A : Type ℓ} → Option A → A → A
coalesce_or none b = b
coalesce_or (some a) b = a
