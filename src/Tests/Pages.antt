-- ===== src/Tests/Pages.antt =====
-- The theorems on the admin pages, the login and the backups at the samples.
use linebot.Prelude.{
  ◌+◌, ◌<◌, ℕ, ◌≤◌, ◌≡◌, refl, true, false, none, some, [], ◌∷◌, ◌++◌, Text, codes, arith, text_eq,
  text_eq_refl, inr, Bool, All, length,
}
use linebot.Database.Tables.{Role, Database}
use linebot.Line.Image.{Imaging}
use linebot.Admin.Types.Rows.{TypeForm, create, delete, run_edit}
use linebot.Admin.Types.Kept.{TypesConsistent, run_edit-TypesConsistent}
use linebot.Admin.Types.Foreign.{LeavesOthers, run_edit-LeavesOthers}
use linebot.Admin.Accounts.Input.{normalize_login_id, is_login_id, bulk_lines}
use linebot.Admin.Accounts.Create.{AccountForm, admin_accounts_create}
use linebot.Admin.Accounts.Unique.{AccountsConsistent}
use linebot.Admin.Accounts.Requests.{make, run_account, run_account-AccountsConsistent}
use linebot.Database.RateLimit.{is_login_rate_limited}
use linebot.Auth.Session.{cleared, start_admin_session, is_authenticated_as}
use linebot.Auth.Request.{validate_csrf}
use linebot.Auth.Login.{LoginRequest, alone, login, get_csrf_token}
use linebot.Auth.Login.Lockout.{LoginAttempt, Within, wrong_answers, login_lockout}
use linebot.Auth.Login.Created.{created_logs_in}
use linebot.Auth.Login.Token.{csrf_token_kept}
use linebot.Auth.Guard.{Request, HostPolicy, before_request}
use linebot.Auth.Guard.Csrf.{admin_write_has_token}
use linebot.Backup.Account.{AccountBackup, import_account_tables}
use linebot.Backup.Account.Others.{KeepsOthers, AfterImport, import_account-KeepsOthers}
use linebot.Backup.Account.Kept.{import_account_keeps_keys}
use linebot.Backup.Full.{
  FullBackup, Table, app_settings, SequenceReply, sequence, raised, export_tables,
}
use linebot.Backup.Full.Handlers.{Visitor, Upload, backup, admin_backup_import}
use linebot.Backup.Full.Rollback.{admin_backup_import_unchanged}
use linebot.Database.Settings.{lookup}
use linebot.Database.Settings.Refines.{read, write, answers, store_answers, settings_refine_map}
use linebot.Queue.Calls.Progress.{callable_count, auto_call_runs}
use linebot.Queue.Calls.Served.{AllCalled, auto_call_runs_serve}
use linebot.Queue.Calls.{is_callable}
use linebot.Line.Json.{str, dict, field, no_fields}
use linebot.Line.Reply.{Message, flex, Delivery, api_error, send_reply_message}
use linebot.Line.Reply.Heroes.{IsSecure}
use linebot.Line.Reply.Safe.{send_reply_message_lem}
use linebot.Invariant.{IsConsistent}
use linebot.Tests.Samples.{config, busy_db, busy_db-IsConsistent, session, haircut, bob}

-- No file is a picture.
abbrev imaging : Imaging
imaging = record { suffix_of = λ _. []; stem_of = λ _. []; picture_of = λ _. none }

abbrev color_form : TypeForm
color_form = record {
  name = codes " hair  color";
  flavor_text = [];
  price = codes "5000";
  image = none;
}

busy_db-TypesConsistent : TypesConsistent busy_db
busy_db-TypesConsistent = record {
  apart = (tt, tt);
  below = (omega arith, tt);
  known = (refl, (refl, (refl, tt)));
}

run_edit-TypesConsistent_example :
    TypesConsistent (run_edit imaging config (some 3) (create color_form) busy_db).1
run_edit-TypesConsistent_example =
    run_edit-TypesConsistent imaging config 3 (create color_form) busy_db busy_db-TypesConsistent

run_edit-LeavesOthers_example :
    LeavesOthers 3 busy_db (run_edit imaging config (some 3) (delete 1) busy_db).1
run_edit-LeavesOthers_example = run_edit-LeavesOthers imaging config 3 (delete 1) busy_db

abbrev hash : Text → Text
hash password = codes "#" ++ password

abbrev same_database : Database → Database
same_database db = db

-- Two accounts in one list.
abbrev two_accounts : AccountForm
two_accounts = record {
  login_id = [];
  password = [];
  bulk_accounts = codes "taro,password1\nHana , password2";
}

busy_db-AccountsConsistent : AccountsConsistent busy_db
unfolding is_login_id
busy_db-AccountsConsistent = record {
  apart = (tt, tt);
  below = (omega arith, tt);
  named = (refl, tt);
}

run_account-AccountsConsistent_example :
    AccountsConsistent (run_account hash same_database (some 9) (make two_accounts) busy_db).1
run_account-AccountsConsistent_example =
    run_account-AccountsConsistent hash same_database (some 9) (make two_accounts) busy_db
      busy_db-AccountsConsistent busy_db-AccountsConsistent

abbrev check : Text → Text → Bool
check stored password = text_eq stored (hash password)

abbrev login_at : ℕ → Text → Text → LoginRequest
login_at now login_id password = record {
  now = now;
  fresh = codes "fresh";
  ip = codes "10.0.0.1";
  user_agent = codes "curl";
  login_id = login_id;
  password = password;
  next_arg = none;
  next_form = none;
}

abbrev wrong_at : ℕ → LoginAttempt
wrong_at now = record {
  world = alone;
  online = true;
  request = login_at now (codes "owner") (codes "guess");
  session = cleared;
}

within :
    (now : ℕ)
    → 300 ≤ now
    → now < 300 + config.login_window_seconds
    → Within check config (codes "10.0.0.1") 300 (wrong_at now)
within now from to = record { from = from; to = to; stored = refl; others = λ k db. omega arith }

login_lockout_example :
    wrong_answers check config (codes "10.0.0.1") (wrong_at 300 ∷ wrong_at 400 ∷ []) busy_db ≤ 5
login_lockout_example =
    login_lockout check config (codes "10.0.0.1") 300 (wrong_at 300 ∷ wrong_at 400 ∷ []) busy_db
      (within 300 (omega arith) (omega arith), (within 400 (omega arith) (omega arith), tt))

abbrev one_account : AccountForm
one_account = record {
  login_id = codes " Taro ";
  password = codes "secret-word";
  bulk_accounts = [];
}

created_logs_in_example :
    (login check alone config true
      (login_at 300 (codes " Taro ") (codes "secret-word"))
      cleared
      (admin_accounts_create hash same_database (some 9) one_account busy_db).1).1
    ≡ start_admin_session 300
        (codes "fresh")
        Role.admin
        4
        (normalize_login_id (codes " Taro "))
        cleared
unfolding bulk_lines is_login_id normalize_login_id is_login_rate_limited
created_logs_in_example =
    created_logs_in hash check (λ p. text_eq_refl (hash p)) same_database config 9 one_account
      (login_at 300 (codes " Taro ") (codes "secret-word")) cleared busy_db refl refl (omega arith)
      refl refl refl refl

csrf_token_kept_example :
    (validate_csrf
        (get_csrf_token (codes "fresh") cleared).1
        (some (get_csrf_token (codes "fresh") cleared).0)
        none
      ≡ true)
    × (validate_csrf
          (start_admin_session 300
            (codes "later")
            Role.admin
            3
            (codes "owner")
            (get_csrf_token (codes "fresh") cleared).1)
          (some (get_csrf_token (codes "fresh") cleared).0)
          none
        ≡ true)
csrf_token_kept_example =
    csrf_token_kept (codes "fresh") (codes "later") 300 3 (codes "owner") Role.admin cleared refl

abbrev finish_request : Request
finish_request = record {
  method = codes "POST";
  path = codes "/admin/finish/1";
  host = codes "shop.example:443";
  url = codes "https://shop.example/admin/finish/1";
  is_secure = true;
  is_static = false;
  form_token = some (codes "token");
  header_token = none;
}

abbrev policy : HostPolicy
policy = record { allowed_hosts = codes "shop.example" ∷ []; force_https = true }

admin_write_has_token_example : validate_csrf session (some (codes "token")) none ≡ true
unfolding before_request is_authenticated_as
admin_write_has_token_example =
    admin_write_has_token policy config 300 301 true true Role.admin busy_db finish_request session
      (omega arith) refl refl (inr refl) refl refl

-- A backup that holds one of the owner's reservations.
abbrev bobs_backup : AccountBackup
bobs_backup = record {
  types = haircut ∷ [];
  reservations = bob ∷ [];
  types_name_owner = true;
  reservations_name_owner = true;
}

import_account-KeepsOthers_example :
    AfterImport (KeepsOthers 3 bobs_backup busy_db) (import_account_tables 3 bobs_backup busy_db)
import_account-KeepsOthers_example = import_account-KeepsOthers 3 bobs_backup busy_db

import_account_keeps_keys_example :
    AfterImport
      (λ db. IsConsistent db × TypesConsistent db)
      (import_account_tables 3 bobs_backup busy_db)
import_account_keeps_keys_example =
    import_account_keeps_keys 3 bobs_backup busy_db busy_db-IsConsistent busy_db-TypesConsistent
      ((refl, refl, refl), tt)

-- Every table but the settings has a sequence.
abbrev postgres : Table → SequenceReply
postgres app_settings = raised
postgres _ = sequence

abbrev full_upload : Upload FullBackup
full_upload = record {
  filename = codes "backup.json";
  content = backup (some (codes "full")) none none (some (export_tables busy_db));
}

admin_backup_import_unchanged_example :
    (admin_backup_import postgres Visitor.auditor full_upload session busy_db).2 ≡ busy_db
admin_backup_import_unchanged_example =
    admin_backup_import_unchanged postgres refl session busy_db Visitor.auditor full_upload

settings_refine_map_example :
    answers
      (write (codes "k") (codes "v") ∷ read (codes "k") [] ∷ read (codes "j") (codes "d") ∷ [])
      busy_db
    ≡ store_answers
        (write (codes "k") (codes "v") ∷ read (codes "k") [] ∷ read (codes "j") (codes "d") ∷ [])
        (λ key. lookup key busy_db.app_settings)
settings_refine_map_example =
    settings_refine_map
      (write (codes "k") (codes "v") ∷ read (codes "k") [] ∷ read (codes "j") (codes "d") ∷ [])
      busy_db

-- Two wait, and each run calls one.
auto_call_runs_serve_example :
    AllCalled
      (is_callable busy_db 3)
      busy_db.reservations
      (auto_call_runs 3 1 (300 ∷ 600 ∷ []) busy_db).reservations
unfolding callable_count
auto_call_runs_serve_example =
    auto_call_runs_serve 3 1 (300 ∷ 600 ∷ []) busy_db busy_db-IsConsistent (omega arith)

-- A bubble with a picture over http, and an API that refuses everything.
abbrev card : Message
card = flex (
    field (codes "type") (str (codes "flex")) (
      field (codes "contents")
        (dict (
          field (codes "type") (str (codes "bubble")) (
            field (codes "hero")
              (dict (field (codes "url") (str (codes "http://shop.example/1.png")) no_fields))
              no_fields)))
        no_fields))

abbrev refuse_all : Message → Delivery
refuse_all message = api_error (some 400)

send_reply_message_example :
    ((send_reply_message false refuse_all card).escapes ≡ false)
    × (length (send_reply_message false refuse_all card).tried ≤ 2)
    × All IsSecure (send_reply_message false refuse_all card).tried
send_reply_message_example = send_reply_message_lem refuse_all false card
