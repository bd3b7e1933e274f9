-- ===== src/Tests/Components.antt =====
-- The theorems on the other parts at the samples.
use linebot.Prelude.{
  ℕ, ◌%◌, ◌≤◌, ◌≡◌, refl, true, false, not, ◌&&◌, none, some, [], ◌∷◌, codes, arith, All, length,
  count_where, leb, starts_with, text_eq, ◌⊎◌, all_digits, digits_value, if◌then◌else◌,
}
use linebot.Database.Tables.{Status, Role, Database, is_active}
use linebot.Database.Webhook.{is_claimed, claim_webhook_event, release_webhook_event}
use linebot.Database.Webhook.Once.{claim_once, release_reopens}
use linebot.Database.Schema.{ensure_number_sequences}
use linebot.Database.Schema.Restart.{restart_resets_sequence}
use linebot.Queue.Number.{get_management_no, fmt_no}
use linebot.Queue.Number.Sequence.{current_sequence, ticket_sequence}
use linebot.Queue.Number.Format.{fmt_no_round_trip}
use linebot.Queue.Calls.{cancel_active_reservations_without_notification}
use linebot.Queue.Calls.Sweep.{cancel_active_reservations_without_notification_lem}
use linebot.Line.Push.{Attempt, done, error, send_attempts}
use linebot.Line.Push.Retries.{Bounded, Ended, send_attempts_lem}
use linebot.Auth.Session.{is_role, is_authenticated_as}
use linebot.Auth.Session.Expiry.{IsLive, Checked, is_authenticated_as_lem}
use linebot.Auth.Request.{sanitize_next_path}
use linebot.Auth.Request.Path.{sanitize_next_path_lem}
use linebot.Prelude.{strip}
use linebot.Prelude.{isdigit, Bool}
use linebot.Database.Tables.{AdminAccount}
use linebot.Database.Rows.{account_of}
use linebot.Admin.Accounts.{
  get_active_admin_count, admin_accounts_toggle_active, admin_accounts_delete,
}
use linebot.Admin.Accounts.Actor.{admin_accounts_actor}
use linebot.Admin.Accounts.Inactive.{is_last_audit-inactive}
use linebot.Admin.Switches.{admin_management_no}
use linebot.Admin.Switches.Digit.{admin_management_no_lem}
use linebot.Tests.Samples.{owner}
use linebot.Config.{parse_int_env}
use linebot.Config.Bounds.{parse_int_env_lem}
use linebot.Tests.Samples.{config, row, busy_db, session}

-- The first push is refused with 503 and the second is accepted.
abbrev flaky : ℕ → Attempt
flaky attempt = if leb attempt 1 then error (some 503) else done

send_attempts_example :
    Bounded config 3 (send_attempts config flaky 3 1)
    × ((k : ℕ) × (k ≡ (send_attempts config flaky 3 1).calls)
        × Ended config flaky k (send_attempts config flaky 3 1).success)
send_attempts_example = send_attempts_lem config flaky (omega arith)

claim_once_example :
    ((claim_webhook_event (some (codes "e1")) busy_db).0 ≡ not (is_claimed (codes "e1") busy_db))
    × (is_claimed (codes "e1") (claim_webhook_event (some (codes "e1")) busy_db).1 ≡ true)
    × (claim_webhook_event (some (codes "e1")) (claim_webhook_event (some (codes "e1")) busy_db).1
        ≡ (false, (claim_webhook_event (some (codes "e1")) busy_db).1))
claim_once_example = claim_once (codes "e1") busy_db refl

release_reopens_example :
    (is_claimed (codes "e1") (release_webhook_event (some (codes "e1")) busy_db) ≡ false)
    × ((claim_webhook_event
          (some (codes "e1"))
          (release_webhook_event (some (codes "e1")) busy_db)).0
        ≡ true)
    × (is_claimed (codes "e2") (release_webhook_event (some (codes "e1")) busy_db)
        ≡ (not (text_eq (codes "e1") (codes "e2")) && is_claimed (codes "e2") busy_db))
release_reopens_example = release_reopens (codes "e1") (codes "e2") busy_db refl

is_authenticated_as_example :
    Checked
      ((true ≡ true)
        × (is_role Role.admin session.admin_role ≡ true)
        × IsLive config 300 true Role.admin busy_db (some 3) (some 200))
      true
      300
      session
      (is_authenticated_as config 300 true Role.admin true busy_db session)
is_authenticated_as_example =
    is_authenticated_as_lem config 300 true Role.admin true busy_db session

cancel_active_reservations_example :
    All
      (λ r. is_active r.status ≡ false)
      (cancel_active_reservations_without_notification true 300 busy_db).1.reservations
    × ((cancel_active_reservations_without_notification true 300 busy_db).0
        ≡ count_where (λ r. is_active r.status) busy_db.reservations)
cancel_active_reservations_example = cancel_active_reservations_without_notification_lem 300 busy_db

abbrev worn_db : Database
worn_db = record busy_db { reservations = row 1 (codes "ann") Status.done none none 998520 ∷ [] }

restart_resets_sequence_example :
    ticket_sequence
      (current_sequence 3 (ensure_number_sequences worn_db).reservation_number_sequences)
    ≡ 1
restart_resets_sequence_example = restart_resets_sequence 3 worn_db refl refl

fmt_no_round_trip_example :
    (length (fmt_no 4520) ≡ 6)
    × (all_digits (fmt_no 4520) ≡ true)
    × (digits_value 0 (fmt_no 4520) ≡ 4520)
fmt_no_round_trip_example = fmt_no_round_trip 4520 (omega arith)

sanitize_next_path_example :
    (starts_with (codes "/admin") (codes "/") ≡ true)
    × (starts_with (codes "/admin") (codes "//") ≡ false)
unfolding sanitize_next_path
sanitize_next_path_example = sanitize_next_path_lem (some (codes " /admin")) (codes "/admin") refl

parse_int_env_example :
    (1 ≤ parse_int_env (some (codes " 99 ")) 3 1 10)
    × (parse_int_env (some (codes " 99 ")) 3 1 10 ≤ 10)
parse_int_env_example = parse_int_env_lem (some (codes " 99 ")) 3 1 10 (omega arith) (omega arith)

-- Two audit admins, of whom one is active.
abbrev auditor : ℕ → Bool → AdminAccount
auditor id active = record owner { id = id; role = Role.audit_admin; active = active }

abbrev audited_db : Database
audited_db = record busy_db { admin_accounts = owner ∷ auditor 4 true ∷ auditor 5 false ∷ [] }

admin_accounts_actor_example :
    (account_of (admin_accounts_toggle_active (some 4) 5 audited_db).1 4 ≡ account_of audited_db 4)
    × (account_of (admin_accounts_delete (some 4) 5 audited_db).1 4 ≡ account_of audited_db 4)
admin_accounts_actor_example = admin_accounts_actor 4 5 audited_db

is_last_audit-inactive_example : (auditor 5 false).active ≡ false
unfolding account_of get_active_admin_count
is_last_audit-inactive_example =
    is_last_audit-inactive 4 5 audited_db (auditor 4 true) (auditor 5 false) refl refl refl refl
      refl

admin_management_no_example :
    ((isdigit (strip (codes " 17 ")) ≡ true)
      × (get_management_no (some 3) (admin_management_no (some 3) (codes " 17 ") busy_db).1
          ≡ digits_value 0 (strip (codes " 17 ")) % 10))
    ⊎ ((isdigit (strip (codes " 17 ")) ≡ false)
        × ((admin_management_no (some 3) (codes " 17 ") busy_db).1 ≡ busy_db))
admin_management_no_example = admin_management_no_lem 3 (codes " 17 ") busy_db
