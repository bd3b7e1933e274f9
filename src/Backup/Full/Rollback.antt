-- ===== src/Backup/Full/Rollback.antt =====
-- What is left of the restoration of all tables.
use linebot.Prelude.{◌≡◌, refl, Option, none, some, List, [], ◌∷◌, if_cases, arith}
use linebot.Database.Tables.{Database}
use linebot.Auth.Session.{Session}
use linebot.Backup.Full.{
  FullBackup, Table, app_settings, admin_login_logs, login_attempt_records, SequenceReply, raised,
  Transaction, running, failed, import_order, import_tables, reset_sequence, reset_sequences,
}
use linebot.Backup.Full.Handlers.{
  Parsed, unreadable, shapeless, backup, Upload, Visitor, Outcome, checked_file, restored,
  import_complete, import_content, admin_backup_import, is_auditor, turned_away, is_full_scope,
  refused_scope,
}

module _ (reply : Table → SequenceReply) (no_id : reply app_settings ≡ raised) where
  after_failure : (table : List Table) → reset_sequences reply table failed ≡ failed
  unfolding reset_sequences reset_sequence
  after_failure [] = refl
  after_failure (table ∷ rest) = after_failure rest

  settings_fail : (tx : Transaction) → reset_sequence reply app_settings tx ≡ failed
  unfolding reset_sequence
  settings_fail failed = refl
  settings_fail (running db) = rw no_id refl

  resets_fail : (tx : Transaction) → reset_sequences reply import_order tx ≡ failed
  unfolding reset_sequences
  resets_fail tx =
      rw (settings_fail _, after_failure (admin_login_logs ∷ login_attempt_records ∷ [])) refl

  abbrev Same : Database → Outcome → Type 0
  Same db outcome = outcome.2 ≡ db

  module _ (session : Session) (db : Database) where
    restored-Same : (o : Option Database) → Same db (restored reply session db o)
    restored-Same none = refl
    restored-Same (some after) = rw (resets_fail (running after)) refl

    complete-Same : (o : Option FullBackup) → Same db (import_complete reply session db o)
    complete-Same none = refl
    complete-Same (some full) = restored-Same (import_tables full import_order db)

    content-Same : (p : Parsed FullBackup) → Same db (import_content reply session db p)
    content-Same unreadable = refl
    content-Same shapeless = refl
    content-Same (backup scope owner login_id tables) =
        if_cases (Same db) (is_full_scope scope) (import_complete reply session db tables)
          (refused_scope, session, db) (λ _. complete-Same tables) (λ _. refl)

    checked-Same :
        (upload : Upload FullBackup) (next : Outcome)
        → Same db next
        → Same db (checked_file session db upload next)
    checked-Same upload next h = ground (arith, h)

    -- Where the database refuses to name a sequence for the column `id` that `app_settings` does not have,
    -- the restoration of all tables restores nothing, whatever the backup: the caught error makes the commit
    -- a rollback.
    pub admin_backup_import_unchanged :
        (visitor : Visitor) (upload : Upload FullBackup)
        → (admin_backup_import reply visitor upload session db).2 ≡ db
    unfolding admin_backup_import
    admin_backup_import_unchanged visitor upload =
        if_cases (Same db) (is_auditor visitor)
          (checked_file session db upload (import_content reply session db upload.content))
          (turned_away visitor, session, db)
          (λ _.
            checked-Same upload (import_content reply session db upload.content)
              (content-Same upload.content))
          (λ _. refl)
