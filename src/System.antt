-- ===== src/System.antt =====
-- The program as a whole: which transactions there are, and which states they lead to. Those that a
-- handler lets in while it waits are again steps of the program.
pub mod Safety
pub mod History
pub mod Retired
use linebot.Prelude.{ℕ, ◌≤◌, ◌≡◌, All, Bool, Option, Text}
use linebot.Config.{Config}
use linebot.Database.Tables.{Database}
use linebot.Database.RateLimit.{RedisReply}
use linebot.Queue.WaitTime.{Clock}
use linebot.Queue.Calls.{expire_called_reservations}
use linebot.Queue.Batch.{World, process_queued_calls}
use linebot.Reserve.Message.{Env, Event, handle_message}
use linebot.Invariant.{IsTimed}
use linebot.Backup.Account.{AccountBackup, imported, import_account_tables}
use linebot.Backup.Full.Handlers.{Visitor, admin_delete_all_reservations}
use linebot.Admin.Reservations.{
  CallWorld, admin_call, admin_finish, admin_cancel, admin_status_update,
}

mutual
  pub data Step : Database → Database → Type 0 where
    message :
        (env : Env) (redis : Option RedisReply) (online : Bool) (event : Event) (db : Database)
        → ((k : ℕ) (d : Database) → Reach d (env.chance.others k d))
        → Step db (handle_message env redis online event db).1
    batch :
        (config : Config) (world : World) (clock : Clock) (db : Database)
        → ((k : ℕ) (d : Database) → Reach d (world.meanwhile k d))
        → Step db (process_queued_calls config world clock db).1
    expire :
        (config : Config) (online : Bool) (now : ℕ) (db : Database)
        → Step db (expire_called_reservations config online now db).db
    call :
        (world : CallWorld) (now : ℕ) (admin : Option ℕ) (res_id : ℕ) (db : Database)
        → ((d : Database) → Reach d (world.meanwhile d))
        → Step db (admin_call world now admin res_id db).1
    finish :
        (now : ℕ) (admin : Option ℕ) (res_id : ℕ) (db : Database)
        → Step db (admin_finish now admin res_id db).1
    cancel :
        (now : ℕ) (admin : Option ℕ) (res_id : ℕ) (db : Database)
        → Step db (admin_cancel now admin res_id db).1
    edit :
        (now : ℕ) (admin : Option ℕ) (res_id : ℕ) (status : Text) (db : Database)
        → Step db (admin_status_update now admin res_id status db).1
    -- An account's backup is restored. Its reservations have the times of their statuses, as those that an
    -- export writes.
    restore :
        (owner : ℕ) (backup : AccountBackup) (db db' : Database)
        → All IsTimed backup.reservations
        → import_account_tables owner backup db ≡ imported db'
        → Step db db'
    -- All reservations are deleted.
    delete_all :
        (enabled : Bool) (visitor : Visitor) (confirmation : Text) (db : Database)
        → Step db (admin_delete_all_reservations enabled visitor confirmation db).1
    -- The transactions on the types, accounts, settings, sessions and logs, and those that are rolled back or
    -- take back their own row: the reservations stay. They may draw an id.
    elsewhere :
        (db db' : Database)
        → db'.reservations ≡ db.reservations
        → db.next_reservation_id ≤ db'.next_reservation_id
        → Step db db'

  pub data Reach : Database → Database → Type 0 where
    stay : (db : Database) → Reach db db
    then_step : (a b c : Database) → Reach a b → Step b c → Reach a c
