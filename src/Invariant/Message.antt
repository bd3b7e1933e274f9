-- ===== src/Invariant/Message.antt =====
-- The handler of the webhook's events (blueprints/line_routes.py) keeps the invariant.
use linebot.Prelude.{ℕ, Bool, Option}
use linebot.Database.Tables.{Database}
use linebot.Database.RateLimit.{RedisReply}
use linebot.Reserve.Message.{Env, Event, handle_message}
use linebot.Reserve.Message.Keeps.{handle_message-Keeps}
use linebot.Invariant.{IsConsistent}
use linebot.Invariant.Batch.{cancel-IsConsistent, same_rows-IsConsistent}
use linebot.Invariant.Reserve.{allocation_attempts-AttemptedKeeps}

-- Any event, from any user, keeps the table well formed, whatever other transactions commit between
-- the attempts, as long as they keep it too.
pub handle_message-IsConsistent :
    (env : Env)
    → ((k : ℕ) (db : Database) → IsConsistent db → IsConsistent (env.chance.others k db))
    → (redis : Option RedisReply) (online : Bool) (event : Event) (db : Database) → IsConsistent db
    → IsConsistent (handle_message env redis online event db).1
handle_message-IsConsistent env kept =
    handle_message-Keeps IsConsistent same_rows-IsConsistent env (cancel-IsConsistent env.clock.now)
      (λ user type_id owner db.
        allocation_attempts-AttemptedKeeps env.clock.now user type_id owner env.chance kept 10 0 db)
