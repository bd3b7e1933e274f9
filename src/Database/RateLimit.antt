-- ===== src/Database/RateLimit.antt =====
-- database.py: the login and request rate limits, and the cleaning of their tables.
-- `online` says whether the database answers; where it does not, each function takes its `except`.
pub mod Bound
use linebot.Prelude.{
  ℕ, ◌+◌, ◌*◌, Bool, true, false, not, ◌&&◌, Option, none, some, List, [], ◌∷◌, ◌++◌, Text, text_eq,
  is_empty, ltb, leb, count_where, select_where, if◌then◌else◌,
}
use linebot.Config.{Config}
use linebot.Database.Tables.{RateRecord, Database}

abbrev pub day_seconds : ℕ
day_seconds = 24 * 60 * 60

-- The rows of a subject after `now - window`.
unfoldable pub is_recent : ℕ → ℕ → Text → RateRecord → Bool
is_recent now window subject r = text_eq r.subject subject && ltb now (r.at + window)

abbrev is_kept : ℕ → RateRecord → Bool
is_kept now r = not (ltb (r.at + day_seconds) now)

unfoldable pub cleanup_rate_limit_records : Bool → ℕ → Database → Database
cleanup_rate_limit_records false now db = db
cleanup_rate_limit_records true now db = record db {
  login_attempt_records = select_where (is_kept now) db.login_attempt_records;
  user_request_records = select_where (is_kept now) db.user_request_records;
}

unfoldable pub is_login_rate_limited : Config → Bool → ℕ → Text → Database → Bool
unfolding is_recent
is_login_rate_limited config false now ip db = true
is_login_rate_limited config true now ip db =
    leb config.login_max_attempts
      (count_where (is_recent now config.login_window_seconds ip) db.login_attempt_records)

unfoldable pub record_login_failure : Bool → ℕ → Text → Database → Database
record_login_failure false now ip db = db
record_login_failure true now ip db = record db {
  login_attempt_records = db.login_attempt_records ++ record { subject = ip; at = now } ∷ [];
}

-- What the Redis client answers to the counting script: its count, or an exception.
pub data RedisReply : Type 0 where
  count : ℕ → RedisReply
  unavailable : RedisReply

redis_limited : Config → RedisReply → Bool
redis_limited config (count n) = ltb config.user_request_rate_limit_count n
redis_limited config unavailable = true

db_limited : Config → Bool → ℕ → Text → Database → Bool × Database
unfolding is_recent
db_limited config false now user_id db = (true, db)
db_limited config true now user_id db =
    if leb config.user_request_rate_limit_count (
      count_where (is_recent now config.user_request_rate_limit_window_seconds user_id)
        db.user_request_records)
    then (true, db)
    else (
      false,
      record db {
        user_request_records =
            db.user_request_records ++ record { subject = user_id; at = now } ∷ [];
      },
    )

-- `redis` is `none` where no client is configured.
unfoldable pub is_user_request_rate_limited :
    Config → Option RedisReply → Bool → ℕ → Text → Database → Bool × Database
unfolding redis_limited db_limited
is_user_request_rate_limited config redis online now [] db = (true, db)
is_user_request_rate_limited config (some reply) online now (c ∷ cs) db =
    (redis_limited config reply, db)
is_user_request_rate_limited config none online now (c ∷ cs) db =
    db_limited config online now (c ∷ cs) db
