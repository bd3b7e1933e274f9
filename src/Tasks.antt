-- ===== src/Tasks.antt =====
-- main.py: the routes that other programs call, `process_call_queue_task`, `loadtest_db` and `readyz`.
pub mod Loadtest
use linebot.Prelude.{
  ℕ, suc, Bool, true, false, not, ◌&&◌, ◌||◌, Option, none, some, List, [], ◌∷◌, ◌++◌, Text, codes,
  text_eq, is_empty, strip, any, select_where, ◌==◌, if◌then◌else◌,
}
use linebot.Config.{Config}
use linebot.Database.Tables.{Status, Reservation, Database}
use linebot.Queue.WaitTime.{Clock}
use linebot.Queue.Batch.{World, BatchReport, process_queued_calls}
use linebot.Auth.Request.{validate_batch_runner_token}

-- The HTTP status, with the report of a batch where there is one. An uncaught exception answers 500.
abbrev pub Answer : Type 0
Answer = ℕ × Option BatchReport

abbrev reported : Option BatchReport → Answer
reported none = (500, none)
reported (some report) = (200, some report)

abbrev task_answer : Option BatchReport × Database → Answer × Database
task_answer (report, db) = (reported report, db)

-- `runner_token` is BATCH_CALL_RUNNER_TOKEN; the headers are Authorization and X-Task-Token.
unfoldable pub process_call_queue_task :
    Config → World → Text → Option Text → Option Text → Clock → Database → Answer × Database
unfolding validate_batch_runner_token process_queued_calls
process_call_queue_task config world runner_token authorization task_token clock db =
    if is_empty runner_token
    then ((503, none), db)
    else if not (validate_batch_runner_token runner_token authorization task_token)
    then ((403, none), db)
    else task_answer (process_queued_calls config world clock db)

-- INSERT INTO reservations (user_id, message, status) VALUES (%s, 'load test', 'cancelled')
abbrev pub load_test_row : ℕ → ℕ → Text → Reservation
load_test_row id now user = record {
  id = id;
  user_id = user;
  message = codes "load test";
  status = Status.cancelled;
  created_at = some now;
  call_origin = none;
  owner_admin_id = none;
  reservation_no = none;
  type_id = none;
  called_at = none;
  completed_at = none;
}

abbrev pub inserted : ℕ → Text → Database → Database
inserted now user db = record db {
  reservations = db.reservations ++ load_test_row db.next_reservation_id now user ∷ [];
  next_reservation_id = suc db.next_reservation_id;
}

abbrev pub deleted : ℕ → Database → Database
deleted id db = record db { reservations = select_where (λ r. not (r.id == id)) db.reservations }

-- WHERE id = %s AND user_id = %s
abbrev pub is_test_row : ℕ → Text → Reservation → Bool
is_test_row id user r = r.id == id && text_eq r.user_id user

-- The one transaction, with the SELECT that must find the row; the RuntimeError rolls it back.
abbrev pub write_and_delete : ℕ → Text → Database → ℕ × Database
write_and_delete now user db =
    if any (is_test_row db.next_reservation_id user) (inserted now user db).reservations
    then (200, deleted db.next_reservation_id (inserted now user db))
    else (503, record db { next_reservation_id = suc db.next_reservation_id })

abbrev stripped : Option Text → Text
stripped none = []
stripped (some s) = strip s

-- `token` is LOAD_TEST_TOKEN, `user` the new name of the load test's user.
unfoldable pub loadtest_db : Config → Text → Option Text → Bool → ℕ → Text → Database → ℕ × Database
unfolding strip
loadtest_db config token header online now user db =
    if not config.load_test_mode
    then (404, db)
    else if is_empty token || not (text_eq (stripped header) token)
    then (403, db)
    else if online
    then write_and_delete now user db
    else (503, db)

abbrev pub readyz : Bool → ℕ
readyz online = if online then 200 else 503
