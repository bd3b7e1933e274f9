-- ===== src/Lib.antt =====
-- A model of LINEBOT, a waiting list that visitors join by messages in LINE and that admins work through
-- on web pages, and proofs about it.
--
-- The program. Visitors write to a LINE account; blueprints/line_routes.py answers: it makes a reservation
-- of a type, cancels it, or tells how many people are ahead. A scheduler runs
-- services/queue_service.py `process_queued_calls` every minute: at midnight it cancels what is left, else
-- it cancels calls that were not answered in time; each five minutes it calls, for each admin, as many of
-- the oldest waiting reservations as the admin set. Admins also call, finish, cancel and edit reservations by
-- hand (blueprints/admin_routes.py). All of these keep their state in PostgreSQL (database.py) and meet
-- only there. Messages go out through services/line_service.py; auth.py guards the pages.
--
-- The files.
-- - Config, Validators: config.py `parse_int_env` and the settings that are read; validators.py.
-- - Database: database.py. Tables has a record for each table's rows and `Database` for all of them, Rows
--   the joins, Settings `get_setting` and its like, RateLimit the two limits, Webhook the record of handled
--   events, Runtime the switches and summaries, Schema what `ensure_database_schema` does to the rows.
-- - Queue: services/queue_service.py. WaitTime has the estimates, Number `allocate_admin_reservation_no` and
--   `fmt_no`, Calls the statements on calls, Batch `process_queued_calls`.
-- - Reserve: blueprints/line_routes.py. Insert has the INSERT with its unique indexes and the ten attempts,
--   Reply the texts, Message `process_reservation` and `handle_message`.
-- - Admin: blueprints/admin_routes.py. Reservations has the four handlers that change a reservation, Accounts
--   those on accounts (Accounts/Input reads the form of `admin_accounts_create`), Types those on the types
--   that can be reserved, Switches those on an admin's own settings, Broadcast `admin_broadcast_send`.
-- - Line: services/line_service.py. Push has `send_push_message` and `send_broadcast_message`, Json the values
--   of Python that messages are made of, Reply `send_reply_message`, Image `save_type_image_upload`.
-- - Auth: auth.py and main.py. Session and Request have auth.py's checks, Login main.py `login`, Guard what
--   main.py runs before each request and the headers that it adds after it.
-- - Backup: blueprints/backup_routes.py. Account has the backup of one account, Full that of all tables, with
--   the handlers. Tasks: main.py's routes for the scheduler and the load test.
-- - Invariant: the well-formedness of the reservations, and that each operation keeps it.
-- - System: all transactions as one step relation, and what holds in every state that it reaches: Safety
--   what a state is like, History and Retired what becomes of a reservation.
-- - Tests: a small state, runs of the code, and the theorems applied to it.
-- A child module that is named after what it proves stands below the code that it is about.
--
-- How state is modelled. A table is the list of its rows, a transaction a function from `Database` to its
-- answer and the next `Database`. ORDER BY is an insertion sort, a unique index a test before the row is
-- written, a SERIAL a counter that no rollback sets back. Text is a list of code points; `int` and `isdigit`
-- know the ASCII digits only, without underscores. A time is a number of seconds. `online` is false where the
-- database fails under a function that catches the exception.
--
-- Interleaving. `Chance.others`, `World.meanwhile`, `CallWorld.meanwhile` and `LoginWorld.meanwhile` are what other
-- transactions commit where the code is between two of its own: before each attempt at a number, between the
-- steps of the batch, while messages are sent, and between the check, the query and the records of a login. The
-- owners' statements of one batch share a transaction. Row locks and SKIP LOCKED are not modelled: one UPDATE is one step.
--
-- Loops. The attempts at a number run on fuel 10, as the code's range, and the retries of a push message
-- on LINE_PUSH_MAX_RETRIES, likewise. `decimal` has one more fuel than the number, which has no more digits.
--
-- Parameters. What Redis answers, what the Messaging API does, the random digits, the clock, the fresh token
-- of a session, the hashing of passwords (Werkzeug), pictures and the parts of file names (Pillow, Werkzeug),
-- and what PostgreSQL knows of a table's sequence are arguments.
--
-- Backups. A backup is the rows that its JSON stands for, each with every column of its table, which is what
-- an export writes, but that an account's may be without the owner's column; how values are written as JSON and how columns are named is left out. A statement that
-- fails leaves its transaction failed, and the commit of such a transaction is a rollback.
--
-- Not modelled: the pages and exports, which only read; the layout of Flex
-- messages; the signature check of the webhook, which is the SDK's; the log; connection pooling; the bytes of
-- an image in its table; `isdigit` on digits outside ASCII, and tokens outside ASCII, which `compare_digest`
-- refuses; the IntegrityErrors of migrations; and
-- `_try_allocate_with_seq`, which nothing calls. The statements of a start (Database.Schema) are no steps of
-- System, which is the program while it runs. The restoration of an account and the deletion of all
-- reservations are, the former for backups whose reservations have the times of their statuses; the restoration
-- of all tables changes nothing, by its rollback. What the other handlers do is the step `elsewhere`, which may
-- draw an id, as `loadtest_db` does.
pub mod Prelude
pub mod Config
pub mod Database
pub mod Queue
pub mod Validators
pub mod Reserve
pub mod Admin
pub mod Invariant
pub mod Line
pub mod Auth
pub mod Backup
pub mod Tasks
pub mod System
pub mod Tests
