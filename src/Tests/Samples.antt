-- ===== src/Tests/Samples.antt =====
-- One owner with one type, and three users.
use linebot.Prelude.{
  ℕ, true, false, Option, none, some, [], ◌∷◌, Text, codes, ◌≢◌, ◌≡◌, refl, arith,
}
use linebot.Config.{Config}
use linebot.Database.Tables.{
  Status, Reservation, ReservationType, Role, AdminAccount, Database, call_origin_auto,
}
use linebot.Queue.WaitTime.{Clock}
use linebot.Queue.Batch.{World}
use linebot.Reserve.Insert.{Chance}
use linebot.Reserve.Message.{Env, Event}
use linebot.Admin.Reservations.{CallWorld}
use linebot.Auth.Session.{Session}
use linebot.Invariant.{Distinct, clash_active, clash_number, IsConsistent}

abbrev pub config : Config
config = record {
  load_test_mode = false;
  session_idle_timeout_seconds = 1800;
  max_type_name_length = 50;
  max_user_message_chars = 500;
  max_type_price = 1000000;
  user_request_rate_limit_count = 2;
  user_request_rate_limit_window_seconds = 10;
  call_timeout_minutes = 15;
  line_push_max_retries = 3;
  line_push_retry_base_seconds = 1;
  line_push_retry_max_seconds = 8;
  login_max_attempts = 5;
  login_window_seconds = 600;
  public_base_url = [];
  max_type_image_upload_bytes = 1048576;
}

abbrev pub owner : AdminAccount
owner = record {
  id = 3;
  login_id = codes "owner";
  password_hash = codes "hash";
  role = Role.admin;
  active = true;
  accepting_new = true;
  auto_call_count = 1;
}

abbrev pub haircut : ReservationType
haircut = record {
  id = 1;
  name = codes "cut";
  owner_admin_id = some 3;
  accepting = true;
  flavor_text = [];
  image_mime_type = [];
  image_version = 0;
  price = some 4000;
}

abbrev pub row : ℕ → Text → Status → Option ℕ → Option Text → ℕ → Reservation
row id user status called_at origin number = record {
  id = id;
  user_id = user;
  message = codes "予約";
  status = status;
  created_at = some 100;
  call_origin = origin;
  owner_admin_id = some 3;
  reservation_no = some number;
  type_id = some 1;
  called_at = called_at;
  completed_at = none;
}

abbrev pub ann : Reservation
ann = row 1 (codes "ann") Status.called (some 200) (some call_origin_auto) 1530

abbrev pub bob : Reservation
bob = row 2 (codes "bob") Status.waiting none none 2530

abbrev pub eve : Reservation
eve = row 3 (codes "eve") Status.waiting none none 3530

-- Before the first reservation.
abbrev pub empty_db : Database
empty_db = record {
  reservations = [];
  next_reservation_id = 1;
  reservation_types = haircut ∷ [];
  next_type_id = 2;
  admin_accounts = owner ∷ [];
  next_account_id = 4;
  app_settings = [];
  reservation_number_sequences = record { owner_admin_id = 3; next_sequence = 1 } ∷ [];
  webhook_events = [];
  login_attempt_records = [];
  user_request_records = [];
  admin_login_logs = [];
}

abbrev pub busy_db : Database
busy_db = record empty_db {
  reservations = ann ∷ bob ∷ eve ∷ [];
  next_reservation_id = 4;
  reservation_number_sequences = record { owner_admin_id = 3; next_sequence = 4 } ∷ [];
}

apart :
    {r s : Reservation}
    → r.id ≢ s.id
    → clash_active r s ≡ false
    → clash_number r s ≡ false
    → Distinct r s
apart i a n = record { ids = i; actives = a; numbers = n }

pub busy_db-IsConsistent : IsConsistent busy_db
busy_db-IsConsistent = record {
  distinct = (
    (apart (omega arith) refl refl, (apart (omega arith) refl refl, tt)),
    ((apart (omega arith) refl refl, tt), (tt, tt)),
  );
  below = (omega arith, (omega arith, (omega arith, tt)));
  timed = ((refl, refl, refl), ((refl, refl, refl), ((refl, refl, refl), tt)));
}

abbrev pub clock : Clock
clock = record { now = 300; tm_hour = 11; tm_min = 35; minute_label = codes "2026-01-01 11:35" }

-- Each attempt draws the digit 5, and no other transaction comes between.
abbrev pub chance : Chance
chance = record { y_digit = λ _. 5; others = λ _ db. db }

abbrev pub env : Env
env = record { config = config; clock = clock; url_root = none; chance = chance }

abbrev pub reserve_event : Event
reserve_event = record {
  webhook_event_id = some (codes "e1");
  user_id = codes "ann";
  text = codes "予約 cut";
}

abbrev pub call_event : Text → Text → Event
call_event user text = record { webhook_event_id = none; user_id = user; text = text }

-- No message is delivered.
abbrev pub silent : World
silent = record { delivers = λ _. false; online = λ _. true; meanwhile = λ k db. db }

abbrev pub silent_call : CallWorld
silent_call = record { delivers = λ _. false; meanwhile = λ db. db }

abbrev pub session : Session
session = record {
  logged_in = true;
  admin_role = some Role.admin;
  admin_account_id = some 3;
  admin_login_id = some (codes "owner");
  issued_at = some 100;
  last_activity = some 200;
  csrf_token = some (codes "token");
}
