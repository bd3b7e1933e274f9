-- ===== src/Reserve/Message.antt =====
-- blueprints/line_routes.py: `process_reservation` and `handle_message`.
pub mod Cancel
pub mod Admission
pub mod Keeps
use linebot.Prelude.{
  ℕ, Bool, true, false, not, ◌&&◌, ◌||◌, Option, none, some, List, [], ◌∷◌, ◌++◌, Text, codes,
  strip, is_empty, text_eq, starts_with, drop, take, length, ltb, order_by, find_where,
  update_where, map, ◌==◌, decimal, if◌then◌else◌,
}
use linebot.Config.{Config}
use linebot.Validators.{normalize_type_name, validate_type_name}
use linebot.Database.Tables.{Status, Reservation, ReservationType, AdminAccount, Database}
use linebot.Database.Rows.{account_of, is_active_of, latest_where, display_no}
use linebot.Database.RateLimit.{RedisReply, is_user_request_rate_limited}
use linebot.Database.Webhook.{claim_webhook_event, release_webhook_event}
use linebot.Database.Runtime.{is_accepting_new, get_accepting_type_names}
use linebot.Queue.WaitTime.{Clock, refresh_wait_time_estimate}
use linebot.Queue.Number.{fmt_no}
use linebot.Queue.Calls.{cancel_row}
use linebot.Reserve.Insert.{
  Constraint, uq_reservations_user_active, Chance, Attempted, reserved, exhausted, conflict, failed,
  allocation_attempts,
}
use linebot.Reserve.Reply.{
  Notice, TypeCard, Reply, notice, carousel, plain, build_type_image_url, existing_reply,
  wait_reply, reserved_reply,
}

-- A handler answers, or an IntegrityError leaves it.
pub data Outcome : Type 0 where
  replied : Reply → Outcome
  raised : Constraint → Outcome

pub record Env : Type 0 where
  pub config : Config
  pub clock : Clock
  pub url_root : Option Text
  pub chance : Chance

abbrev pub stopped_reply : Reply
stopped_reply = plain (codes "予約停止中") (codes "現在、新規の予約受付は停止中です。")

-- " / ".join(names)
abbrev join_slash : List Text → Text
join_slash [] = []
join_slash (n ∷ []) = n
join_slash (n ∷ m ∷ rest) = n ++ codes " / " ++ join_slash (m ∷ rest)

abbrev available : List Text → Text
available [] = []
available (n ∷ names) = codes "\n利用可能: " ++ join_slash (n ∷ names)

abbrev unknown_type_reply : Text → List Text → Reply
unknown_type_reply name [] = plain (codes "種類がありません") (codes "予約の種類がまだ登録されていません。管理画面で追加してください。")
unknown_type_reply name (n ∷ names) =
    plain (codes "種類がありません") (codes "指定した種類「" ++ name ++ codes "」は存在しません。" ++ available (n ∷ names))

abbrev closed_type_reply : Text → List Text → Reply
closed_type_reply name names =
    plain (codes "受付停止") (codes "「" ++ name ++ codes "」の新規受付は停止中です。" ++ available names)

abbrev pub owner_account : Option ℕ → Database → Option AdminAccount
owner_account none db = none
owner_account (some i) db = account_of db i

-- An owner that has no account, or no owner, does not close the type.
abbrev pub owner_accepts : Option AdminAccount → Bool
owner_accepts none = true
owner_accepts (some a) = a.accepting_new && a.active

abbrev login_of : Option AdminAccount → Option Text
login_of none = none
login_of (some a) = some a.login_id

-- After the conflict: the reservation that another transaction made, if it is still there.
abbrev pub conflict_reply : Text → Option Reservation → Database → Outcome × Database
conflict_reply user none db = (Outcome.raised uq_reservations_user_active, db)
conflict_reply user (some r) db = (Outcome.replied (existing_reply db r), db)

-- The rest of the handler once the attempts are over.
abbrev pub finish_reservation : Env → Text → ReservationType → ℕ → Attempted → Outcome × Database
finish_reservation env user t owner (reserved number id db) =
    let (_, db') = refresh_wait_time_estimate env.clock (some owner) db in
    (
      Outcome.replied (
          reserved_reply db' t (login_of (owner_account (some owner) db'))
            (build_type_image_url env.config.public_base_url env.url_root t.id
              (some t.image_version))
            owner number id),
      db',
    )
finish_reservation env user t owner (exhausted db) =
    (Outcome.replied (plain (codes "受付エラー") (codes "予約番号の発行に失敗しました。時間をおいて再度お試しください。")), db)
finish_reservation env user t owner (conflict db) =
    conflict_reply user (latest_where (is_active_of user) db.reservations) db
finish_reservation env user t owner (failed c db) = (Outcome.raised c, db)

abbrev pub reserve_unless :
    Env → Text → ReservationType → ℕ → Option Reservation → Database → Outcome × Database
reserve_unless env user t owner (some r) db = (Outcome.replied (existing_reply db r), db)
reserve_unless env user t owner none db =
    finish_reservation env user t owner
      (allocation_attempts env.chance env.clock.now user t.id owner 10 0 db)

-- A user who has an active reservation is told of it; else there are ten attempts to make one.
unfoldable pub reserve : Env → Text → ReservationType → ℕ → Database → Outcome × Database
reserve env user t owner db =
    reserve_unless env user t owner (latest_where (is_active_of user) db.reservations) db

-- The guards on the type that was named.
abbrev pub reserve_owned : Env → Text → ReservationType → Option ℕ → Database → Outcome × Database
reserve_owned env user t none db = (
  Outcome.replied (plain (codes "受付不可") (codes "この種類は管理者に割り当てられていないため予約できません。管理者へお問い合わせください。")),
  db,
)
reserve_owned env user t (some owner) db = reserve env user t owner db

unfoldable pub reserve_type : Env → Text → ReservationType → Database → Outcome × Database
unfolding account_of
reserve_type env user t db =
    if not (owner_accepts (owner_account t.owner_admin_id db))
    then (Outcome.replied stopped_reply, db)
    else if not t.accepting
    then (Outcome.replied (closed_type_reply t.name (get_accepting_type_names db)), db)
    else reserve_owned env user t t.owner_admin_id db

-- The carousel of the first ten types.
abbrev card_accepts : ReservationType → Option AdminAccount → Bool
card_accepts t none = false
card_accepts t (some a) = t.accepting && (a.accepting_new && a.active)

abbrev pub type_card : Env → Database → ReservationType → TypeCard
type_card env db t = record {
  name = t.name;
  effective_accepting = card_accepts t (owner_account t.owner_admin_id db);
  owner_login_id = login_of (owner_account t.owner_admin_id db);
  flavor_text = t.flavor_text;
  price = t.price;
  image_url =
      if is_empty t.image_mime_type
      then none
      else build_type_image_url env.config.public_base_url env.url_root t.id (some t.image_version);
}

abbrev types_reply : Env → Database → List ReservationType → Reply
types_reply env db [] = plain (codes "種類がありません") (codes "現在、予約可能な種類が登録されていません。")
types_reply env db (t ∷ ts) = Reply.carousel (map (type_card env db) (t ∷ ts))

unfoldable pub list_types : Env → Database → Reply
unfolding order_by
list_types env db = types_reply env db (take 10 (order_by (λ t. t.id) db.reservation_types))

abbrev pub reserve_named :
    Env → Text → Text → Option ReservationType → Database → Outcome × Database
reserve_named env user requested none db =
    (Outcome.replied (unknown_type_reply requested (get_accepting_type_names db)), db)
reserve_named env user requested (some t) db = reserve_type env user t db

-- "予約" and what follows it
unfoldable pub request_reservation : Env → Text → Text → Database → Outcome × Database
request_reservation env user normalized db =
    let requested = normalize_type_name (drop 2 normalized) in
    if not (is_accepting_new none db)
    then (Outcome.replied stopped_reply, db)
    else if is_empty requested
    then (Outcome.replied (list_types env db), db)
    else if not (validate_type_name env.config requested)
    then (
      Outcome.replied (
          plain (codes "種類名エラー") (
            codes "種類名は1〜"
            ++ decimal env.config.max_type_name_length
            ++ codes "文字で指定してください。\n例: 予約 相談")),
      db,
    )
    else reserve_named env user requested
        (find_where (λ t. text_eq t.name requested) db.reservation_types) db

abbrev pub cancel_found : Env → Option Reservation → Database → Outcome × Database
cancel_found env none db = (Outcome.replied (plain (codes "キャンセル") (codes "キャンセル対象の予約はありません。")), db)
cancel_found env (some r) db = (
  Outcome.replied (
      plain (codes "キャンセル完了") (codes "受付チケット番号 " ++ fmt_no (display_no r) ++ codes " をキャンセルしました。")),
  record db {
    reservations = update_where (λ s. s.id == r.id) (cancel_row env.clock.now) db.reservations;
  },
)

-- "キャンセル": the newest active reservation of the user is cancelled.
unfoldable pub cancel_reservation : Env → Text → Database → Outcome × Database
cancel_reservation env user db =
    cancel_found env (latest_where (is_active_of user) db.reservations) db

abbrev pub accepted_reply : Reply
accepted_reply = plain (codes "ご案内") (codes "メッセージを受け付けました")

unfoldable pub process_reservation : Env → Text → Text → Database → Outcome × Database
process_reservation env user user_message db =
    let normalized = strip user_message in
    if is_empty normalized
    then (Outcome.replied accepted_reply, db)
    else if ltb env.config.max_user_message_chars (length normalized)
    then (
      Outcome.replied (
          plain (codes "エラー") (
            codes "メッセージは" ++ decimal env.config.max_user_message_chars ++ codes "文字以内で送信してください。")),
      db,
    )
    else if starts_with normalized (codes "予約")
    then request_reservation env user normalized db
    else if text_eq normalized (codes "キャンセル")
    then cancel_reservation env user db
    else if text_eq normalized (codes "待ち時間")
    then (Outcome.replied (wait_reply db (latest_where (is_active_of user) db.reservations)), db)
    else (Outcome.replied accepted_reply, db)

abbrev ignored_reply_message : Text
ignored_reply_message = codes "https://ukweb.ikura.workers.dev/"

unfoldable pub should_ignore_reply_message : Text → Bool
unfolding strip
should_ignore_reply_message message =
    text_eq (strip message) ignored_reply_message || text_eq (strip message) (codes "使い方")

pub record Event : Type 0 where
  pub webhook_event_id : Option Text
  pub user_id : Text
  pub text : Text

abbrev pub limited_reply : Reply
limited_reply = plain (codes "しばらくお待ちください") (codes "リクエストが集中しています。少し時間をおいて再度お試しください。")

abbrev pub release_on_error : Option Text → Outcome × Database → Option Reply × Database
release_on_error event_id (Outcome.replied reply, db) = (some reply, db)
release_on_error event_id (Outcome.raised c, db) = (none, release_webhook_event event_id db)

abbrev pub handle_limited : Env → Event → Bool × Database → Option Reply × Database
handle_limited env event (true, db) = (some limited_reply, db)
handle_limited env event (false, db) =
    release_on_error event.webhook_event_id
      (process_reservation env event.user_id (strip event.text) db)

abbrev pub handle_claimed :
    Env → Option RedisReply → Bool → Event → Bool × Database → Option Reply × Database
handle_claimed env redis online event (false, db) = (none, db)
handle_claimed env redis online event (true, db) =
    if should_ignore_reply_message (strip event.text)
    then (none, db)
    else handle_limited env event
        (is_user_request_rate_limited env.config redis online env.clock.now event.user_id db)

-- The reply that is sent, if any, and the database after the event.
unfoldable pub handle_message :
    Env → Option RedisReply → Bool → Event → Database → Option Reply × Database
handle_message env redis online event db =
    handle_claimed env redis online event (claim_webhook_event event.webhook_event_id db)
