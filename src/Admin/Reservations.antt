-- ===== src/Admin/Reservations.antt =====
-- blueprints/admin_routes.py: the handlers by which an admin calls, finishes, cancels and edits
-- reservations. `admin` is the account that the session is authenticated as, where it is.
pub mod Undelivered
use linebot.Prelude.{
  ℕ, Bool, true, false, not, ◌&&◌, ◌||◌, Option, none, some, List, [], ◌∷◌, ◌++◌, Text, codes,
  strip, text_eq, any, find_where, update_where, ◌==◌, if◌then◌else◌,
}
use linebot.Database.Tables.{
  Status, Reservation, Database, status_eq, status_text, is_active, is_id, coalesce, coalesce_or,
  call_origin_manual,
}
use linebot.Database.Rows.{type_of, owner_of, is_joined, is_active_of, display_no}
use linebot.Queue.Number.{fmt_no}
use linebot.Queue.Calls.{Push, push_of, call_row, revert_calls}
use linebot.Reserve.Insert.{
  Constraint, uq_reservations_user_active, uq_reservations_owner_reservation_no, is_numbered,
}

-- `server_error` is an IntegrityError that the handler does not catch.
pub data Response : Type 0 where
  redirect_login : Response
  redirect_to : Text → Text → Response
  aborted : ℕ → Response
  server_error : Constraint → Response

-- r.id = %s AND r.type_id = t.id AND COALESCE(r.owner_admin_id, t.owner_admin_id) = %s
unfoldable pub is_owned_row : Database → ℕ → ℕ → Reservation → Bool
unfolding owner_of
is_owned_row db admin res_id r =
    r.id == res_id && is_joined (type_of db r) && is_id (owner_of db r) admin

abbrev pub write_row : ℕ → (Reservation → Reservation) → Database → Database
write_row id f db = record db { reservations = update_where (λ r. r.id == id) f db.reservations }

-- Whether row `s` has the number that row `r` brings along when `admin` becomes its owner.
abbrev pub brings_number : ℕ → Option ℕ → Option ℕ → Reservation → Bool
brings_number admin (some owner) number s = false
brings_number admin none none s = false
brings_number admin none (some n) s = is_numbered admin n s

abbrev pub takes_number : Database → ℕ → Reservation → Bool
takes_number db admin r =
    any (brings_number admin r.owner_admin_id r.reservation_no) db.reservations

-- Whether another row of the user is active.
abbrev pub is_other_active : Reservation → Reservation → Bool
is_other_active r s = not (s.id == r.id) && is_active_of r.user_id s

abbrev pub takes_active : Database → Status → Reservation → Bool
takes_active db new_status r = is_active new_status && any (is_other_active r) db.reservations

-- What the call's message and the moments around it depend on.
pub record CallWorld : Type 0 where
  pub delivers : Push → Bool
  pub meanwhile : Database → Database

abbrev admin_page : Text
admin_page = codes "admin_page"

abbrev pub refused_call : ℕ → Option Reservation → Response
refused_call res_id none = aborted 404
refused_call res_id (some r) =
    if status_eq r.status Status.cancelled
    then redirect_to admin_page (
        codes "受付チケット番号 "
        ++ fmt_no (if display_no r == 0 then res_id else display_no r)
        ++ codes " は直前にキャンセルされたため呼出できませんでした。")
    else aborted 404

abbrev pub send_call : CallWorld → ℕ → Reservation → Database → Response × Database
send_call world res_id r called =
    if world.delivers (push_of r) then (redirect_to admin_page [], world.meanwhile called) else (
      redirect_to admin_page (codes "呼出メッセージの送信に失敗しました。状態は待機中に戻しました。"),
      revert_calls (res_id ∷ []) (world.meanwhile called),
    )

abbrev pub call_found : CallWorld → ℕ → ℕ → Option Reservation → Database → Response × Database
call_found world now res_id none db =
    (refused_call res_id (find_where (λ r. r.id == res_id) db.reservations), db)
call_found world now res_id (some r) db =
    send_call world res_id r (write_row r.id (call_row now call_origin_manual) db)

unfoldable pub call_owned : CallWorld → ℕ → ℕ → ℕ → Database → Response × Database
call_owned world now admin res_id db =
    call_found world now res_id
      (find_where (λ r. is_owned_row db admin res_id r && status_eq r.status Status.waiting)
        db.reservations)
      db

unfoldable pub admin_call : CallWorld → ℕ → Option ℕ → ℕ → Database → Response × Database
admin_call world now none res_id db = (redirect_login, db)
admin_call world now (some admin) res_id db = call_owned world now admin res_id db

-- SET status, completed_at = CURRENT_TIMESTAMP, owner_admin_id = COALESCE(r.owner_admin_id, admin)
abbrev pub complete_row : Status → ℕ → ℕ → Reservation → Reservation
complete_row status now admin r = record r {
  status = status;
  owner_admin_id = some (coalesce_or r.owner_admin_id admin);
  completed_at = some now;
}

abbrev pub complete_found : Status → ℕ → ℕ → Option Reservation → Database → Response × Database
complete_found status now admin none db = (aborted 404, db)
complete_found status now admin (some r) db =
    if takes_number db admin r
    then (server_error uq_reservations_owner_reservation_no, db)
    else (redirect_to admin_page [], write_row r.id (complete_row status now admin) db)

unfoldable pub admin_finish : ℕ → Option ℕ → ℕ → Database → Response × Database
admin_finish now none res_id db = (redirect_login, db)
admin_finish now (some admin) res_id db =
    complete_found Status.done now admin
      (find_where (λ r. is_owned_row db admin res_id r && status_eq r.status Status.called)
        db.reservations)
      db

unfoldable pub admin_cancel : ℕ → Option ℕ → ℕ → Database → Response × Database
admin_cancel now none res_id db = (redirect_login, db)
admin_cancel now (some admin) res_id db =
    complete_found Status.cancelled now admin
      (find_where (λ r. is_owned_row db admin res_id r && is_active r.status) db.reservations) db

-- The statuses that the form may name.
abbrev pub parse_status : Text → Option Status
parse_status s =
    if text_eq s (status_text Status.waiting)
    then some Status.waiting
    else if text_eq s (status_text Status.called)
    then some Status.called
    else if text_eq s (status_text Status.done)
    then some Status.done
    else if text_eq s (status_text Status.cancelled)
    then some Status.cancelled
    else none

-- The CASE expressions of the UPDATE.
abbrev pub edit_row : Status → ℕ → ℕ → Reservation → Reservation
edit_row new_status now admin r = record r {
  status = new_status;
  called_at =
      if status_eq new_status Status.called
      then some (coalesce_or r.called_at now)
      else if status_eq new_status Status.waiting
      then none
      else r.called_at;
  completed_at =
      if status_eq new_status Status.done || status_eq new_status Status.cancelled
      then some (coalesce_or r.completed_at now)
      else none;
  call_origin =
      if status_eq new_status Status.called
      then some (coalesce_or r.call_origin call_origin_manual)
      else if status_eq new_status Status.waiting
      then none
      else r.call_origin;
  owner_admin_id = some (coalesce_or r.owner_admin_id admin);
}

abbrev status_page : Text
status_page = codes "admin_status_page"

abbrev pub edit_found : Status → ℕ → ℕ → Option Reservation → Database → Response × Database
edit_found new_status now admin none db = (aborted 404, db)
edit_found new_status now admin (some r) db =
    if takes_active db new_status r
    then (server_error uq_reservations_user_active, db)
    else if takes_number db admin r
    then (server_error uq_reservations_owner_reservation_no, db)
    else (
      redirect_to status_page (codes "予約の状態を更新しました。"),
      write_row r.id (edit_row new_status now admin) db,
    )

abbrev pub edit_parsed : Option Status → ℕ → ℕ → ℕ → Database → Response × Database
edit_parsed none now admin res_id db = (redirect_to status_page (codes "指定された状態は使用できません。"), db)
edit_parsed (some new_status) now admin res_id db =
    edit_found new_status now admin (find_where (is_owned_row db admin res_id) db.reservations) db

unfoldable pub admin_status_update : ℕ → Option ℕ → ℕ → Text → Database → Response × Database
admin_status_update now none res_id status db = (redirect_login, db)
admin_status_update now (some admin) res_id status db =
    edit_parsed (parse_status (strip status)) now admin res_id db
