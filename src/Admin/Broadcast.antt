-- ===== src/Admin/Broadcast.antt =====
-- blueprints/admin_routes.py: `admin_broadcast_send`, by which an audit admin writes to every friend of the
-- account.
use linebot.Prelude.{
  ℕ, not, Option, none, some, Text, codes, strip, is_empty, text_eq, ltb, length, if◌then◌else◌,
}
use linebot.Config.{Config}
use linebot.Line.Push.{Api, Sent, send_broadcast_message}
use linebot.Admin.Reservations.{Response, redirect_login, redirect_to}

abbrev max_broadcast_message_chars : ℕ
max_broadcast_message_chars = 5000

abbrev answer : Text → Response
answer message = redirect_to (codes "admin_broadcast_page") message

abbrev broadcast_result : Sent → Response
broadcast_result s =
    if s.success
    then answer (codes "ブロードキャスト送信を受け付けました。")
    else answer (codes "ブロードキャスト送信に失敗しました。LINEの送信状態を確認してください。")

abbrev sent_result : Sent → Response × Option Sent
sent_result s = (broadcast_result s, some s)

-- The answer, and what was done to send the message where it was tried. `retry_key` is a new UUID.
unfoldable pub admin_broadcast_send :
    Config → Api → Text → Option ℕ → Text → Text → Response × Option Sent
unfolding strip send_broadcast_message
admin_broadcast_send config api retry_key none message confirmation = (redirect_login, none)
admin_broadcast_send config api retry_key (some auditor) raw_message raw_confirmation =
    let message = strip raw_message in
    if is_empty message
    then (answer (codes "メッセージを入力してください。"), none)
    else if ltb max_broadcast_message_chars (length message)
    then (answer (codes "メッセージは5000文字以内で入力してください。"), none)
    else if not (text_eq (strip raw_confirmation) (codes "緊急送信"))
    then (answer (codes "確認欄に「緊急送信」と入力してください。"), none)
    else sent_result (send_broadcast_message config api retry_key)
