-- ===== src/Reserve/Reply.antt =====
-- blueprints/line_routes.py: what the bot answers, with the texts of the notices.
use linebot.Prelude.{
  ℕ, Bool, true, false, ◌&&◌, Option, none, some, List, [], ◌∷◌, ◌++◌, Text, codes, decimal,
  starts_with, drop, is_empty, ltb, count_where, ◌==◌, zero, suc, not, reverse, if◌then◌else◌,
}
use linebot.Database.Tables.{Status, Reservation, ReservationType, Database, status_eq}
use linebot.Database.Rows.{type_of, owner_of, display_no}
use linebot.Queue.WaitTime.{count_waiting_people_ahead_by_owner, calculate_wait_time_minutes}
use linebot.Queue.Number.{fmt_no}

pub record Notice : Type 0 where
  pub title : Text
  pub body : Text
  pub hero_url : Option Text

-- What a bubble of the carousel shows of a reservation type; its layout is fixed.
pub record TypeCard : Type 0 where
  pub name : Text
  pub effective_accepting : Bool
  pub owner_login_id : Option Text
  pub flavor_text : Text
  pub price : Option ℕ
  pub image_url : Option Text

pub data Reply : Type 0 where
  notice : Notice → Reply
  carousel : List TypeCard → Reply

abbrev pub plain : Text → Text → Reply
plain title body = Reply.notice (record { title = title; body = body; hero_url = none })

-- services/line_service.py `build_type_image_url`: `url_root` is the request's, where there is one.
abbrev image_path : ℕ → Option ℕ → Text
image_path type_id none = codes "/reservation-type-images/" ++ decimal type_id
image_path type_id (some version) =
    codes "/reservation-type-images/" ++ decimal type_id ++ codes "?v=" ++ decimal version

-- s.rstrip("/")
abbrev pub rstrip_slash : Text → Text
rstrip_slash [] = []
rstrip_slash (c ∷ s) =
    let rest = rstrip_slash s in if is_empty rest && (c == b'/') then [] else c ∷ rest

abbrev pub https_base : Text → Text
https_base base =
    if starts_with base (codes "http://") then codes "https://" ++ drop 7 base else base

abbrev context_url : Option Text → Text → Option Text
context_url none path = none
context_url (some url_root) path =
    let base = https_base (rstrip_slash url_root) in
    if is_empty base then none else some (base ++ path)

unfoldable pub build_type_image_url : Text → Option Text → ℕ → Option ℕ → Option Text
build_type_image_url public_base_url url_root zero version = none
build_type_image_url public_base_url url_root (suc i) version =
    if is_empty public_base_url
    then context_url url_root (image_path (suc i) version)
    else some (public_base_url ++ image_path (suc i) version)

-- f"{name}" of a value that may be None
abbrev shown : Option Text → Text
shown none = codes "None"
shown (some s) = s

abbrev pub type_name : Option ReservationType → Option Text
type_name none = none
type_name (some t) = some t.name

-- Whether the name is there and not empty.
abbrev pub is_named : Option Text → Bool
is_named none = false
is_named (some s) = not (is_empty s)

abbrev is_owned : Option ℕ → Bool
is_owned none = false
is_owned (some i) = true

-- The people ahead of a reservation that no admin owns.
unfoldable pub count_unowned_ahead : Database → ℕ → ℕ
count_unowned_ahead db id =
    count_where
      (λ r. status_eq r.status Status.waiting && not (is_owned r.owner_admin_id) && ltb r.id id)
      db.reservations

abbrev ticket : Reservation → Text
ticket r = codes "チケット番号: " ++ fmt_no (display_no r)

abbrev waiting_body : Database → Reservation → Option ℕ → Text
waiting_body db r (some owner) =
    codes "予約済みです。"
    ++ ticket r
    ++ codes " / 種類: "
    ++ shown (type_name (type_of db r))
    ++ codes " / 待ち: "
    ++ decimal (count_waiting_people_ahead_by_owner db r.id owner)
    ++ codes "人"
waiting_body db r none =
    codes "予約済みです。"
    ++ ticket r
    ++ codes " / 待ち: "
    ++ decimal (count_unowned_ahead db r.id)
    ++ codes "人"

abbrev called_body : Database → Reservation → Text
called_body db r =
    if is_named (type_name (type_of db r))
    then codes "【呼出中】"
      ++ ticket r
      ++ codes " / 種類: "
      ++ shown (type_name (type_of db r))
      ++ codes " 会場へお越しください！"
    else codes "【呼出中】" ++ ticket r ++ codes " 会場へお越しください！"

-- The notice to a user who has an active reservation already.
unfoldable pub existing_reply : Database → Reservation → Reply
unfolding type_of owner_of
existing_reply db r = plain (codes "予約状況") (
    if status_eq r.status Status.waiting
    then waiting_body db r (owner_of db r)
    else called_body db r)

-- The answer to 待ち時間, for the reservation that was found.
abbrev pub people_ahead : Database → Reservation → Option ℕ → ℕ
people_ahead db r (some owner) = count_waiting_people_ahead_by_owner db r.id owner
people_ahead db r none = count_unowned_ahead db r.id

abbrev wait_body : Database → Reservation → ℕ → Text
wait_body db r ahead =
    (if is_named (type_name (type_of db r))
      then ticket r ++ codes " / 種類: " ++ shown (type_name (type_of db r)) ++ codes " / あなたの前: "
      else ticket r ++ codes " / あなたの前: ")
    ++ decimal ahead
    ++ codes "人\n現在の目安待ち時間: "
    ++ decimal (calculate_wait_time_minutes ahead)
    ++ codes "分"

unfoldable pub wait_reply : Database → Option Reservation → Reply
unfolding type_of owner_of
wait_reply db none = plain (codes "待ち時間") (codes "待ち時間を確認できる予約がありません。")
wait_reply db (some r) =
    if status_eq r.status Status.waiting
    then plain (codes "待ち時間") (wait_body db r (people_ahead db r (owner_of db r)))
    else plain (codes "呼出中") (codes "【呼出中】" ++ ticket r ++ codes " です。会場へお越しください。")

-- f"{price:,}": a comma before each group of three digits, the digits reversed.
abbrev commas : ℕ → Text → Text
commas n [] = []
commas zero (c ∷ s) = b',' ∷ c ∷ commas 2 s
commas (suc n) (c ∷ s) = c ∷ commas n s

abbrev pub grouped : ℕ → Text
grouped n = reverse (commas 3 (reverse (decimal n)))

abbrev price_text : Option ℕ → Text
price_text none = []
price_text (some p) = if p == 0 then [] else codes " / 価格: " ++ grouped p ++ codes "円"

abbrev owner_text : Option Text → Text
owner_text none = []
owner_text (some login_id) = if is_empty login_id then [] else codes " / 設定者: " ++ login_id

-- The notice of a reservation that was made, `number` on its ticket and `new_id` its row.
unfoldable pub reserved_reply :
    Database → ReservationType → Option Text → Option Text → ℕ → ℕ → ℕ → Reply
reserved_reply db t owner_login_id image_url owner number new_id = Reply.notice (record {
  title = codes "受付完了";
  body =
      let ahead =
        if owner == 0
        then count_where (λ r. status_eq r.status Status.waiting && ltb r.id new_id) db.reservations
        else count_waiting_people_ahead_by_owner db new_id owner in
      (if owner == 0
        then codes "【受付完了】チケット番号: " ++ fmt_no number
        else codes "【受付完了】チケット番号: "
          ++ fmt_no number
          ++ codes " / 種類: "
          ++ t.name
          ++ owner_text owner_login_id
          ++ price_text t.price)
      ++ codes " / 待ち: "
      ++ decimal ahead
      ++ codes "人\n現在の目安待ち時間: "
      ++ decimal (calculate_wait_time_minutes ahead)
      ++ codes "分";
  hero_url = image_url;
})
