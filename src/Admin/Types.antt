-- ===== src/Admin/Types.antt =====
-- blueprints/admin_routes.py: the handlers by which an admin adds, changes and deletes the types that can be
-- reserved. `admin` is the account that the session is authenticated as, where it is. Each handler reads and
-- writes without another transaction in between. The table keeps the description of an image, not its bytes.
pub mod Rows
pub mod Change
pub mod Apart
pub mod Kept
pub mod Foreign
use linebot.Prelude.{
  ℕ, suc, Bool, true, false, not, ◌&&◌, ◌||◌, Option, none, some, List, [], ◌∷◌, ◌++◌, Text, codes,
  strip, text_eq, is_empty, any, select_where, update_where, ◌==◌, ltb, isdigit, digits_value,
  decimal, reverse, if◌then◌else◌,
}
use linebot.Config.{Config}
use linebot.Validators.{normalize_type_name, validate_type_name, validate_type_flavor_text}
use linebot.Database.Tables.{ReservationType, Database, is_id}
use linebot.Line.Image.{
  Upload, Imaging, SavedImage, SaveResult, saved, refused, no_image, is_allowed_suffix,
  extension_refused, save_type_image_upload,
}
use linebot.Admin.Reservations.{Response, redirect_login, redirect_to, aborted}

abbrev types_page : Text
types_page = codes "admin_types_page"

abbrev pub answer : Text → Response
answer message = redirect_to types_page message

-- WHERE id = %s AND owner_admin_id = %s
abbrev pub is_own_type : ℕ → ℕ → ReservationType → Bool
is_own_type admin type_id t = t.id == type_id && is_id t.owner_admin_id admin

abbrev pub owns_type : ℕ → ℕ → Database → Bool
owns_type admin type_id db = any (is_own_type admin type_id) db.reservation_types

-- An UPDATE of the admin's own type, which aborts where it meets no row.
abbrev pub update_own :
    ℕ → ℕ → (ReservationType → ReservationType) → Text → Database → Response × Database
update_own admin type_id f success db =
    if owns_type admin type_id db
    then (
      answer success,
      record db {
        reservation_types = update_where (is_own_type admin type_id) f db.reservation_types;
      },
    )
    else (aborted 403, db)

-- UNIQUE (name)
abbrev pub has_type_name : Text → ReservationType → Bool
has_type_name name t = text_eq t.name name

abbrev pub other_has_name : ℕ → Text → ReservationType → Bool
other_has_name type_id name t = not (t.id == type_id) && has_type_name name t

abbrev pub name_taken : Text
name_taken = codes "同じ名前の種類が既に存在します。"

abbrev pub name_refused : Config → Text
name_refused config =
    codes "種類名は1〜"
    ++ decimal config.max_type_name_length
    ++ codes "文字、英数字/日本語/スペース/記号(-_・)のみ使用できます。"

abbrev pub flavor_refused : Text
flavor_refused = codes "説明は100文字以内で入力してください。"

-- The digits of a number from the last, with a comma after each three: f"{n:,}".
abbrev group_digits : Text → Text
group_digits (a ∷ b ∷ c ∷ d ∷ rest) = a ∷ b ∷ c ∷ b',' ∷ group_digits (d ∷ rest)
group_digits s = s

-- The price of the form, or the text that refuses it.
pub data PriceInput : Type 0 where
  price_of : Option ℕ → PriceInput
  price_refused : Text → PriceInput

abbrev bounded_price : Config → ℕ → PriceInput
bounded_price config price =
    if ltb config.max_type_price price
    then price_refused (
        codes "価格は"
        ++ reverse (group_digits (reverse (decimal config.max_type_price)))
        ++ codes "円以下で入力してください。")
    else price_of (some price)

unfoldable pub parse_price : Config → Text → PriceInput
unfolding strip decimal
parse_price config raw =
    let price_raw = strip raw in
    if is_empty price_raw
    then price_of none
    else if isdigit price_raw
    then bounded_price config (digits_value 0 price_raw)
    else price_refused (codes "価格には正の整数を入力してください。")

unfoldable pub admin_types_toggle : Option ℕ → ℕ → Database → Response × Database
admin_types_toggle none type_id db = (redirect_login, db)
admin_types_toggle (some admin) type_id db =
    update_own admin type_id (λ t. record t { accepting = not t.accepting }) [] db

unfoldable pub admin_types_update_flavor : Option ℕ → ℕ → Text → Database → Response × Database
unfolding strip validate_type_flavor_text
admin_types_update_flavor none type_id raw db = (redirect_login, db)
admin_types_update_flavor (some admin) type_id raw db =
    let flavor = strip raw in
    if validate_type_flavor_text flavor
    then update_own admin type_id (λ t. record t { flavor_text = flavor }) (codes "説明を更新しました。") db
    else (answer flavor_refused, db)

abbrev pub update_name : ℕ → ℕ → Text → Database → Response × Database
update_name admin type_id name db =
    if owns_type admin type_id db && any (other_has_name type_id name) db.reservation_types
    then (answer name_taken, db)
    else update_own admin type_id (λ t. record t { name = name }) (codes "種類名を更新しました。") db

unfoldable pub admin_types_update_name :
    Config → Option ℕ → ℕ → Text → Database → Response × Database
unfolding normalize_type_name validate_type_name decimal
admin_types_update_name config none type_id raw db = (redirect_login, db)
admin_types_update_name config (some admin) type_id raw db =
    let name = normalize_type_name raw in
    if validate_type_name config name
    then update_name admin type_id name db
    else (answer (name_refused config), db)

abbrev pub update_price : ℕ → ℕ → PriceInput → Database → Response × Database
update_price admin type_id (price_refused message) db = (answer message, db)
update_price admin type_id (price_of new_price) db =
    update_own admin type_id (λ t. record t { price = new_price }) (codes "価格を更新しました。") db

unfoldable pub admin_types_update_price :
    Config → Option ℕ → ℕ → Text → Database → Response × Database
unfolding parse_price
admin_types_update_price config none type_id raw db = (redirect_login, db)
admin_types_update_price config (some admin) type_id raw db =
    update_price admin type_id (parse_price config raw) db

abbrev pub with_image : SavedImage → ReservationType → ReservationType
with_image image t = record t {
  image_mime_type = image.mime_type;
  image_version = suc t.image_version;
}

abbrev pub update_image : ℕ → ℕ → SaveResult → Database → Response × Database
update_image admin type_id (refused message) db = (answer message, db)
update_image admin type_id (saved image) db =
    update_own admin type_id (with_image image) (codes "画像を更新しました。") db

-- A file was chosen, and its name is not blank.
abbrev pub chosen_file : Option Upload → Option Upload
chosen_file none = none
chosen_file (some file) = if is_empty (strip file.filename) then none else some file

abbrev pub update_chosen : Imaging → Config → ℕ → ℕ → Option Upload → Database → Response × Database
update_chosen imaging config admin type_id none db = (answer (codes "画像ファイルを選択してください。"), db)
update_chosen imaging config admin type_id (some file) db =
    update_image admin type_id (save_type_image_upload imaging config file) db

unfoldable pub admin_types_update_image :
    Imaging → Config → Option ℕ → ℕ → Option Upload → Database → Response × Database
unfolding save_type_image_upload strip
admin_types_update_image imaging config none type_id file db = (redirect_login, db)
admin_types_update_image imaging config (some admin) type_id file db =
    update_chosen imaging config admin type_id (chosen_file file) db
