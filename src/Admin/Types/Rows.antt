-- ===== src/Admin/Types/Rows.antt =====
-- blueprints/admin_routes.py: adding and deleting a type, and what the admin may do to the types.
use linebot.Prelude.{
  ℕ, suc, Bool, true, false, not, Option, none, some, [], ◌∷◌, ◌++◌, Text, codes, strip, any,
  select_where, if◌then◌else◌,
}
use linebot.Config.{Config}
use linebot.Validators.{normalize_type_name, validate_type_name, validate_type_flavor_text}
use linebot.Database.Tables.{Reservation, ReservationType, Database, is_id}
use linebot.Line.Image.{
  Upload, Imaging, SavedImage, SaveResult, saved, refused, no_image, is_allowed_suffix,
  extension_refused, save_type_image_upload,
}
use linebot.Admin.Reservations.{Response, redirect_login, aborted}
use linebot.Admin.Types.{
  answer, is_own_type, owns_type, has_type_name, name_taken, name_refused, flavor_refused,
  PriceInput, price_of, price_refused, parse_price, chosen_file, admin_types_toggle,
  admin_types_update_flavor, admin_types_update_name, admin_types_update_price,
  admin_types_update_image,
}

-- The fields of the form, each the empty text where it is missing.
pub record TypeForm : Type 0 where
  pub name : Text
  pub flavor_text : Text
  pub price : Text
  pub image : Option Upload

-- The row, with the columns' defaults.
abbrev pub new_type : ℕ → ℕ → Text → Text → SavedImage → Option ℕ → ReservationType
new_type id admin name flavor image price = record {
  id = id;
  name = name;
  owner_admin_id = some admin;
  accepting = true;
  flavor_text = flavor;
  image_mime_type = image.mime_type;
  image_version = 1;
  price = price;
}

-- The INSERT: a name that is taken uses up an id all the same.
abbrev pub insert_type : ℕ → Text → Text → Option ℕ → SavedImage → Database → Response × Database
insert_type admin name flavor price image db =
    if any (has_type_name name) db.reservation_types
    then (answer name_taken, record db { next_type_id = suc db.next_type_id })
    else (
      answer (codes "種類を追加しました。"),
      record db {
        reservation_types =
            db.reservation_types ++ new_type db.next_type_id admin name flavor image price ∷ [];
        next_type_id = suc db.next_type_id;
      },
    )

abbrev pub insert_saved : ℕ → Text → Text → Option ℕ → SaveResult → Database → Response × Database
insert_saved admin name flavor price (refused message) db = (answer message, db)
insert_saved admin name flavor price (saved image) db = insert_type admin name flavor price image db

abbrev pub image_of : Imaging → Config → Option Upload → SaveResult
image_of imaging config none = saved no_image
image_of imaging config (some file) = save_type_image_upload imaging config file

abbrev pub create_priced :
    Imaging → Config → ℕ → Text → Text → Option Upload → PriceInput → Database → Response × Database
create_priced imaging config admin name flavor file (price_refused message) db =
    (answer message, db)
create_priced imaging config admin name flavor file (price_of price) db =
    insert_saved admin name flavor price (image_of imaging config file) db

abbrev pub has_bad_suffix : Imaging → Option Upload → Bool
has_bad_suffix imaging none = false
has_bad_suffix imaging (some file) = not (is_allowed_suffix (imaging.suffix_of file.filename))

unfoldable pub admin_types_create :
    Imaging → Config → Option ℕ → TypeForm → Database → Response × Database
unfolding strip normalize_type_name validate_type_name validate_type_flavor_text parse_price
    save_type_image_upload
admin_types_create imaging config none form db = (redirect_login, db)
admin_types_create imaging config (some admin) form db =
    let name = normalize_type_name form.name in
    let flavor = strip form.flavor_text in
    let file = chosen_file form.image in
    if not (validate_type_flavor_text flavor)
    then (answer flavor_refused, db)
    else if has_bad_suffix imaging file
    then (answer extension_refused, db)
    else if not (validate_type_name config name)
    then (answer (name_refused config), db)
    else create_priced imaging config admin name flavor file (parse_price config form.price) db

-- ON DELETE RESTRICT of the reservations
abbrev pub is_of_type : ℕ → Reservation → Bool
is_of_type type_id r = is_id r.type_id type_id

unfoldable pub admin_types_delete : Option ℕ → ℕ → Database → Response × Database
admin_types_delete none type_id db = (redirect_login, db)
admin_types_delete (some admin) type_id db =
    if not (owns_type admin type_id db)
    then (aborted 403, db)
    else if any (is_of_type type_id) db.reservations
    then (answer (codes "この種類に紐づく予約があるため削除できません。"), db)
    else (
      answer [],
      record db {
        reservation_types =
            select_where (λ t. not (is_own_type admin type_id t)) db.reservation_types;
      },
    )

-- The requests that change the types.
pub data TypeEdit : Type 0 where
  create : TypeForm → TypeEdit
  delete toggle : ℕ → TypeEdit
  change_flavor change_name change_price : ℕ → Text → TypeEdit
  change_image : ℕ → Option Upload → TypeEdit

unfoldable pub run_edit : Imaging → Config → Option ℕ → TypeEdit → Database → Response × Database
unfolding admin_types_create admin_types_delete admin_types_toggle admin_types_update_flavor
    admin_types_update_name admin_types_update_price admin_types_update_image
run_edit imaging config admin (create form) db = admin_types_create imaging config admin form db
run_edit imaging config admin (delete type_id) db = admin_types_delete admin type_id db
run_edit imaging config admin (toggle type_id) db = admin_types_toggle admin type_id db
run_edit imaging config admin (change_flavor type_id raw) db =
    admin_types_update_flavor admin type_id raw db
run_edit imaging config admin (change_name type_id raw) db =
    admin_types_update_name config admin type_id raw db
run_edit imaging config admin (change_price type_id raw) db =
    admin_types_update_price config admin type_id raw db
run_edit imaging config admin (change_image type_id file) db =
    admin_types_update_image imaging config admin type_id file db
