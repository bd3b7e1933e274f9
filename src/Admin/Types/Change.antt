-- ===== src/Admin/Types/Change.antt =====
-- What a request of an admin may do to the types: the statements that the handlers of
-- blueprints/admin_routes.py come down to.
use linebot.Prelude.{
  ℕ, suc, false, not, ◌≡◌, refl, Option, none, some, [], ◌∷◌, ◌++◌, Text, any, select_where,
  update_where, if_cases, strip, Bool-cases, inl, inr,
}
use linebot.Config.{Config}
use linebot.Validators.{validate_type_name, validate_type_flavor_text, normalize_type_name}
use linebot.Database.Tables.{ReservationType, Database}
use linebot.Line.Image.{
  Imaging, SavedImage, SaveResult, saved, refused, save_type_image_upload, Upload,
}
use linebot.Admin.Reservations.{Response}
use linebot.Admin.Types.{
  is_own_type, owns_type, has_type_name, other_has_name, update_own, update_name, update_price,
  update_image, update_chosen, PriceInput, price_of, price_refused, parse_price, with_image,
  chosen_file, admin_types_toggle, admin_types_update_flavor, admin_types_update_name,
  admin_types_update_price, admin_types_update_image,
}
use linebot.Admin.Types.Rows.{
  TypeEdit, create, delete, toggle, change_flavor, change_name, change_price, change_image,
  new_type, insert_type, insert_saved, create_priced, is_of_type, admin_types_create,
  admin_types_delete, run_edit, image_of, has_bad_suffix,
}

-- The write keeps what the row is found by.
pub record KeepsKey (f : ReservationType → ReservationType) : Type 0 where
  pub id_kept : (t : ReservationType) → (f t).id ≡ t.id
  pub name_kept : (t : ReservationType) → (f t).name ≡ t.name
  pub owner_kept : (t : ReservationType) → (f t).owner_admin_id ≡ t.owner_admin_id

pub data TypeChange (admin : ℕ) (db : Database) : Database → Type 0 where
  same : TypeChange admin db db
  used_up : TypeChange admin db (record db { next_type_id = suc db.next_type_id })
  added :
      (name flavor : Text) (image : SavedImage) (price : Option ℕ)
      → any (has_type_name name) db.reservation_types ≡ false
      → TypeChange admin db (record db {
        reservation_types =
            db.reservation_types ++ new_type db.next_type_id admin name flavor image price ∷ [];
        next_type_id = suc db.next_type_id;
      })
  deleted :
      (type_id : ℕ)
      → any (is_of_type type_id) db.reservations ≡ false
      → TypeChange admin db (record db {
        reservation_types =
            select_where (λ t. not (is_own_type admin type_id t)) db.reservation_types;
      })
  updated :
      (type_id : ℕ) (f : ReservationType → ReservationType)
      → KeepsKey f
      → TypeChange admin db (record db {
        reservation_types = update_where (is_own_type admin type_id) f db.reservation_types;
      })
  renamed :
      (type_id : ℕ) (name : Text)
      → any (other_has_name type_id name) db.reservation_types ≡ false
      → TypeChange admin db (record db {
        reservation_types =
            update_where
              (is_own_type admin type_id)
              (λ t. record t { name = name })
              db.reservation_types;
      })

module _ (admin : ℕ) (db : Database) where
  abbrev pub Ends : Response × Database → Type 0
  Ends r = TypeChange admin db r.1

  update_own-Ends :
      (type_id : ℕ) (f : ReservationType → ReservationType) (success : Text)
      → KeepsKey f
      → Ends (update_own admin type_id f success db)
  update_own-Ends type_id f success k =
      if_cases Ends (owns_type admin type_id db) _ _ (λ _. updated type_id f k) (λ _. same)

  update_name-Ends : (type_id : ℕ) (name : Text) → Ends (update_name admin type_id name db)
  update_name-Ends type_id name = elim (Bool-cases (owns_type admin type_id db)) [
    | inl t ↦ rw t (
        if_cases Ends (any (other_has_name type_id name) db.reservation_types) _ _ (λ _. same)
          (λ free. renamed type_id name free))
    | inr f ↦ rw f same
  ]

  update_price-Ends : (type_id : ℕ) (p : PriceInput) → Ends (update_price admin type_id p db)
  update_price-Ends type_id (price_refused message) = same
  update_price-Ends type_id (price_of p) =
      update_own-Ends type_id (λ t. record t { price = p }) _
        record { id_kept = λ _. refl; name_kept = λ _. refl; owner_kept = λ _. refl }

  update_image-Ends : (type_id : ℕ) (r : SaveResult) → Ends (update_image admin type_id r db)
  update_image-Ends type_id (refused message) = same
  update_image-Ends type_id (saved image) =
      update_own-Ends type_id (with_image image) _
        record { id_kept = λ _. refl; name_kept = λ _. refl; owner_kept = λ _. refl }

  update_chosen-Ends :
      (imaging : Imaging) (config : Config) (type_id : ℕ) (file : Option Upload)
      → Ends (update_chosen imaging config admin type_id file db)
  update_chosen-Ends imaging config type_id none = same
  update_chosen-Ends imaging config type_id (some file) =
      update_image-Ends type_id (save_type_image_upload imaging config file)

  insert_type-Ends :
      (name flavor : Text) (price : Option ℕ) (image : SavedImage)
      → Ends (insert_type admin name flavor price image db)
  insert_type-Ends name flavor price image =
      if_cases Ends (any (has_type_name name) db.reservation_types) _ _ (λ _. used_up)
        (added name flavor image price)

  insert_saved-Ends :
      (name flavor : Text) (price : Option ℕ) (r : SaveResult)
      → Ends (insert_saved admin name flavor price r db)
  insert_saved-Ends name flavor price (refused message) = same
  insert_saved-Ends name flavor price (saved image) = insert_type-Ends name flavor price image

  create_priced-Ends :
      (imaging : Imaging) (config : Config) (name flavor : Text) (file : Option Upload)
      (p : PriceInput)
      → Ends (create_priced imaging config admin name flavor file p db)
  create_priced-Ends imaging config name flavor file (price_refused message) = same
  create_priced-Ends imaging config name flavor file (price_of p) =
      insert_saved-Ends name flavor p (image_of imaging config file)

  -- Every request comes down to one statement on the admin's own types, or to none.
  pub run_edit_change :
      (imaging : Imaging) (config : Config) (edit : TypeEdit)
      → TypeChange admin db (run_edit imaging config (some admin) edit db).1
  unfolding run_edit admin_types_create admin_types_delete admin_types_toggle
      admin_types_update_flavor admin_types_update_name admin_types_update_price
      admin_types_update_image
  run_edit_change imaging config (create form) =
      let name = normalize_type_name form.name in
      let flavor = strip form.flavor_text in
      let file = chosen_file form.image in
      if_cases Ends (not (validate_type_flavor_text flavor)) _ _ (λ _. same)
        (λ _.
          if_cases Ends (has_bad_suffix imaging file) _ _ (λ _. same)
            (λ _.
              if_cases Ends (not (validate_type_name config name)) _ _ (λ _. same)
                (λ _.
                  create_priced-Ends imaging config name flavor file
                    (parse_price config form.price))))
  run_edit_change imaging config (delete type_id) =
      if_cases Ends (not (owns_type admin type_id db)) _ _ (λ _. same)
        (λ _.
          if_cases Ends (any (is_of_type type_id) db.reservations) _ _ (λ _. same)
            (deleted type_id))
  run_edit_change imaging config (toggle type_id) =
      update_own-Ends type_id (λ t. record t { accepting = not t.accepting }) []
        record { id_kept = λ _. refl; name_kept = λ _. refl; owner_kept = λ _. refl }
  run_edit_change imaging config (change_flavor type_id raw) =
      let flavor = strip raw in
      if_cases Ends (validate_type_flavor_text flavor) _ _
        (λ _.
          update_own-Ends type_id (λ t. record t { flavor_text = flavor }) _
            record { id_kept = λ _. refl; name_kept = λ _. refl; owner_kept = λ _. refl })
        (λ _. same)
  run_edit_change imaging config (change_name type_id raw) =
      if_cases Ends (validate_type_name config (normalize_type_name raw)) _ _
        (λ _. update_name-Ends type_id (normalize_type_name raw)) (λ _. same)
  run_edit_change imaging config (change_price type_id raw) =
      update_price-Ends type_id (parse_price config raw)
  run_edit_change imaging config (change_image type_id file) =
      update_chosen-Ends imaging config type_id (chosen_file file)
