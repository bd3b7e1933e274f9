-- ===== src/Admin/Switches/Digit.antt =====
-- The digit that an admin sets is the one that the ticket numbers end in.
use linebot.Prelude.{
  ℕ, ◌%◌, ◌≡◌, refl, ◌∙◌, true, false, some, [], Text, codes, arith, strip, isdigit, digits_value,
  decimal, Bool-cases, inl, inr, ◌⊎◌,
}
use linebot.Prelude.Codes.Digits.{isdigit-decimal, digits_value-decimal}
use linebot.Database.Tables.{Database}
use linebot.Database.Settings.{set_setting}
use linebot.Database.Settings.Laws.{get-set_setting, get-set_setting_ne}
use linebot.Queue.Number.{management_no_key, get_management_no, set_management_no}
use linebot.Admin.Switches.{admin_management_no}

get-set_management_no :
    (owner val : ℕ) (db : Database)
    → get_management_no (some owner) (set_management_no val (some owner) db) ≡ val % 10
unfolding get_management_no set_management_no
get-set_management_no owner val db =
    let digit = decimal (val % 10) in
    let key = management_no_key owner in
    rw
      (
        get-set_setting_ne (codes "management_no") key digit [] (set_setting key digit db) refl
            ∙ get-set_setting key digit [] db,
        isdigit-decimal (val % 10),
        digits_value-decimal (val % 10),
      )
      (omega arith)

-- A form value of digits sets the digit that the admin's next ticket numbers end in to its last one; any
-- other value changes nothing.
pub admin_management_no_lem :
    (admin : ℕ) (raw : Text) (db : Database)
    → let db' = (admin_management_no (some admin) raw db).1 in
      ((isdigit (strip raw) ≡ true)
        × (get_management_no (some admin) db' ≡ digits_value 0 (strip raw) % 10))
      ⊎ ((isdigit (strip raw) ≡ false) × (db' ≡ db))
unfolding admin_management_no
admin_management_no_lem admin raw db = elim (Bool-cases (isdigit (strip raw))) [
  | inl t ↦
      inl (t, rw t (get-set_management_no admin (digits_value 0 (strip raw) % 10) db ∙ omega arith))
  | inr f ↦ inr (f, rw f refl)
]
