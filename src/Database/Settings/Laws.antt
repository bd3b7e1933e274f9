-- ===== src/Database/Settings/Laws.antt =====
-- `app_settings` as a map: what a read finds after a write.
use linebot.Prelude.{
  ◌≡◌, refl, false, some, List, [], ◌∷◌, Text, arith, text_eq, text_eq_iff, text_eq_refl,
  if◌then◌else◌,
}
use linebot.Database.Tables.{AppSetting, Database}
use linebot.Database.Settings.{lookup, upsert, get_setting, set_setting}

pub lookup-upsert :
    (key j value : Text) (settings : List AppSetting)
    → lookup j (upsert key value settings)
      ≡ (if text_eq key j then some value else lookup j settings)
lookup-upsert key j value [] = refl
lookup-upsert key j value (s ∷ rest) = ground (
  arith,
  text_eq_iff s.key key,
  text_eq_iff s.key j,
  text_eq_iff key j,
  lookup-upsert key j value rest,
)

-- A setting reads back as it was written.
pub get-set_setting :
    (key value default : Text) (db : Database)
    → get_setting (set_setting key value db) key default ≡ value
unfolding get_setting set_setting
get-set_setting key value default db =
    ground (arith, lookup-upsert key key value db.app_settings, text_eq_refl key)

-- A write leaves the other settings alone.
pub get-set_setting_ne :
    (key j value default : Text) (db : Database)
    → text_eq key j ≡ false
    → get_setting (set_setting key value db) j default ≡ get_setting db j default
unfolding get_setting set_setting
get-set_setting_ne key j value default db ne =
    ground (arith, lookup-upsert key j value db.app_settings)
