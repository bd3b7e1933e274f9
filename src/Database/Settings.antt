-- ===== src/Database/Settings.antt =====
-- database.py: `get_setting`, `set_setting`, `set_settings` on `app_settings`.
pub mod Laws
pub mod Refines
use linebot.Prelude.{
  Bool, Option, none, some, List, [], ◌∷◌, Text, text_eq, find_where, if◌then◌else◌,
}
use linebot.Database.Tables.{AppSetting, Database}

-- SELECT value FROM app_settings WHERE key = %s
abbrev pub lookup : Text → List AppSetting → Option Text
lookup key [] = none
lookup key (s ∷ rest) = if text_eq s.key key then some s.value else lookup key rest

-- INSERT ... ON CONFLICT (key) DO UPDATE SET value = EXCLUDED.value
abbrev pub upsert : Text → Text → List AppSetting → List AppSetting
upsert key value [] = record { key = key; value = value } ∷ []
upsert key value (s ∷ rest) =
    if text_eq s.key key then record s { value = value } ∷ rest else s ∷ upsert key value rest

unfoldable pub get_setting : Database → Text → Text → Text
get_setting db key default = elim (lookup key db.app_settings) [ none ↦ default | some v ↦ v ]

unfoldable pub set_setting : Text → Text → Database → Database
set_setting key value db = record db { app_settings = upsert key value db.app_settings }

abbrev pub upsert_all : List (Text × Text) → List AppSetting → List AppSetting
upsert_all [] settings = settings
upsert_all ((key, value) ∷ rest) settings = upsert_all rest (upsert key value settings)

unfoldable pub set_settings : List (Text × Text) → Database → Database
set_settings items db = record db { app_settings = upsert_all items db.app_settings }
