-- ===== src/Database/Settings/Refines.antt =====
-- `get_setting`, `set_setting` and `set_settings` against what they promise: a map from keys to values.
use linebot.Prelude.{
  ◌≡◌, refl, ap, ◌∙◌, Option, none, some, List, [], ◌∷◌, Text, text_eq, if◌then◌else◌,
}
use linebot.Database.Tables.{AppSetting, Database}
use linebot.Database.Settings.{lookup, upsert, upsert_all, get_setting, set_setting, set_settings}
use linebot.Database.Settings.Laws.{lookup-upsert}

-- What the rest of the program asks of the settings.
pub data Request : Type 0 where
  read : Text → Text → Request
  write : Text → Text → Request
  write_all : List (Text × Text) → Request

-- The answers that the program gets, one for each `read`.
unfoldable pub answers : List Request → Database → List Text
unfolding get_setting set_setting set_settings
answers [] db = []
answers (read key default ∷ rest) db = get_setting db key default ∷ answers rest db
answers (write key value ∷ rest) db = answers rest (set_setting key value db)
answers (write_all items ∷ rest) db = answers rest (set_settings items db)

-- The specification: a map, without rows or their order.
abbrev pub Store : Type 0
Store = Text → Option Text

abbrev pub put : Text → Text → Store → Store
put key value store j = if text_eq key j then some value else store j

abbrev pub put_all : List (Text × Text) → Store → Store
put_all [] store = store
put_all ((key, value) ∷ rest) store = put_all rest (put key value store)

abbrev pub value_or : Option Text → Text → Text
value_or none default = default
value_or (some value) default = value

abbrev pub store_answers : List Request → Store → List Text
store_answers [] store = []
store_answers (read key default ∷ rest) store =
    value_or (store key) default ∷ store_answers rest store
store_answers (write key value ∷ rest) store = store_answers rest (put key value store)
store_answers (write_all items ∷ rest) store = store_answers rest (put_all items store)

-- The rows that stand for a map.
abbrev Represents : List AppSetting → Store → Type 0
Represents settings store = (j : Text) → lookup j settings ≡ store j

upsert-Represents :
    (key value : Text) (settings : List AppSetting) (store : Store)
    → Represents settings store
    → Represents (upsert key value settings) (put key value store)
upsert-Represents key value settings store h j =
    lookup-upsert key j value settings ∙ ap (λ o. if text_eq key j then some value else o) (h j)

upsert_all-Represents :
    (items : List (Text × Text)) (settings : List AppSetting) (store : Store)
    → Represents settings store
    → Represents (upsert_all items settings) (put_all items store)
upsert_all-Represents [] settings store h = h
upsert_all-Represents ((key, value) ∷ rest) settings store h =
    upsert_all-Represents rest (upsert key value settings) (put key value store)
      (upsert-Represents key value settings store h)

elim-value_or :
    (o : Option Text) (default : Text) → elim o [ none ↦ default | some v ↦ v ] ≡ value_or o default
elim-value_or none default = refl
elim-value_or (some v) default = refl

get_setting-Represents :
    (key default : Text) (db : Database) (store : Store)
    → Represents db.app_settings store
    → get_setting db key default ≡ value_or (store key) default
unfolding get_setting
get_setting-Represents key default db store h =
    elim-value_or (lookup key db.app_settings) default ∙ ap (λ o. value_or o default) (h key)

answers-Represents :
    (requests : List Request) (db : Database) (store : Store)
    → Represents db.app_settings store
    → answers requests db ≡ store_answers requests store
unfolding answers set_setting set_settings
answers-Represents [] db store h = refl
answers-Represents (read key default ∷ rest) db store h =
    rw (get_setting-Represents key default db store h, answers-Represents rest db store h) refl
answers-Represents (write key value ∷ rest) db store h =
    answers-Represents rest (set_setting key value db) (put key value store)
      (upsert-Represents key value db.app_settings store h)
answers-Represents (write_all items ∷ rest) db store h =
    answers-Represents rest (set_settings items db) (put_all items store)
      (upsert_all-Represents items db.app_settings store h)

-- Whatever the program reads and writes of its settings, in whatever order, it gets the answers of a map
-- that holds what the table held at the start: which rows there are, and in which order, is never seen.
pub settings_refine_map :
    (requests : List Request) (db : Database)
    → answers requests db ≡ store_answers requests (λ key. lookup key db.app_settings)
settings_refine_map requests db =
    answers-Represents requests db (λ key. lookup key db.app_settings) (λ j. refl)
