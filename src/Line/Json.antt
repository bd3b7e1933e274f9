-- ===== src/Line/Json.antt =====
-- Python's dicts, lists and values, as the messages of services/line_service.py are made of them. A dict is
-- the list of its items, of which a look-up takes the first with its key.
use linebot.Prelude.{
  ℕ, Bool, true, false, Option, none, some, Text, [], ◌∷◌, text_eq, ◌==◌, if◌then◌else◌,
}

mutual
  pub data Json : Type 0 where
    null : Json
    flag : Bool → Json
    number : ℕ → Json
    str : Text → Json
    array : Items → Json
    dict : Fields → Json

  pub data Items : Type 0 where
    no_items : Items
    item : Json → Items → Items

  pub data Fields : Type 0 where
    no_fields : Fields
    field : Text → Json → Fields → Fields

-- d.get(key), where `none` is the key that is not there
abbrev pub get : Text → Fields → Option Json
get key no_fields = none
get key (field k v rest) = let later = get key rest in if text_eq k key then some v else later

-- d.pop(key, None)
abbrev pub pop : Text → Fields → Fields
pop key no_fields = no_fields
pop key (field k v rest) =
    let later = pop key rest in if text_eq k key then later else field k v later

-- d[key] = value
abbrev pub set : Text → Json → Fields → Fields
set key value no_fields = field key value no_fields
set key value (field k v rest) =
    let later = set key value rest in if text_eq k key then field k value rest else field k v later

-- value == text
abbrev pub is_text : Text → Option Json → Bool
is_text text (some (str s)) = text_eq s text
is_text text _ = false

-- What an expression comes to: a value, or an exception.
pub data Raises (A : Type 0) : Type 0 where
  raised : Raises A
  value : A → Raises A

abbrev pub then_value : {A B : Type 0} → (A → Raises B) → Raises A → Raises B
then_value f raised = raised
then_value f (value a) = f a

abbrev characters : Text → Items
characters [] = no_items
characters (c ∷ s) = item (str (c ∷ [])) (characters s)

abbrev keys : Fields → Items
keys no_fields = no_items
keys (field k v rest) = item (str k) (keys rest)

-- for item in value or []
abbrev pub iterated : Option Json → Raises Items
iterated none = value no_items
iterated (some null) = value no_items
iterated (some (flag false)) = value no_items
iterated (some (flag true)) = raised
iterated (some (number n)) = if n == 0 then value no_items else raised
iterated (some (str s)) = value (characters s)
iterated (some (array items)) = value items
iterated (some (dict fields)) = value (keys fields)

-- value or "", where the text's methods are called next
abbrev pub text_or_empty : Option Json → Raises Text
text_or_empty none = value []
text_or_empty (some null) = value []
text_or_empty (some (flag false)) = value []
text_or_empty (some (flag true)) = raised
text_or_empty (some (number n)) = if n == 0 then value [] else raised
text_or_empty (some (str s)) = value s
text_or_empty (some (array no_items)) = value []
text_or_empty (some (array (item x rest))) = raised
text_or_empty (some (dict no_fields)) = value []
text_or_empty (some (dict (field k v rest))) = raised
