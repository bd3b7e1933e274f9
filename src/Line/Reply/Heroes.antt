-- ===== src/Line/Reply/Heroes.antt =====
-- What `send_reply_message` hands to the API: pictures over https only, twice at most, and no exception.
use linebot.Prelude.{
  ◌≡◌, refl, Bool, true, false, ◌&&◌, Option, none, some, Text, codes, text_eq, text_eq_iff,
  text_eq_refl, arith, Bool-cases, inl, inr, if◌then◌else◌,
}
use linebot.Line.Json.{
  Json, array, dict, Items, no_items, item, Fields, no_fields, field, get, pop, set, is_text,
  Raises, raised, value, text_or_empty,
}
use linebot.Line.Reply.{hero_key, contents_key, type_key, is_secure_url, Message, plain, flex}

abbrev pub secure_value : Raises Text → Bool
secure_value raised = false
secure_value (value url) = is_secure_url url

-- A hero that is a dict names an https URL.
abbrev pub is_secure_hero : Option Json → Bool
is_secure_hero (some (dict hero)) = secure_value (text_or_empty (get (codes "url") hero))
is_secure_hero _ = true

abbrev pub are_secure : Items → Bool
are_secure no_items = true
are_secure (item (dict bubble) rest) = is_secure_hero (get hero_key bubble) && are_secure rest
are_secure (item _ rest) = are_secure rest

abbrev pub are_secure_listed : Option Json → Bool
are_secure_listed (some (array items)) = are_secure items
are_secure_listed _ = true

abbrev pub has_secure_heroes : Option Json → Bool
has_secure_heroes (some (dict contents)) =
    if is_text (codes "bubble") (get type_key contents)
    then is_secure_hero (get hero_key contents)
    else if is_text (codes "carousel") (get type_key contents)
    then are_secure_listed (get contents_key contents)
    else true
has_secure_heroes _ = true

-- Every picture of the message is fetched over https.
abbrev pub IsSecure : Message → Type 0
IsSecure (plain text) = Unit
IsSecure (flex message) = has_secure_heroes (get contents_key message) ≡ true

pub get-set : (key : Text) (v : Json) (fields : Fields) → get key (set key v fields) ≡ some v
get-set key v no_fields = rw (text_eq_refl key) refl
get-set key v (field k w rest) = elim (Bool-cases (text_eq k key)) [
  | inl t ↦ rw t (rw t refl)
  | inr f ↦ rw f (rw f (get-set key v rest))
]

pub get-set_ne :
    (key j : Text) (v : Json) (fields : Fields)
    → text_eq key j ≡ false
    → get j (set key v fields) ≡ get j fields
get-set_ne key j v no_fields ne = rw ne refl
get-set_ne key j v (field k w rest) ne = elim (Bool-cases (text_eq k key)) [
  | inl t ↦
      (let same : text_eq k j ≡ false = ground (arith, text_eq_iff k key) in rw t (rw same refl))
  | inr f ↦ rw f (ground (arith, get-set_ne key j v rest ne))
]

pub get-pop : (key : Text) (fields : Fields) → get key (pop key fields) ≡ none
get-pop key no_fields = refl
get-pop key (field k w rest) = elim (Bool-cases (text_eq k key)) [
  | inl t ↦ rw t (get-pop key rest)
  | inr f ↦ rw f (rw f (get-pop key rest))
]

pub get-pop_ne :
    (key j : Text) (fields : Fields) → text_eq key j ≡ false → get j (pop key fields) ≡ get j fields
get-pop_ne key j no_fields ne = refl
get-pop_ne key j (field k w rest) ne = elim (Bool-cases (text_eq k key)) [
  | inl t ↦
      (let same : text_eq k j ≡ false = ground (arith, text_eq_iff k key) in
        rw (t, same) (get-pop_ne key j rest ne))
  | inr f ↦ rw f (ground (arith, get-pop_ne key j rest ne))
]
