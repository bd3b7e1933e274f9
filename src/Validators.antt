-- ===== src/Validators.antt =====
-- validators.py, with the patterns of config.py.
use linebot.Prelude.{
  ℕ, Bool, true, not, ◌&&◌, ◌||◌, List, [], ◌∷◌, ◌++◌, Text, ◌==◌, leb, is_empty, is_space, strip,
  length, reverse, if◌then◌else◌,
}
use linebot.Config.{Config}

abbrev pub max_type_flavor_text_chars : ℕ
max_type_flavor_text_chars = 100

-- A word that is being read, in reverse, goes before the words that follow it.
abbrev close_word : Text → List Text → List Text
close_word [] words = words
close_word (c ∷ s) words = reverse (c ∷ s) ∷ words

-- s.split(), the word before the text held in reverse
abbrev split_from : Text → Text → List Text
split_from word [] = close_word word []
split_from word (c ∷ s) =
    let rest = split_from (if is_space c then [] else c ∷ word) s in
    if is_space c then close_word word rest else rest

-- " ".join(words)
abbrev join_words : List Text → Text
join_words [] = []
join_words (w ∷ []) = w
join_words (w ∷ v ∷ rest) = w ++ b' ' ∷ join_words (v ∷ rest)

unfoldable pub normalize_type_name : Text → Text
unfolding is_space
normalize_type_name value = join_words (split_from [] value)

-- The class of TYPE_NAME_PATTERN.
unfoldable pub is_type_name_char : ℕ → Bool
is_type_name_char c =
    (leb b'A' c && leb c b'Z')
    || (leb b'a' c && leb c b'z')
    || (leb b'0' c && leb c b'9')
    || (leb 0x3041 c && leb c 0x3093)
    || (leb 0x30a1 c && leb c 0x30f6)
    || (c == 0x30fc)
    || (leb 0x4e00 c && leb c 0x9fa0)
    || (c == 0x3005)
    || (c == 0x30fb)
    || (c == b' ')
    || (c == 0x3000)
    || (c == b'_')
    || (c == b'-')

abbrev pub all_type_name_chars : Text → Bool
all_type_name_chars [] = true
all_type_name_chars (c ∷ s) = is_type_name_char c && all_type_name_chars s

unfoldable pub validate_type_name : Config → Text → Bool
unfolding is_type_name_char
validate_type_name config value =
    not (is_empty value)
    && leb (length value) config.max_type_name_length
    && all_type_name_chars value

unfoldable pub validate_type_flavor_text : Text → Bool
unfolding strip
validate_type_flavor_text value = leb (length (strip value)) max_type_flavor_text_chars
