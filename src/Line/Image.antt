-- ===== src/Line/Image.antt =====
-- services/line_service.py: `save_type_image_upload`, which turns an uploaded picture into one that a Flex
-- message may show. The file names' parts (Werkzeug, pathlib) and the pictures (Pillow) are parameters.
use linebot.Prelude.{
  ℕ, suc, Bool, true, false, not, ◌&&◌, ◌||◌, Option, none, some, List, [], ◌∷◌, ◌++◌, Text, codes,
  text_eq, is_empty, strip, any, take, length, ltb, if◌then◌else◌,
}
use linebot.Config.{Config}

pub record Upload : Type 0 where
  pub filename : Text
  pub content : List ℕ

-- A picture that Pillow has opened; `encoded` is what it writes, as PNG or as JPEG.
pub record Picture : Type 0 where
  pub has_alpha : Bool
  pub is_animated : Bool
  pub encoded : Bool → List ℕ

-- `suffix_of` is Path(secure_filename(_)).suffix.lower(), `stem_of` the stem; `picture_of` answers none where
-- Pillow raises UnidentifiedImageError.
pub record Imaging : Type 0 where
  pub suffix_of : Text → Text
  pub stem_of : Text → Text
  pub picture_of : List ℕ → Option Picture

pub record SavedImage : Type 0 where
  pub data' : List ℕ
  pub mime_type : Text
  pub image_filename : Text

-- `refused` is the ValueError, with its text.
pub data SaveResult : Type 0 where
  saved : SavedImage → SaveResult
  refused : Text → SaveResult

abbrev pub no_image : SavedImage
no_image = record { data' = []; mime_type = []; image_filename = [] }

abbrev allowed_type_image_extensions : List Text
allowed_type_image_extensions =
    codes ".jpg" ∷ codes ".jpeg" ∷ codes ".png" ∷ codes ".gif" ∷ codes ".webp" ∷ []

abbrev pub is_allowed_suffix : Text → Bool
is_allowed_suffix suffix = any (text_eq suffix) allowed_type_image_extensions

abbrev pub extension_refused : Text
extension_refused = codes "画像は jpg, jpeg, png, gif, webp のみアップロードできます。"

abbrev stem_or_image : Text → Text
stem_or_image [] = codes "image"
stem_or_image (c ∷ s) = c ∷ s

abbrev pub use_png : Text → Picture → Bool
use_png suffix p = (p.has_alpha || text_eq suffix (codes ".png")) && not p.is_animated

-- The end of the function, from the bytes that were written.
abbrev written_image : Text → Bool → List ℕ → SavedImage
written_image stem png [] = no_image
written_image stem true (b ∷ bytes) = record {
  data' = b ∷ bytes;
  mime_type = codes "image/png";
  image_filename = stem_or_image stem ++ codes ".png";
}
written_image stem false (b ∷ bytes) = record {
  data' = b ∷ bytes;
  mime_type = codes "image/jpeg";
  image_filename = stem_or_image stem ++ codes ".jpg";
}

abbrev converted : Text → Text → Option Picture → SaveResult
converted stem suffix none = refused (codes "画像ファイルとして認識できませんでした。")
converted stem suffix (some p) =
    saved (written_image stem (use_png suffix p) (p.encoded (use_png suffix p)))

abbrev read_image : Imaging → Config → Text → Text → List ℕ → SaveResult
read_image imaging config filename suffix [] = saved no_image
read_image imaging config filename suffix (b ∷ raw_data) =
    if ltb config.max_type_image_upload_bytes (length (b ∷ raw_data))
    then refused (codes "画像ファイルが大きすぎます。")
    else converted (imaging.stem_of filename) suffix (imaging.picture_of (b ∷ raw_data))

unfoldable pub save_type_image_upload : Imaging → Config → Upload → SaveResult
unfolding strip
save_type_image_upload imaging config file =
    let filename = strip file.filename in
    let suffix = imaging.suffix_of filename in
    if is_empty filename
    then saved no_image
    else if not (is_allowed_suffix suffix)
    then refused extension_refused
    else read_image imaging config filename suffix
        (take (suc config.max_type_image_upload_bytes) file.content)
