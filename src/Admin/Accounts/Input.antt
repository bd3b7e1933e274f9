-- ===== src/Admin/Accounts/Input.antt =====
-- blueprints/admin_routes.py: how `admin_accounts_create` reads login ids and the list of accounts to make.
use linebot.Prelude.{
  ℕ, suc, ◌+◌, Bool, true, false, not, ◌&&◌, ◌||◌, Option, none, some, List, [], ◌∷◌, ◌++◌, Text,
  codes, decimal, strip, is_empty, text_eq, any, reverse, map, length, leb, ltb, ◌==◌, select_where,
  if◌then◌else◌,
}

-- The upper-case letters whose lower-case form is an ASCII letter; U+212A is the Kelvin sign. The others have
-- lower-case forms that no login id contains.
abbrev pub lower_char : ℕ → ℕ
lower_char c = if leb b'A' c && leb c b'Z' then c + 32 else if c == 0x212a then b'k' else c

-- s.lower()
abbrev pub lower : Text → Text
lower = map lower_char

unfoldable pub normalize_login_id : Text → Text
unfolding strip
normalize_login_id raw = lower (strip raw)

abbrev pub is_id_head : ℕ → Bool
is_id_head c = (leb b'a' c && leb c b'z') || (leb b'0' c && leb c b'9')

abbrev pub is_id_char : ℕ → Bool
is_id_char c = is_id_head c || (c == b'_') || (c == b'-')

abbrev pub all_id_chars : Text → Bool
all_id_chars [] = true
all_id_chars (c ∷ s) = is_id_char c && all_id_chars s

-- LOGIN_ID_PATTERN.fullmatch(s)
unfoldable pub is_login_id : Text → Bool
is_login_id [] = false
is_login_id (c ∷ s) = is_id_head c && all_id_chars s && leb 2 (length s) && leb (length s) 31

-- What ends a line for `str.splitlines`.
abbrev is_line_end : ℕ → Bool
is_line_end c =
    (leb 0x0a c && leb c 0x0d)
    || (leb 0x1c c && leb c 0x1e)
    || (c == 0x85)
    || (c == 0x2028)
    || (c == 0x2029)

-- The lines of a text, the line before it held in reverse. A "\r\n" leaves an empty line between the two,
-- which the caller drops like the others.
abbrev lines_from : Text → Text → List Text
lines_from line [] = reverse line ∷ []
lines_from line (c ∷ s) =
    let rest = lines_from (if is_line_end c then [] else c ∷ line) s in
    if is_line_end c then reverse line ∷ rest else rest

unfoldable pub bulk_lines : Text → List Text
unfolding strip
bulk_lines raw = select_where (λ line. not (is_empty line)) (map strip (lines_from [] raw))

-- line.split(",", 1), where the line has a comma; the text before it is held in reverse.
abbrev pub cut_from : Text → Text → Option (Text × Text)
cut_from before [] = none
cut_from before (c ∷ s) =
    let rest = cut_from (c ∷ before) s in if c == b',' then some (reverse before, s) else rest

-- What is made of each line: a login id and a password.
abbrev pub NewAccount : Type 0
NewAccount = Text × Text

pub data Parsed : Type 0 where
  refused : Text → Parsed
  accounts : List NewAccount → Parsed

abbrev pub then_account : NewAccount → Parsed → Parsed
then_account new (refused message) = refused message
then_account new (accounts rest) = accounts (new ∷ rest)

abbrev line_error : ℕ → Text → Parsed
line_error idx message = refused (decimal idx ++ message)

-- The checks of one line; `rest` is what the lines after it come to.
abbrev pub parse_line : ℕ → List Text → Option (Text × Text) → Parsed → Parsed
parse_line idx seen none rest = line_error idx (codes "行目の形式が不正です。login_id,password 形式で入力してください。")
parse_line idx seen (some (raw_login_id, raw_password)) rest =
    let login_id = normalize_login_id raw_login_id in
    let password = strip raw_password in
    if not (is_login_id login_id)
    then line_error idx (codes "行目のログインIDが不正です。3〜32文字の英小文字・数字・_-で入力してください。")
    else if ltb (length password) 8
    then line_error idx (codes "行目のパスワードは8文字以上で入力してください。")
    else if any (text_eq login_id) seen
    then refused (codes "入力内でログインID「" ++ login_id ++ codes "」が重複しています。")
    else then_account (login_id, password) rest

abbrev pub id_of_cut : Option (Text × Text) → Text
id_of_cut none = []
id_of_cut (some (raw_login_id, raw_password)) = normalize_login_id raw_login_id

unfoldable pub parse_lines : ℕ → List Text → List Text → Parsed
unfolding strip normalize_login_id is_login_id decimal
parse_lines idx seen [] = accounts []
parse_lines idx seen (line ∷ lines) =
    let cut = cut_from [] line in
    parse_line idx seen cut (parse_lines (suc idx) (id_of_cut cut ∷ seen) lines)
