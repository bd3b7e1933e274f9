-- ===== src/Admin/Accounts/Named.antt =====
-- Every login id that the lines of a form name keeps to the pattern.
use linebot.Prelude.{
  ℕ, suc, ◌≡◌, true, not, Option, none, some, List, [], ◌∷◌, Text, text_eq, any, All, length, ltb,
  arith, if_cases, strip,
}
use linebot.Admin.Accounts.Input.{
  normalize_login_id, is_login_id, NewAccount, Parsed, refused, accounts, parse_lines, then_account,
  parse_line, cut_from, id_of_cut,
}

-- The login ids that the lines name.
abbrev pub NamedNew : NewAccount → Type 0
NamedNew new = is_login_id new.0 ≡ true

abbrev pub NamedParsed : Parsed → Type 0
NamedParsed (refused message) = Unit
NamedParsed (accounts news) = All NamedNew news

then-NamedParsed :
    (new : NewAccount) (rest : Parsed)
    → NamedNew new
    → NamedParsed rest
    → NamedParsed (then_account new rest)
then-NamedParsed new (refused message) h k = tt
then-NamedParsed new (accounts news) h k = (h, k)

line-NamedParsed :
    (idx : ℕ) (seen : List Text) (cut : Option (Text × Text)) (rest : Parsed)
    → NamedParsed rest
    → NamedParsed (parse_line idx seen cut rest)
line-NamedParsed idx seen none rest k = tt
line-NamedParsed idx seen (some (raw_id, raw_password)) rest k =
    let login_id = normalize_login_id raw_id in
    let password = strip raw_password in
    if_cases NamedParsed (not (is_login_id login_id)) _ _ (λ _. tt)
      (λ good.
        if_cases NamedParsed (ltb (length password) 8) _ _ (λ _. tt)
          (λ _.
            if_cases NamedParsed (any (text_eq login_id) seen) _ _ (λ _. tt)
              (λ _. then-NamedParsed (login_id, password) rest (ground arith) k)))

pub parse_lines-NamedParsed :
    (idx : ℕ) (seen lines : List Text) → NamedParsed (parse_lines idx seen lines)
unfolding parse_lines
parse_lines-NamedParsed idx seen [] = tt
parse_lines-NamedParsed idx seen (line ∷ lines) =
    line-NamedParsed idx seen (cut_from [] line) _
      (parse_lines-NamedParsed (suc idx) (id_of_cut (cut_from [] line) ∷ seen) lines)
