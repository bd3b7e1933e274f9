-- ===== src/Auth/Request/Path.antt =====
-- Where a login may lead: which paths `sanitize_next_path` lets through.
use linebot.Prelude.{
  ◌≡◌, true, false, not, Option, none, some, [], ◌∷◌, Text, codes, starts_with, strip,
  if◌then◌else◌, Bool-cases, inl, inr, subst,
}
use mathlib.Core.Option.{some-injective}
use linebot.Auth.Request.{sanitize_next_path}

abbrev IsLocal : Text → Type 0
IsLocal value = (starts_with value (codes "/") ≡ true) × (starts_with value (codes "//") ≡ false)

guarded-IsLocal :
    (v value : Text)
    → (if not (starts_with v (codes "/"))
        then none
        else if starts_with v (codes "//")
        then none
        else some v)
      ≡ some value
    → IsLocal value
guarded-IsLocal v value e = elim (Bool-cases (starts_with v (codes "/"))) [
  | inr f ↦ cc
  | inl t ↦ elim (Bool-cases (starts_with v (codes "//"))) [
    | inl u ↦ cc
    | inr u ↦ subst IsLocal (some-injective _ _ (rw (t, u) at e)) (t, u)
  ]
]

-- A path that is let through begins with a slash, and not with two.
pub sanitize_next_path_lem :
    (next_path : Option Text) (value : Text)
    → sanitize_next_path next_path ≡ some value
    → (starts_with value (codes "/") ≡ true) × (starts_with value (codes "//") ≡ false)
unfolding sanitize_next_path
sanitize_next_path_lem none value e = cc
sanitize_next_path_lem (some []) value e = cc
sanitize_next_path_lem (some (c ∷ s)) value e = guarded-IsLocal (strip (c ∷ s)) value e
