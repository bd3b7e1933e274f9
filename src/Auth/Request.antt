-- ===== src/Auth/Request.antt =====
-- auth.py: the CSRF token, the batch runner's token, the host list and the path after a login.
pub mod Path
use linebot.Prelude.{
  ℕ, Bool, true, false, not, ◌&&◌, ◌||◌, Option, none, some, List, [], ◌∷◌, ◌++◌, Text, codes,
  text_eq, is_empty, starts_with, strip, drop, any, reverse, if◌then◌else◌,
}
use linebot.Auth.Session.{Session}

abbrev pub or_else : Option Text → Option Text → Option Text
or_else none b = b
or_else (some s) b = if is_empty s then b else some s

abbrev pub tokens_match : Option Text → Option Text → Bool
tokens_match none b = false
tokens_match (some a) none = false
tokens_match (some a) (some b) = not (is_empty a) && not (is_empty b) && text_eq a b

-- Whether the request passes; where it does not, the program aborts with 403.
unfoldable pub validate_csrf : Session → Option Text → Option Text → Bool
validate_csrf session form_token header_token =
    tokens_match session.csrf_token (or_else form_token header_token)

abbrev text_or_empty : Option Text → Text
text_or_empty none = []
text_or_empty (some s) = s

-- `runner_token` is BATCH_CALL_RUNNER_TOKEN.
unfoldable pub validate_batch_runner_token : Text → Option Text → Option Text → Bool
unfolding strip
validate_batch_runner_token runner_token authorization task_token =
    let auth_header = strip (text_or_empty authorization) in
    let header_token = strip (text_or_empty task_token) in
    if is_empty runner_token
    then false
    else if starts_with auth_header (codes "Bearer ")
    then text_eq (strip (drop 7 auth_header)) runner_token
    else if is_empty header_token
    then false
    else text_eq header_token runner_token

unfoldable pub sanitize_next_path : Option Text → Option Text
unfolding strip
sanitize_next_path none = none
sanitize_next_path (some []) = none
sanitize_next_path (some (c ∷ s)) =
    let value = strip (c ∷ s) in
    if not (starts_with value (codes "/"))
    then none
    else if starts_with value (codes "//")
    then none
    else some value

-- s.endswith(suffix)
abbrev pub ends_with : Text → Text → Bool
ends_with s suffix = starts_with (reverse s) (reverse suffix)

-- `host` is the request's, without its port and in lower case. False is the abort with 400.
unfoldable pub enforce_host_allowlist : List Text → Text → Bool
enforce_host_allowlist [] host = true
enforce_host_allowlist (a ∷ rest) host =
    any (text_eq host) (a ∷ rest) || any (λ h. ends_with host (b'.' ∷ h)) (a ∷ rest)
