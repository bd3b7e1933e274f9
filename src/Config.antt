-- ===== src/Config.antt =====
-- config.py: the numbers and flags that the environment gives, and the parsers that bound them.
pub mod Bounds
use linebot.Prelude.{
  ℕ, min, max, Bool, true, false, Option, none, some, Text, codes, strip, to_int, drop, starts_with,
  if◌then◌else◌,
}

-- The settings of the environment that the modelled operations read.
pub record Config : Type 0 where
  pub load_test_mode : Bool
  pub session_idle_timeout_seconds : ℕ
  pub max_type_name_length : ℕ
  pub max_user_message_chars : ℕ
  pub max_type_price : ℕ
  pub user_request_rate_limit_count : ℕ
  pub user_request_rate_limit_window_seconds : ℕ
  pub call_timeout_minutes : ℕ
  pub line_push_max_retries : ℕ
  pub line_push_retry_base_seconds : ℕ
  pub line_push_retry_max_seconds : ℕ
  pub login_max_attempts : ℕ
  pub login_window_seconds : ℕ
  pub public_base_url : Text
  pub max_type_image_upload_bytes : ℕ

-- max(minimum, min(value, maximum)), where `negative` is the sign of the value
abbrev bounded : ℕ → ℕ → ℕ → Bool → Option ℕ → ℕ
bounded default minimum maximum negative none = default
bounded default minimum maximum true (some size) = minimum
bounded default minimum maximum false (some size) = max minimum (min size maximum)

-- `raw` is what `os.getenv` answers; a value that `int` refuses counts as absent.
unfoldable pub parse_int_env : Option Text → ℕ → ℕ → ℕ → ℕ
unfolding strip
parse_int_env none default minimum maximum = default
parse_int_env (some raw) default minimum maximum =
    let value = strip raw in
    if starts_with value (codes "-")
    then bounded default minimum maximum true (to_int (drop 1 value))
    else if starts_with value (codes "+")
    then bounded default minimum maximum false (to_int (drop 1 value))
    else bounded default minimum maximum false (to_int value)
