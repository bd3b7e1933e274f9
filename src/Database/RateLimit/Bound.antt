-- ===== src/Database/RateLimit/Bound.antt =====
-- The request limit holds in every window.
use linebot.Prelude.{ℕ, Text, count_where}
use linebot.Config.{Config}
use linebot.Database.Tables.{Database}
use linebot.Database.RateLimit.{is_recent}

-- The requests of a user that are on record in the window that ends now.
abbrev pub requests_in_window : Config → ℕ → Text → Database → ℕ
requests_in_window config now user db =
    count_where (is_recent now config.user_request_rate_limit_window_seconds user)
      db.user_request_records
