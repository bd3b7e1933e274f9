-- ===== src/Line/Push.antt =====
-- services/line_service.py: sending a push or a broadcast message, with retries under one retry key.
pub mod Retries
use linebot.Prelude.{
  ℕ, zero, suc, ◌+◌, ◌-◌, ◌*◌, ◌^◌, ◌≡◌, min, Bool, true, false, not, ◌||◌, Option, none, some,
  List, [], ◌∷◌, ◌++◌, Text, ◌==◌, leb, if◌then◌else◌,
}
use linebot.Config.{Config}

-- What one call of the Messaging API does: it is accepted, it raises an error with the HTTP status
-- that the error carries, or it raises the TypeError of an SDK without `x_line_retry_key`.
pub data ApiResult : Type 0 where
  accepted : ApiResult
  failure : Option ℕ → ApiResult
  unsupported_key : ApiResult

-- The answers of the API to the calls of one attempt, with the retry key and without.
pub record Api : Type 0 where
  pub with_key : ℕ → Text → ApiResult
  pub without_key : ℕ → ApiResult

-- `extract_http_status` of the error that leaves an attempt; a second TypeError carries none.
pub data Attempt : Type 0 where
  done : Attempt
  error : Option ℕ → Attempt

abbrev plain_result : ApiResult → Attempt
plain_result accepted = done
plain_result (failure status) = error status
plain_result unsupported_key = error none

abbrev keyed_result : Api → ℕ → ApiResult → Attempt
keyed_result api attempt accepted = done
keyed_result api attempt (failure status) = error status
keyed_result api attempt unsupported_key = plain_result (api.without_key attempt)

unfoldable pub push_message_with_retry_key : Api → Text → ℕ → Attempt
push_message_with_retry_key api retry_key attempt =
    keyed_result api attempt (api.with_key attempt retry_key)

-- An error without a status is a time-out or a broken connection.
abbrev pub is_retryable_push_error : Option ℕ → Bool
is_retryable_push_error none = true
is_retryable_push_error (some status) = leb 500 status || (status == 429)

abbrev pub is_accepted_before : Option ℕ → Bool
is_accepted_before none = false
is_accepted_before (some status) = status == 409

abbrev pub retry_delay : Config → ℕ → ℕ
retry_delay config attempt =
    min config.line_push_retry_max_seconds (config.line_push_retry_base_seconds * 2 ^ (attempt - 1))

-- What the loop did: whether it returned or raised, its calls, and the seconds that it slept.
pub record Sent : Type 0 where
  pub success : Bool
  pub calls : ℕ
  pub slept : ℕ

abbrev after_delay : ℕ → Sent → Sent
after_delay delay s = record s { calls = suc s.calls; slept = delay + s.slept }

abbrev pub on_error : Config → ℕ → Option ℕ → Sent → Sent
on_error config attempt status rest =
    if is_accepted_before status
    then record { success = true; calls = 1; slept = 0 }
    else if leb config.line_push_max_retries attempt || not (is_retryable_push_error status)
    then record { success = false; calls = 1; slept = 0 }
    else after_delay (retry_delay config attempt) rest

abbrev pub on_attempt : Config → ℕ → Attempt → Sent → Sent
on_attempt config attempt done rest = record { success = true; calls = 1; slept = 0 }
on_attempt config attempt (error status) rest = on_error config attempt status rest

-- for attempt in range(attempt, LINE_PUSH_MAX_RETRIES + 1), `left` of them
unfoldable pub send_attempts : Config → (ℕ → Attempt) → ℕ → ℕ → Sent
send_attempts config send zero attempt = record { success = true; calls = 0; slept = 0 }
send_attempts config send (suc left) attempt =
    let rest = send_attempts config send left (attempt + 1) in
    on_attempt config attempt (send attempt) rest

-- In the load-test mode nothing is sent.
unfoldable pub send_push_message : Config → Api → Text → Sent
send_push_message config api retry_key =
    if config.load_test_mode
    then record { success = true; calls = 0; slept = 0 }
    else send_attempts config (push_message_with_retry_key api retry_key)
        config.line_push_max_retries 1

-- The same loop around the API's broadcast; `success` is false where it raises.
unfoldable pub send_broadcast_message : Config → Api → Text → Sent
unfolding send_attempts push_message_with_retry_key
send_broadcast_message config api retry_key =
    if config.load_test_mode
    then record { success = true; calls = 0; slept = 0 }
    else send_attempts config (push_message_with_retry_key api retry_key)
        config.line_push_max_retries 1
