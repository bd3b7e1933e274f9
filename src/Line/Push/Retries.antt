-- ===== src/Line/Push/Retries.antt =====
-- The bounds of the retries, and what a success or a failure says.
use linebot.Prelude.{
  ℕ, zero, suc, ◌+◌, ◌-◌, ◌*◌, ◌≤◌, ◌<◌, ◌≡◌, refl, sym, subst, Bool, true, false, not, ◌||◌,
  Option, arith, leb, Bool-cases, inl, inr, ◌⊎◌,
}
use linebot.Config.{Config}
use linebot.Line.Push.{
  Attempt, done, error, Sent, is_retryable_push_error, is_accepted_before, retry_delay, on_error,
  on_attempt, send_attempts,
}

retry_delay-le :
    (config : Config) (attempt : ℕ)
    → retry_delay config attempt ≤ config.line_push_retry_max_seconds
retry_delay-le config attempt = omega arith

-- The loop makes at least one call and at most one for each attempt that is left, and sleeps between
-- two calls for at most the greatest delay.
abbrev pub Bounded : Config → ℕ → Sent → Type 0
Bounded config left s =
    (1 ≤ s.calls)
    × (s.calls ≤ left)
    × (s.slept + config.line_push_retry_max_seconds ≤ s.calls * config.line_push_retry_max_seconds)

-- The last attempt is the one after which LINE_PUSH_MAX_RETRIES is reached.
abbrev IsLast : Config → ℕ → ℕ → Type 0
IsLast config left attempt = left + attempt ≡ config.line_push_max_retries + 1

on_error-Bounded :
    (config : Config) (left attempt : ℕ) (status : Option ℕ) (rest : Sent)
    → IsLast config (suc left) attempt
    → (attempt < config.line_push_max_retries → Bounded config left rest)
    → Bounded config (suc left) (on_error config attempt status rest)
on_error-Bounded config left attempt status rest last h =
    elim (Bool-cases (is_accepted_before status)) [
      | inl before ↦ rw before (omega arith, omega arith, omega arith)
      | inr fresh ↦
          elim (Bool-cases
            (leb config.line_push_max_retries attempt || not (is_retryable_push_error status))) [
              | inl stop ↦ rw (fresh, stop) (omega arith, omega arith, omega arith)
              | inr again ↦
                  (let (least, most, slept) = h (more attempt again) in
                    rw (fresh, again)
                      (
                        omega arith,
                        omega arith,
                        omega (arith, slept, retry_delay-le config attempt),
                      ))
            ]
    ]
  where
    more :
        (k : ℕ)
        → (leb config.line_push_max_retries k || not (is_retryable_push_error status)) ≡ false
        → k < config.line_push_max_retries
    more k e = ground arith

on_attempt-Bounded :
    (config : Config) (left attempt : ℕ) (a : Attempt) (rest : Sent)
    → IsLast config (suc left) attempt
    → (attempt < config.line_push_max_retries → Bounded config left rest)
    → Bounded config (suc left) (on_attempt config attempt a rest)
on_attempt-Bounded config left attempt done rest last h = (omega arith, omega arith, omega arith)
on_attempt-Bounded config left attempt (error status) rest last h =
    on_error-Bounded config left attempt status rest last h

send_attempts-Bounded :
    (config : Config) (send : ℕ → Attempt) (left attempt : ℕ)
    → IsLast config (suc left) attempt
    → Bounded config (suc left) (send_attempts config send (suc left) attempt)
unfolding send_attempts
send_attempts-Bounded config send zero attempt last =
    on_attempt-Bounded config zero attempt (send attempt) _ last (λ h. absurd (omega arith))
send_attempts-Bounded config send (suc left) attempt last =
    on_attempt-Bounded config (suc left) attempt (send attempt) _ last
      (λ h. send_attempts-Bounded config send left (attempt + 1) (omega arith))

-- How the loop ended: at a call that was accepted, or that found its message accepted before, or with
-- an error that is not retried, or with the last attempt.
abbrev pub Accepted : Attempt → Type 0
Accepted done = Unit {0}
Accepted (error status) = is_accepted_before status ≡ true

abbrev pub Refused : Config → ℕ → Attempt → Type 0
Refused config attempt done = ⊥
Refused config attempt (error status) =
    (is_accepted_before status ≡ false)
    × ((is_retryable_push_error status ≡ false) ⊎ (config.line_push_max_retries ≤ attempt))

abbrev pub Ended : Config → (ℕ → Attempt) → ℕ → Bool → Type 0
Ended config send attempt true = Accepted (send attempt)
Ended config send attempt false = Refused config attempt (send attempt)

abbrev EndedAt : Config → (ℕ → Attempt) → ℕ → Sent → Type 0
EndedAt config send attempt s =
    (k : ℕ) × (k + 1 ≡ attempt + s.calls) × Ended config send k s.success

abbrev EndsWith : Config → (ℕ → Attempt) → Sent → Type 0
EndsWith config send s = (k : ℕ) × (k ≡ s.calls) × Ended config send k s.success

on_error-EndedAt :
    (config : Config) (send : ℕ → Attempt) (attempt : ℕ) (status : Option ℕ) (rest : Sent)
    → send attempt ≡ error status
    → (attempt < config.line_push_max_retries → EndedAt config send (attempt + 1) rest)
    → EndedAt config send attempt (on_error config attempt status rest)
on_error-EndedAt config send attempt status rest e h =
    elim (Bool-cases (is_accepted_before status)) [
      | inl before ↦ rw before (attempt, refl, rw e before)
      | inr fresh ↦
          elim (Bool-cases
            (leb config.line_push_max_retries attempt || not (is_retryable_push_error status))) [
              | inl stop ↦ rw (fresh, stop) (attempt, refl, rw e (fresh, why attempt stop))
              | inr again ↦
                  (let (k, at, end) = h (more attempt again) in
                    rw (fresh, again) (k, omega arith, end))
            ]
    ]
  where
    more :
        (k : ℕ)
        → (leb config.line_push_max_retries k || not (is_retryable_push_error status)) ≡ false
        → k < config.line_push_max_retries
    more k q = ground arith

    why :
        (k : ℕ)
        → (leb config.line_push_max_retries k || not (is_retryable_push_error status)) ≡ true
        → (is_retryable_push_error status ≡ false) ⊎ (config.line_push_max_retries ≤ k)
    why k q = ground arith

on_attempt-EndedAt :
    (config : Config) (send : ℕ → Attempt) (attempt : ℕ) (a : Attempt) (rest : Sent)
    → send attempt ≡ a
    → (attempt < config.line_push_max_retries → EndedAt config send (attempt + 1) rest)
    → EndedAt config send attempt (on_attempt config attempt a rest)
on_attempt-EndedAt config send attempt done rest e h = (attempt, refl, rw e tt)
on_attempt-EndedAt config send attempt (error status) rest e h =
    on_error-EndedAt config send attempt status rest e h

send_attempts-EndedAt :
    (config : Config) (send : ℕ → Attempt) (left attempt : ℕ)
    → IsLast config (suc left) attempt
    → EndedAt config send attempt (send_attempts config send (suc left) attempt)
unfolding send_attempts
send_attempts-EndedAt config send zero attempt last =
    on_attempt-EndedAt config send attempt (send attempt) _ refl (λ h. absurd (omega arith))
send_attempts-EndedAt config send (suc left) attempt last =
    on_attempt-EndedAt config send attempt (send attempt) _ refl
      (λ h. send_attempts-EndedAt config send left (attempt + 1) (omega arith))

abbrev Outcome : Config → (ℕ → Attempt) → ℕ → Type 0
Outcome config send n =
    Bounded config n (send_attempts config send n 1)
    × EndsWith config send (send_attempts config send n 1)

-- With at least one retry configured, sending makes between one call and as many as configured, sleeps at
-- most the greatest delay between two calls, and ends as its last call did: it returns when that call was
-- accepted (or its retry key had been, 409), and raises only on an error that is not retried or at the
-- last attempt.
pub send_attempts_lem :
    (config : Config) (send : ℕ → Attempt)
    → 1 ≤ config.line_push_max_retries
    → let s = send_attempts config send config.line_push_max_retries 1 in
      Bounded config config.line_push_max_retries s
      × ((k : ℕ) × (k ≡ s.calls) × Ended config send k s.success)
send_attempts_lem config send h =
    let m = config.line_push_max_retries in
    let e : m ≡ suc (m - 1) = omega arith in
    let bounded = send_attempts-Bounded config send (m - 1) 1 (omega arith) in
    let (k, at, end) = send_attempts-EndedAt config send (m - 1) 1 (omega arith) in
    subst (Outcome config send) (sym e) (bounded, (k, omega arith, end))
