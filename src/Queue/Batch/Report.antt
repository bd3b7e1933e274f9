-- ===== src/Queue/Batch/Report.antt =====
-- What the batch reports adds up, and stays within the counts that the owners set.
use linebot.Prelude.{
  ℕ, ◌+◌, ◌≤◌, ◌≡◌, refl, Bool, Option, none, some, List, [], ◌∷◌, arith, length, length-append,
  Bool-cases, inl, inr, subst, codes,
}
use mathlib.Core.Option.{some-injective}
use linebot.Config.{Config}
use linebot.Database.Tables.{Reservation, Database}
use linebot.Database.RateLimit.{cleanup_rate_limit_records}
use linebot.Database.Runtime.{
  AutoCallConfig, RuntimeSettings, get_runtime_settings, sum_counts, AutoCallSummary, settings_of,
  is_accepting_new, auto_call_configs, get_last_auto_call_summary, build_auto_call_summary,
}
use linebot.Queue.WaitTime.{Clock, should_run_call_batch, refresh_wait_time_estimate}
use linebot.Queue.Calls.{Push, push_of, auto_call_owner}
use linebot.Queue.Calls.Fifo.{auto_call_owner_lem}
use linebot.Queue.Batch.{
  World, Maintained, BatchReport, maintain, auto_call_all, sent_ids, failed_ids, call_batch,
  run_due, process_queued_calls,
}
use linebot.Invariant.{IsConsistent}
use linebot.Invariant.Batch.{auto_call_owner-IsConsistent, estimate-IsConsistent}

auto_call_all-length :
    (now : ℕ) (configs : List AutoCallConfig) (db : Database)
    → IsConsistent db
    → length (auto_call_all now configs db).0 ≤ sum_counts configs
unfolding auto_call_all
auto_call_all-length now [] db c = omega arith
auto_call_all-length now (a ∷ rest) db c =
    let (rows, db') = auto_call_owner now a.owner_admin_id a.auto_call_count db in
    let c' = auto_call_owner-IsConsistent now a.owner_admin_id a.auto_call_count db c in
    omega (
      arith,
      (auto_call_owner_lem now a.owner_admin_id a.auto_call_count db c).0,
      length-append rows (auto_call_all now rest db').0,
      auto_call_all-length now rest db' c',
    )

-- Each selected reservation's message was delivered or not.
sent-failed :
    (delivers : Push → Bool) (rows : List Reservation)
    → length (sent_ids delivers rows) + length (failed_ids delivers rows) ≡ length rows
sent-failed delivers [] = omega arith
sent-failed delivers (r ∷ rows) = elim (Bool-cases (delivers (push_of r))) [
  | inl t ↦ rw t (omega (arith, sent-failed delivers rows))
  | inr f ↦ rw f (omega (arith, sent-failed delivers rows))
]

abbrev pub AddsUp : BatchReport → Type 0
AddsUp r =
    (r.sent_count + length r.failed_ids ≡ r.auto_selected_count)
    × (r.auto_selected_count ≤ r.auto_call_count)

call_batch-AddsUp :
    (world : World) (clock : Clock) (m : Maintained) (runtime : RuntimeSettings) (db : Database)
    → IsConsistent db
    → runtime.auto_call_count ≡ sum_counts runtime.configs
    → AddsUp (call_batch world clock m runtime db).0
unfolding call_batch
call_batch-AddsUp world clock m runtime db c e = (
  sent-failed world.delivers (auto_call_all clock.now runtime.configs db).0,
  auto_call_all-length clock.now runtime.configs db c,
)

-- The settings carry the sum of the owners' counts.
settings-sum :
    (db : Database) (runtime : RuntimeSettings)
    → get_runtime_settings none db ≡ some runtime
    → runtime.auto_call_count ≡ sum_counts runtime.configs
unfolding get_runtime_settings
settings-sum db runtime e =
    go (get_last_auto_call_summary db) (build_auto_call_summary (codes "last") db) runtime e
  where
    go :
        (last latest : Option AutoCallSummary) (r : RuntimeSettings)
        → settings_of
            (is_accepting_new none db)
            (sum_counts (auto_call_configs db))
            (auto_call_configs db)
            last
            latest
          ≡ some r
        → r.auto_call_count ≡ sum_counts r.configs
    go none latest r h = cc
    go (some last) none r h = cc
    go (some last) (some latest) r h =
        subst (λ s. s.auto_call_count ≡ sum_counts s.configs) (some-injective _ _ h) refl

run_due-AddsUp :
    (world : World) (clock : Clock) (m : Maintained) (settings : Option RuntimeSettings)
    (read db : Database) (report : BatchReport)
    → IsConsistent db
    → get_runtime_settings none read ≡ settings
    → (run_due world clock m settings db).0 ≡ some report
    → AddsUp report
run_due-AddsUp world clock m none read db report c e h = cc
run_due-AddsUp world clock m (some runtime) read db report c e h =
    subst AddsUp (some-injective _ _ h)
      (call_batch-AddsUp world clock m runtime db c (settings-sum read runtime e))

-- From a consistent table, a run of the batch reports no more selected reservations than the owners'
-- counts together, and of these as many as were sent or failed, whatever other transactions commit between its
-- own, as long as they keep the table consistent.
pub process_queued_calls-AddsUp :
    (config : Config) (world : World) (clock : Clock) (db : Database) (report : BatchReport)
    → ((k : ℕ) (d : Database) → IsConsistent d → IsConsistent (world.meanwhile k d))
    → IsConsistent db
    → (process_queued_calls config world clock db).0 ≡ some report
    → AddsUp report
unfolding process_queued_calls
process_queued_calls-AddsUp config world clock db report kept c h =
    let m = maintain config (world.online 0) clock db in
    let cleaned = cleanup_rate_limit_records (world.online 1) clock.now (world.meanwhile 0 m.db) in
    let read =
      world.meanwhile 2 (refresh_wait_time_estimate clock none (world.meanwhile 1 cleaned)).1 in
    let estimated = estimate-IsConsistent world kept config clock db c in
    elim (Bool-cases (should_run_call_batch clock)) [
      | inl due ↦
          run_due-AddsUp world clock m (get_runtime_settings none read) read
            (world.meanwhile 3 read) report (kept 3 _ (kept 2 _ estimated)) refl (rw due at h)
      | inr later ↦ subst AddsUp (some-injective _ _ (rw later at h)) (omega arith, omega arith)
    ]
