-- ===== src/Queue/Batch/Summary.antt =====
-- The summary of the last run: what the batch saves among the settings is what the pages read there.
use linebot.Prelude.{
  ℕ, ◌≡◌, refl, false, none, some, List, [], ◌∷◌, Text, codes, any, decimal, strip, is_empty,
  text_eq, length, Bool-cases, inl, inr, ◌∙◌, ap, count_where, ◌*◌,
}
use linebot.Prelude.Codes.Digits.{
  strip-decimal, is_empty-decimal, all_digits-decimal, digits_value-decimal,
}
use linebot.Database.Tables.{AppSetting, Database}
use linebot.Database.Settings.{lookup, upsert, upsert_all, set_settings, get_setting}
use linebot.Database.Settings.Laws.{lookup-upsert}
use linebot.Database.Runtime.{AutoCallSummary, RuntimeSettings, count_of, build_auto_call_summary}
use linebot.Queue.WaitTime.{
  is_waiting_of, calculate_wait_time_minutes, Clock, wait_time_settings, save_wait_time,
  refresh_wait_time_estimate,
}
use linebot.Queue.Batch.{
  auto_call_all, failed_ids, sent_ids, take_back, World, Maintained, previous_settings,
  batch_settings, call_batch,
}

-- Settings with other keys are passed over.
lookup-upsert_all :
    (key : Text) (items : List (Text × Text)) (settings : List AppSetting)
    → any (λ item. text_eq item.0 key) items ≡ false
    → lookup key (upsert_all items settings) ≡ lookup key settings
lookup-upsert_all key [] settings h = refl
lookup-upsert_all key ((k, v) ∷ rest) settings h = elim (Bool-cases (text_eq k key)) [
  | inl t ↦ cc
  | inr f ↦
      lookup-upsert_all key rest (upsert k v settings) (rw f at h)
      ∙ lookup-upsert k key v settings
      ∙ rw f refl
]

-- The four settings of the last run.
abbrev IsSaved : Text → ℕ → ℕ → ℕ → List AppSetting → Type 0
IsSaved label sent failed selected settings =
    (lookup (codes "last_auto_call_run_at") settings ≡ some label)
    × (lookup (codes "last_auto_call_sent_count") settings ≡ some (decimal sent))
    × (lookup (codes "last_auto_call_failed_count") settings ≡ some (decimal failed))
    × (lookup (codes "last_auto_call_selected_count") settings ≡ some (decimal selected))

abbrev SkipsLast : List (Text × Text) → Type 0
SkipsLast items =
    (any (λ item. text_eq item.0 (codes "last_auto_call_run_at")) items ≡ false)
    × (any (λ item. text_eq item.0 (codes "last_auto_call_sent_count")) items ≡ false)
    × (any (λ item. text_eq item.0 (codes "last_auto_call_failed_count")) items ≡ false)
    × (any (λ item. text_eq item.0 (codes "last_auto_call_selected_count")) items ≡ false)

skip-IsSaved :
    (label : Text) (sent failed selected : ℕ) (items : List (Text × Text))
    (settings : List AppSetting)
    → SkipsLast items
    → IsSaved label sent failed selected settings
    → IsSaved label sent failed selected (upsert_all items settings)
skip-IsSaved label sent failed selected items settings (a, b, c, d) (p, q, r, s) = (
  lookup-upsert_all _ items settings a ∙ p,
  lookup-upsert_all _ items settings b ∙ q,
  lookup-upsert_all _ items settings c ∙ r,
  lookup-upsert_all _ items settings d ∙ s,
)

previous-SkipsLast : (previous : AutoCallSummary) → SkipsLast (previous_settings previous)
previous-SkipsLast previous = elim (Bool-cases (is_empty previous.run_at)) [
  | inl t ↦ rw t (refl, refl, refl, refl)
  | inr f ↦ rw f (refl, refl, refl, refl)
]

batch-IsSaved :
    (label : Text) (sent failed selected : ℕ) (previous : AutoCallSummary)
    (settings : List AppSetting)
    → IsSaved label sent failed selected
        (upsert_all (batch_settings label sent failed selected previous) settings)
batch-IsSaved label sent failed selected previous settings =
    let s1 = upsert (codes "last_auto_call_run_at") label settings in
    let s2 = upsert (codes "last_auto_call_sent_count") (decimal sent) s1 in
    let s3 = upsert (codes "last_auto_call_failed_count") (decimal failed) s2 in
    skip-IsSaved label sent failed selected (previous_settings previous)
      (upsert (codes "last_auto_call_selected_count") (decimal selected) s3)
      (previous-SkipsLast previous)
      (
        lookup-upsert _ _ (decimal selected) s3
            ∙ lookup-upsert _ _ (decimal failed) s2
            ∙ lookup-upsert _ _ (decimal sent) s1
            ∙ lookup-upsert _ _ label settings,
        lookup-upsert _ _ (decimal selected) s3
            ∙ lookup-upsert _ _ (decimal failed) s2
            ∙ lookup-upsert _ _ (decimal sent) s1,
        lookup-upsert _ _ (decimal selected) s3 ∙ lookup-upsert _ _ (decimal failed) s2,
        lookup-upsert _ _ (decimal selected) s3,
      )

-- A saved count reads back.
count_of-decimal : (n : ℕ) → count_of (decimal n) ≡ some n
count_of-decimal n =
    rw (strip-decimal n, is_empty-decimal n, all_digits-decimal n)
      (ap some (digits_value-decimal n))

get_of :
    (key value : Text) (db : Database)
    → lookup key db.app_settings ≡ some value
    → get_setting db key [] ≡ value
unfolding get_setting
get_of key value db e = rw (e, get_setting) refl

summary-IsSaved :
    (label : Text) (sent failed selected : ℕ) (db : Database)
    → strip label ≡ label
    → is_empty label ≡ false
    → IsSaved label sent failed selected db.app_settings
    → build_auto_call_summary (codes "last") db
      ≡ some (record {
        run_at = label;
        sent_count = sent;
        failed_count = failed;
        selected_count = selected;
      })
unfolding build_auto_call_summary
summary-IsSaved label sent failed selected db trimmed named (p, q, r, s) =
    rw
      (
        get_of _ label db p,
        get_of _ (decimal sent) db q,
        get_of _ (decimal failed) db r,
        get_of _ (decimal selected) db s,
        trimmed,
        count_of-decimal sent,
        count_of-decimal failed,
        count_of-decimal selected,
        named,
      )
      refl

refresh-IsSaved :
    (label : Text) (sent failed selected : ℕ) (clock : Clock) (db : Database)
    → IsSaved label sent failed selected db.app_settings
    → IsSaved label sent failed selected (refresh_wait_time_estimate clock none db).1.app_settings
unfolding refresh_wait_time_estimate save_wait_time set_settings
refresh-IsSaved label sent failed selected clock db h =
    let waiting = count_where (is_waiting_of db none) db.reservations in
    skip-IsSaved label sent failed selected
      (wait_time_settings clock.minute_label (calculate_wait_time_minutes waiting * 60) waiting)
      db.app_settings (refl, refl, refl, refl) h

-- After a run of the batch whose label is a text without white space around it, the summary of the last
-- run that is read from the settings is the run's label with the counts that the run reports.
pub call_batch_lem :
    (world : World) (clock : Clock) (m : Maintained) (runtime : RuntimeSettings) (db : Database)
    → strip clock.minute_label ≡ clock.minute_label
    → is_empty clock.minute_label ≡ false
    → let (report, db') = call_batch world clock m runtime db in
      build_auto_call_summary (codes "last") db'
      ≡ some (record {
        run_at = clock.minute_label;
        sent_count = report.sent_count;
        failed_count = length report.failed_ids;
        selected_count = report.auto_selected_count;
      })
unfolding call_batch set_settings
call_batch_lem world clock m runtime db trimmed named =
    let (rows, called) = auto_call_all clock.now runtime.configs db in
    let failed = failed_ids world.delivers rows in
    let sent = length (sent_ids world.delivers rows) in
    let settled = take_back failed (world.meanwhile 4 called) in
    let items =
      batch_settings clock.minute_label sent (length failed) (length rows)
        runtime.latest_auto_call in
    let saved = set_settings items settled in
    summary-IsSaved clock.minute_label sent (length failed) (length rows)
      (refresh_wait_time_estimate clock none saved).1 trimmed named
      (refresh-IsSaved clock.minute_label sent (length failed) (length rows) clock saved (
        batch-IsSaved clock.minute_label sent (length failed) (length rows) runtime.latest_auto_call
          settled.app_settings))
