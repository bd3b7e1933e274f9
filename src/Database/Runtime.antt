-- ===== src/Database/Runtime.antt =====
-- database.py: whether new reservations are accepted, and the settings that the batch reads.
use linebot.Prelude.{
  ℕ, ◌+◌, max, Bool, true, ◌&&◌, Option, none, some, List, [], ◌∷◌, ◌++◌, Text, codes, strip,
  is_empty, to_int, any, select_where, update_where, order_by, map, ltb, ◌==◌, if◌then◌else◌,
}
use linebot.Database.Tables.{AdminAccount, ReservationType, Database, is_id}
use linebot.Database.Rows.{account_of}
use linebot.Database.Settings.{get_setting, set_setting}

abbrev pub is_open_account : AdminAccount → Bool
is_open_account a = a.active && a.accepting_new

unfoldable pub is_accepting_new : Option ℕ → Database → Bool
unfolding account_of
is_accepting_new (some admin_id) db = elim (account_of db admin_id) [
  | none ↦ true
  | some a ↦ a.accepting_new && a.active
]
is_accepting_new none db = any is_open_account db.admin_accounts

unfoldable pub set_accepting_new : Bool → Option ℕ → Database → Database
set_accepting_new flag none db =
    set_setting (codes "accepting_new") (if flag then codes "true" else codes "false") db
set_accepting_new flag (some admin_id) db = record db {
  admin_accounts =
      update_where (λ a. a.id == admin_id) (λ a. record a { accepting_new = flag })
        db.admin_accounts;
}

unfoldable pub set_admin_auto_call_count : ℕ → ℕ → Database → Database
set_admin_auto_call_count admin_id count db = record db {
  admin_accounts =
      update_where (λ a. a.id == admin_id) (λ a. record a { auto_call_count = max 0 count })
        db.admin_accounts;
}

pub record AutoCallConfig : Type 0 where
  pub owner_admin_id : ℕ
  pub auto_call_count : ℕ

abbrev auto_call_config : AdminAccount → AutoCallConfig
auto_call_config a = record { owner_admin_id = a.id; auto_call_count = max 0 a.auto_call_count }

-- SELECT id, auto_call_count ... WHERE active = TRUE AND auto_call_count > 0 ORDER BY id ASC
unfoldable pub auto_call_configs : Database → List AutoCallConfig
unfolding order_by
auto_call_configs db = map auto_call_config (
    order_by (λ a. a.id)
      (select_where (λ a. a.active && ltb 0 a.auto_call_count) db.admin_accounts))

pub record AutoCallSummary : Type 0 where
  pub run_at : Text
  pub sent_count : ℕ
  pub failed_count : ℕ
  pub selected_count : ℕ

-- int((value or "0").strip() or "0"); `none` is the ValueError.
abbrev pub count_of : Text → Option ℕ
count_of value = let stripped = strip value in if is_empty stripped then some 0 else to_int stripped

abbrev pub summary_of : Text → Option ℕ → Option ℕ → Option ℕ → Option AutoCallSummary
summary_of run_at (some sent) (some failed) (some selected) =
    if is_empty run_at
    then some (record { run_at = []; sent_count = 0; failed_count = 0; selected_count = 0 })
    else some (record {
      run_at = run_at;
      sent_count = sent;
      failed_count = failed;
      selected_count = selected;
    })
summary_of run_at _ _ _ = none

-- `prefix` is "last" or "previous".
unfoldable pub build_auto_call_summary : Text → Database → Option AutoCallSummary
unfolding strip get_setting
build_auto_call_summary prefix db =
    summary_of (strip (get_setting db (prefix ++ codes "_auto_call_run_at") []))
      (count_of (get_setting db (prefix ++ codes "_auto_call_sent_count") []))
      (count_of (get_setting db (prefix ++ codes "_auto_call_failed_count") []))
      (count_of (get_setting db (prefix ++ codes "_auto_call_selected_count") []))

-- JOIN admin_accounts a ON t.owner_admin_id = a.id, with a.accepting_new = TRUE
abbrev pub has_accepting_owner : Database → ReservationType → Bool
has_accepting_owner db t =
    any (λ a. is_id t.owner_admin_id a.id && a.accepting_new) db.admin_accounts

-- t.name of the types that accept, whose owner accepts, in the order of their ids
unfoldable pub get_accepting_type_names : Database → List Text
unfolding order_by account_of
get_accepting_type_names db =
    map (λ t. t.name)
      (order_by (λ t. t.id)
        (select_where (λ t. t.accepting && has_accepting_owner db t) db.reservation_types))

abbrev last_or : AutoCallSummary → Option AutoCallSummary → Option AutoCallSummary
last_or previous last = if is_empty previous.run_at then last else some previous

unfoldable pub get_last_auto_call_summary : Database → Option AutoCallSummary
unfolding build_auto_call_summary
get_last_auto_call_summary db = elim (build_auto_call_summary (codes "previous") db) [
  | none ↦ none
  | some previous ↦ last_or previous (build_auto_call_summary (codes "last") db)
]

abbrev pub sum_counts : List AutoCallConfig → ℕ
sum_counts [] = 0
sum_counts (c ∷ rest) = c.auto_call_count + sum_counts rest

pub record RuntimeSettings : Type 0 where
  pub accepting_new : Bool
  pub auto_call_count : ℕ
  pub configs : List AutoCallConfig
  pub last_auto_call : AutoCallSummary
  pub latest_auto_call : AutoCallSummary

abbrev pub settings_of :
    Bool
    → ℕ
    → List AutoCallConfig
    → Option AutoCallSummary
    → Option AutoCallSummary
    → Option RuntimeSettings
settings_of accepting count configs (some last) (some latest) = some (record {
  accepting_new = accepting;
  auto_call_count = count;
  configs = configs;
  last_auto_call = last;
  latest_auto_call = latest;
})
settings_of accepting count configs _ _ = none

abbrev own_count : Option AdminAccount → ℕ
own_count none = 0
own_count (some a) = max 0 a.auto_call_count

-- `none` is the ValueError of a count that is no number.
unfoldable pub get_runtime_settings : Option ℕ → Database → Option RuntimeSettings
unfolding is_accepting_new auto_call_configs get_last_auto_call_summary
get_runtime_settings none db =
    settings_of (is_accepting_new none db) (sum_counts (auto_call_configs db))
      (auto_call_configs db) (get_last_auto_call_summary db)
      (build_auto_call_summary (codes "last") db)
get_runtime_settings (some admin_id) db =
    settings_of (is_accepting_new (some admin_id) db) (own_count (account_of db admin_id)) []
      (get_last_auto_call_summary db) (build_auto_call_summary (codes "last") db)
