-- ===== src/Database/Webhook.antt =====
-- database.py: `claim_webhook_event` and `release_webhook_event`.
pub mod Once
use linebot.Prelude.{
  Bool, true, false, not, Option, none, some, [], ◌∷◌, ◌++◌, Text, text_eq, is_empty, any,
  select_where, if◌then◌else◌,
}
use linebot.Database.Tables.{Database}

-- Whether the event has an id: `not webhook_event_id` fails for None and for the empty text.
abbrev pub is_identified : Option Text → Bool
is_identified none = false
is_identified (some e) = not (is_empty e)

abbrev pub is_claimed : Text → Database → Bool
is_claimed e db = any (text_eq e) db.webhook_events

abbrev pub claim : Text → Database → Bool × Database
claim e db =
    if is_claimed e db
    then (false, db)
    else (true, record db { webhook_events = db.webhook_events ++ e ∷ [] })

unfoldable pub claim_webhook_event : Option Text → Database → Bool × Database
claim_webhook_event none db = (true, db)
claim_webhook_event (some []) db = (true, db)
claim_webhook_event (some (c ∷ e)) db = claim (c ∷ e) db

unfoldable pub release_webhook_event : Option Text → Database → Database
release_webhook_event none db = db
release_webhook_event (some []) db = db
release_webhook_event (some (c ∷ e)) db = record db {
  webhook_events = select_where (λ w. not (text_eq (c ∷ e) w)) db.webhook_events;
}
