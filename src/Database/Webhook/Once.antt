-- ===== src/Database/Webhook/Once.antt =====
-- An event is handled once, unless its handling fails.
use linebot.Prelude.{
  ◌≡◌, refl, true, false, not, ◌&&◌, some, List, [], ◌∷◌, ◌++◌, Text, arith, text_eq, text_eq_iff,
  text_eq_refl, any, any-append, select_where, Bool-cases, inl, inr, is_empty,
}
use linebot.Database.Tables.{Database}
use linebot.Database.Webhook.{is_claimed, claim_webhook_event, release_webhook_event}

claimed-after : (e : Text) (events : List Text) → any (text_eq e) (events ++ e ∷ []) ≡ true
claimed-after e events = ground (arith, any-append (text_eq e) events (e ∷ []), text_eq_refl e)

any-without_self :
    (e : Text) (events : List Text)
    → any (text_eq e) (select_where (λ w. not (text_eq e w)) events) ≡ false
any-without_self e [] = refl
any-without_self e (w ∷ ws) = ground (arith, any-without_self e ws)

any-without :
    (e j : Text) (events : List Text)
    → any (text_eq j) (select_where (λ w. not (text_eq e w)) events)
      ≡ (not (text_eq e j) && any (text_eq j) events)
any-without e j [] = ground arith
any-without e j (w ∷ ws) =
    ground (arith, any-without e j ws, text_eq_iff e w, text_eq_iff j w, text_eq_iff e j)

-- The first claim of an event with an id succeeds exactly when the event is not on record; it is on
-- record afterwards, and a second claim fails and changes nothing.
pub claim_once :
    (e : Text) (db : Database)
    → is_empty e ≡ false
    → let (first, db') = claim_webhook_event (some e) db in
      (first ≡ not (is_claimed e db))
      × (is_claimed e db' ≡ true)
      × (claim_webhook_event (some e) db' ≡ (false, db'))
unfolding claim_webhook_event
claim_once [] db named = cc
claim_once (c ∷ cs) db named = elim (Bool-cases (is_claimed (c ∷ cs) db)) [
  | inl old ↦ rw old (refl, old, rw old refl)
  | inr new ↦ rw new (
    refl,
    claimed-after (c ∷ cs) db.webhook_events,
    rw (claimed-after (c ∷ cs) db.webhook_events) refl,
  )
]

-- A released event is off record and can be claimed again; any other is on record as before.
pub release_reopens :
    (e j : Text) (db : Database)
    → is_empty e ≡ false
    → (is_claimed e (release_webhook_event (some e) db) ≡ false)
      × ((claim_webhook_event (some e) (release_webhook_event (some e) db)).0 ≡ true)
      × (is_claimed j (release_webhook_event (some e) db) ≡ (not (text_eq e j) && is_claimed j db))
unfolding claim_webhook_event release_webhook_event
release_reopens [] j db named = cc
release_reopens (c ∷ cs) j db named =
    let gone = any-without_self (c ∷ cs) db.webhook_events in
    (gone, rw gone refl, any-without (c ∷ cs) j db.webhook_events)
