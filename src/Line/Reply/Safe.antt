-- ===== src/Line/Reply/Safe.antt =====
-- What a reply hands to the API, and how it ends.
use linebot.Prelude.{
  ◌≤◌, ◌≡◌, refl, Bool, true, false, Option, none, some, [], ◌∷◌, codes, arith, All, length,
  if_cases,
}
use linebot.Line.Json.{
  Json, null, flag, number, str, array, dict, Items, no_items, item, Fields, get, pop, set, is_text,
  Raises, raised, value, then_value, iterated,
}
use linebot.Line.Reply.{
  hero_key, contents_key, type_key, clean_bubble, clean_items, with_contents, with_bubble,
  with_bubbles, sanitize_contents, sanitize_flex_message, strip_items, strip_contents,
  strip_flex_hero, Message, plain, flex, Delivery, delivered, api_error, other_error, Sent, gave_up,
  fall_back, is_bad_request, after_flex, sanitized, send_reply_message,
}
use linebot.Line.Reply.Heroes.{
  is_secure_hero, are_secure, has_secure_heroes, IsSecure, get-set, get-set_ne, get-pop, get-pop_ne,
}
use linebot.Line.Reply.Cleaned.{OfValue, Cleaned, clean_bubble-Cleaned, clean_items-secure}

-- Where a message without heroes comes out, it is secure, and no exception does.
abbrev OfStripped : Raises (Option Fields) → Type 0
OfStripped raised = ⊥
OfStripped (value none) = Unit
OfStripped (value (some bare)) = has_secure_heroes (get contents_key bare) ≡ true

-- A message that may be sent: it is secure, and taking its heroes away raises nothing.
abbrev Fine : Fields → Type 0
Fine message =
    (has_secure_heroes (get contents_key message) ≡ true)
    × OfStripped (strip_contents message (get contents_key message))

bubble-Fine :
    (message bubble : Fields)
    → is_text (codes "bubble") (get type_key bubble) ≡ true
    → is_secure_hero (get hero_key bubble) ≡ true
    → Fine (with_contents message bubble)
bubble-Fine message bubble kind secure = (
  rw (get-set contents_key (dict bubble) message, kind) secure,
  rw (get-set contents_key (dict bubble) message, kind)
      (rw (get-set contents_key (dict (pop hero_key bubble)) (with_contents message bubble))
        (rw (get-pop_ne hero_key type_key bubble refl, kind, get-pop hero_key bubble) refl)),
)

strip_items-secure : (xs : Items) → are_secure (strip_items xs) ≡ true
strip_items-secure no_items = refl
strip_items-secure (item (dict bubble) rest) =
    rw (get-pop hero_key bubble) (strip_items-secure rest)
strip_items-secure (item null rest) = strip_items-secure rest
strip_items-secure (item (flag b) rest) = strip_items-secure rest
strip_items-secure (item (number n) rest) = strip_items-secure rest
strip_items-secure (item (str s) rest) = strip_items-secure rest
strip_items-secure (item (array xs) rest) = strip_items-secure rest

-- A carousel with these bubbles, put into a message.
listed-secure :
    (message carousel : Fields) (xs : Items)
    → is_text (codes "bubble") (get type_key carousel) ≡ false
    → is_text (codes "carousel") (get type_key carousel) ≡ true
    → are_secure xs ≡ true
    → has_secure_heroes
        (get contents_key (with_contents message (set contents_key (array xs) carousel)))
      ≡ true
listed-secure message carousel xs no_bubble kind secure =
    rw (get-set contents_key (dict (set contents_key (array xs) carousel)) message) (
      rw
        (
          get-set_ne contents_key type_key (array xs) carousel refl,
          no_bubble,
          kind,
          get-set contents_key (array xs) carousel,
        )
        secure)

carousel-Fine :
    (message carousel : Fields) (xs : Items)
    → is_text (codes "bubble") (get type_key carousel) ≡ false
    → is_text (codes "carousel") (get type_key carousel) ≡ true
    → are_secure xs ≡ true
    → Fine (with_contents message (set contents_key (array xs) carousel))
carousel-Fine message carousel xs no_bubble kind secure =
    let listed = set contents_key (array xs) carousel in
    (
      listed-secure message carousel xs no_bubble kind secure,
      rw (get-set contents_key (dict listed) message) (
          rw
            (
              get-set_ne contents_key type_key (array xs) carousel refl,
              no_bubble,
              kind,
              get-set contents_key (array xs) carousel,
            )
            (listed-secure (with_contents message listed) listed (strip_items xs)
              (rw (get-set_ne contents_key type_key (array xs) carousel refl) no_bubble)
              (rw (get-set_ne contents_key type_key (array xs) carousel refl) kind)
              (strip_items-secure xs))),
    )

with_bubble-Fine :
    (message bubble : Fields) (b : Raises Fields)
    → is_text (codes "bubble") (get type_key bubble) ≡ true
    → OfValue (Cleaned bubble) b
    → OfValue Fine (with_bubble message b)
with_bubble-Fine message bubble raised kind h = tt
with_bubble-Fine message bubble (value b) kind h = bubble-Fine message b (rw h.1 kind) h.0

with_bubbles-Fine :
    (message carousel : Fields) (xs : Raises Items)
    → is_text (codes "bubble") (get type_key carousel) ≡ false
    → is_text (codes "carousel") (get type_key carousel) ≡ true
    → OfValue (λ ys. are_secure ys ≡ true) xs
    → OfValue Fine (with_bubbles message carousel xs)
with_bubbles-Fine message carousel raised no_bubble kind h = tt
with_bubbles-Fine message carousel (value xs) no_bubble kind h =
    carousel-Fine message carousel xs no_bubble kind h

cleaned_items :
    (xs : Raises Items) → OfValue (λ ys. are_secure ys ≡ true) (then_value clean_items xs)
cleaned_items raised = tt
cleaned_items (value xs) = clean_items-secure xs

sanitize-Fine : (message : Fields) → OfValue Fine (sanitize_flex_message message)
unfolding sanitize_flex_message
sanitize-Fine message = at (get contents_key message) refl
  where
    other :
        (contents : Fields)
        → get contents_key message ≡ some (dict contents)
        → is_text (codes "bubble") (get type_key contents) ≡ false
        → is_text (codes "carousel") (get type_key contents) ≡ false
        → Fine message
    other contents e no_bubble no_carousel =
        (rw (e, no_bubble, no_carousel) refl, rw (e, no_bubble, no_carousel) tt)

    at :
        (o : Option Json)
        → get contents_key message ≡ o
        → OfValue Fine (sanitize_contents message o)
    at none e = (rw e refl, rw e tt)
    at (some null) e = (rw e refl, rw e tt)
    at (some (flag b)) e = (rw e refl, rw e tt)
    at (some (number n)) e = (rw e refl, rw e tt)
    at (some (str s)) e = (rw e refl, rw e tt)
    at (some (array xs)) e = (rw e refl, rw e tt)
    at (some (dict contents)) e =
        if_cases (OfValue Fine) (is_text (codes "bubble") (get type_key contents)) _ _
          (λ kind.
            with_bubble-Fine message contents (clean_bubble contents) kind
              (clean_bubble-Cleaned contents))
          (λ no_bubble.
            if_cases (OfValue Fine) (is_text (codes "carousel") (get type_key contents)) _ _
              (λ kind.
                with_bubbles-Fine message contents _ no_bubble kind
                  (cleaned_items (iterated (get contents_key contents))))
              (λ no_carousel. other contents e no_bubble no_carousel))

abbrev IsSafe : Sent → Type 0
IsSafe s = (s.escapes ≡ false) × (length s.tried ≤ 2) × All IsSecure s.tried

module _ (deliver : Message → Delivery) where
  fall_back-IsSafe :
      (message : Fields) (bare : Raises (Option Fields))
      → has_secure_heroes (get contents_key message) ≡ true
      → OfStripped bare
      → IsSafe (fall_back deliver message bare)
  fall_back-IsSafe message raised h k = absurd k
  fall_back-IsSafe message (value none) h k = (refl, omega arith, (h, tt))
  fall_back-IsSafe message (value (some bare)) h k = (refl, omega arith, (h, (k, tt)))

  stripped-OfStripped :
      (message : Fields)
      → OfStripped (strip_contents message (get contents_key message))
      → OfStripped (strip_flex_hero message)
  unfolding strip_flex_hero
  stripped-OfStripped message h =
      if_cases OfStripped (is_text (codes "flex") (get type_key message)) _ _ (λ _. h) (λ _. tt)

  after_flex-IsSafe :
      (message : Fields) (d : Delivery) → Fine message → IsSafe (after_flex deliver message d)
  after_flex-IsSafe message delivered h = (refl, omega arith, (h.0, tt))
  after_flex-IsSafe message other_error h = (refl, omega arith, (h.0, tt))
  after_flex-IsSafe message (api_error status) h =
      if_cases IsSafe (is_bad_request status) (fall_back deliver message (strip_flex_hero message))
        (gave_up (flex message ∷ []))
        (λ _.
          fall_back-IsSafe message (strip_flex_hero message) h.0 (stripped-OfStripped message h.1))
        (λ _. (refl, omega arith, (h.0, tt)))

  sanitized-IsSafe : (m : Raises Fields) → OfValue Fine m → IsSafe (sanitized deliver m)
  sanitized-IsSafe raised h = (refl, omega arith, tt)
  sanitized-IsSafe (value message) h = after_flex-IsSafe message (deliver (flex message)) h

  -- Whatever the API does, a reply hands it at most two messages, in each of which every hero is fetched
  -- over https, and no exception leaves the function.
  pub send_reply_message_lem :
      (load_test_mode : Bool) (message : Message)
      → let s = send_reply_message load_test_mode deliver message in
        (s.escapes ≡ false) × (length s.tried ≤ 2) × All IsSecure s.tried
  unfolding send_reply_message
  send_reply_message_lem true message = (refl, omega arith, tt)
  send_reply_message_lem false (plain text) = (refl, omega arith, (tt, tt))
  send_reply_message_lem false (flex message) =
      sanitized-IsSafe (sanitize_flex_message message) (sanitize-Fine message)
