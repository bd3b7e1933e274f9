-- ===== src/Line/Reply.antt =====
-- services/line_service.py: `send_reply_message`, with the two functions that change a Flex message before it
-- is sent. Building the SDK's objects and calling the API are one parameter.
pub mod Heroes
pub mod Cleaned
pub mod Safe
use linebot.Prelude.{
  ℕ, Bool, true, false, not, ◌&&◌, Option, none, some, List, [], ◌∷◌, ◌++◌, Text, codes,
  starts_with, strip, ◌==◌, if◌then◌else◌,
}
use linebot.Line.Json.{
  Json, null, flag, number, str, array, dict, Items, no_items, item, Fields, no_fields, field, get,
  pop, set, is_text, Raises, raised, value, then_value, iterated, text_or_empty,
}

abbrev pub hero_key : Text
hero_key = codes "hero"

abbrev pub contents_key : Text
contents_key = codes "contents"

abbrev pub type_key : Text
type_key = codes "type"

-- hero_url.strip().startswith("https://")
abbrev pub is_secure_url : Text → Bool
is_secure_url url = starts_with (strip url) (codes "https://")

abbrev pub keep_if_secure : Fields → Text → Fields
keep_if_secure bubble url = if is_secure_url url then bubble else pop hero_key bubble

abbrev pub judge_url : Fields → Raises Text → Raises Fields
judge_url bubble raised = raised
judge_url bubble (value url) = value (keep_if_secure bubble url)

-- A bubble without a hero whose URL is not https.
abbrev pub judge_hero : Fields → Option Json → Raises Fields
judge_hero bubble (some (dict hero)) = judge_url bubble (text_or_empty (get (codes "url") hero))
judge_hero bubble _ = value bubble

unfoldable pub clean_bubble : Fields → Raises Fields
unfolding strip
clean_bubble bubble = judge_hero bubble (get hero_key bubble)

abbrev pub cons_item : Raises Fields → Raises Items → Raises Items
cons_item raised rest = raised
cons_item (value bubble) raised = raised
cons_item (value bubble) (value rest) = value (item (dict bubble) rest)

abbrev pub cons_other : Json → Raises Items → Raises Items
cons_other x raised = raised
cons_other x (value rest) = value (item x rest)

unfoldable pub clean_items : Items → Raises Items
unfolding clean_bubble
clean_items no_items = value no_items
clean_items (item (dict bubble) rest) = cons_item (clean_bubble bubble) (clean_items rest)
clean_items (item null rest) = cons_other null (clean_items rest)
clean_items (item (flag b) rest) = cons_other (flag b) (clean_items rest)
clean_items (item (number n) rest) = cons_other (number n) (clean_items rest)
clean_items (item (str s) rest) = cons_other (str s) (clean_items rest)
clean_items (item (array xs) rest) = cons_other (array xs) (clean_items rest)

-- message["contents"] = contents
abbrev pub with_contents : Fields → Fields → Fields
with_contents message contents = set contents_key (dict contents) message

abbrev pub with_bubble : Fields → Raises Fields → Raises Fields
with_bubble message raised = raised
with_bubble message (value bubble) = value (with_contents message bubble)

abbrev pub with_bubbles : Fields → Fields → Raises Items → Raises Fields
with_bubbles message carousel raised = raised
with_bubbles message carousel (value items) =
    value (with_contents message (set contents_key (array items) carousel))

abbrev pub sanitize_contents : Fields → Option Json → Raises Fields
sanitize_contents message (some (dict contents)) =
    if is_text (codes "bubble") (get type_key contents)
    then with_bubble message (clean_bubble contents)
    else if is_text (codes "carousel") (get type_key contents)
    then with_bubbles message contents
        (then_value clean_items (iterated (get contents_key contents)))
    else value message
sanitize_contents message _ = value message

unfoldable pub sanitize_flex_message : Fields → Raises Fields
unfolding clean_bubble clean_items
sanitize_flex_message message = sanitize_contents message (get contents_key message)

abbrev pub strip_items : Items → Items
strip_items no_items = no_items
strip_items (item (dict bubble) rest) = item (dict (pop hero_key bubble)) (strip_items rest)
strip_items (item null rest) = item null (strip_items rest)
strip_items (item (flag b) rest) = item (flag b) (strip_items rest)
strip_items (item (number n) rest) = item (number n) (strip_items rest)
strip_items (item (str s) rest) = item (str s) (strip_items rest)
strip_items (item (array xs) rest) = item (array xs) (strip_items rest)

abbrev pub stripped_carousel : Fields → Fields → Raises Items → Raises (Option Fields)
stripped_carousel message carousel raised = raised
stripped_carousel message carousel (value items) =
    value (some (with_contents message (set contents_key (array (strip_items items)) carousel)))

abbrev pub strip_contents : Fields → Option Json → Raises (Option Fields)
strip_contents message (some (dict contents)) =
    if is_text (codes "bubble") (get type_key contents)
    then value (some (with_contents message (pop hero_key contents)))
    else if is_text (codes "carousel") (get type_key contents)
    then stripped_carousel message contents (iterated (get contents_key contents))
    else value none
strip_contents message _ = value none

-- `none` is a message without heroes to take away.
unfoldable pub strip_flex_hero : Fields → Raises (Option Fields)
strip_flex_hero message =
    if is_text (codes "flex") (get type_key message)
    then strip_contents message (get contents_key message)
    else value none

-- A reply is a text or a dict.
pub data Message : Type 0 where
  plain : Text → Message
  flex : Fields → Message

-- What building and sending a reply ends in: an ApiException with its status, or another exception.
pub data Delivery : Type 0 where
  delivered : Delivery
  api_error : Option ℕ → Delivery
  other_error : Delivery

-- Whether a message went out, whether an exception leaves the function, and what was handed to the API.
pub record Sent : Type 0 where
  pub success : Bool
  pub escapes : Bool
  pub tried : List Message

abbrev pub gave_up : List Message → Sent
gave_up tried = record { success = false; escapes = false; tried = tried }

abbrev is_delivered : Delivery → Bool
is_delivered delivered = true
is_delivered _ = false

abbrev pub fall_back : (Message → Delivery) → Fields → Raises (Option Fields) → Sent
fall_back deliver message raised = record {
  success = false;
  escapes = true;
  tried = flex message ∷ [];
}
fall_back deliver message (value none) = gave_up (flex message ∷ [])
fall_back deliver message (value (some bare)) = record {
  success = is_delivered (deliver (flex bare));
  escapes = false;
  tried = flex message ∷ flex bare ∷ [];
}

abbrev pub is_bad_request : Option ℕ → Bool
is_bad_request none = false
is_bad_request (some status) = status == 400

abbrev pub after_flex : (Message → Delivery) → Fields → Delivery → Sent
after_flex deliver message delivered = record {
  success = true;
  escapes = false;
  tried = flex message ∷ [];
}
after_flex deliver message (api_error status) =
    if is_bad_request status
    then fall_back deliver message (strip_flex_hero message)
    else gave_up (flex message ∷ [])
after_flex deliver message other_error = gave_up (flex message ∷ [])

abbrev pub sanitized : (Message → Delivery) → Raises Fields → Sent
sanitized deliver raised = gave_up []
sanitized deliver (value message) = after_flex deliver message (deliver (flex message))

unfoldable pub send_reply_message : Bool → (Message → Delivery) → Message → Sent
unfolding sanitize_flex_message strip_flex_hero
send_reply_message true deliver message = gave_up []
send_reply_message false deliver (plain text) = record {
  success = is_delivered (deliver (plain text));
  escapes = false;
  tried = plain text ∷ [];
}
send_reply_message false deliver (flex message) = sanitized deliver (sanitize_flex_message message)
