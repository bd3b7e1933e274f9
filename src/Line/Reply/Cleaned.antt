-- ===== src/Line/Reply/Cleaned.antt =====
-- Cleaning a bubble, or the bubbles of a carousel, leaves heroes over https only.
use linebot.Prelude.{◌≡◌, refl, true, Option, none, some, Text, codes, arith, if_cases}
use linebot.Line.Json.{
  Json, null, flag, number, str, array, dict, Items, no_items, item, Fields, get, pop, Raises,
  raised, value, text_or_empty,
}
use linebot.Line.Reply.{
  hero_key, type_key, is_secure_url, judge_url, judge_hero, clean_bubble, clean_items, cons_item,
  cons_other,
}
use linebot.Line.Reply.Heroes.{is_secure_hero, are_secure, get-pop, get-pop_ne}

abbrev pub OfValue : {A : Type 0} → (A → Type 0) → Raises A → Type 0
OfValue P raised = Unit
OfValue P (value a) = P a

-- A bubble that is as it was but for its hero, which is fetched over https.
abbrev pub Cleaned : Fields → Fields → Type 0
Cleaned bubble b = (is_secure_hero (get hero_key b) ≡ true) × (get type_key b ≡ get type_key bubble)

judge_url-Cleaned :
    (bubble hero : Fields) (u : Raises Text)
    → get hero_key bubble ≡ some (dict hero)
    → text_or_empty (get (codes "url") hero) ≡ u
    → OfValue (Cleaned bubble) (judge_url bubble u)
judge_url-Cleaned bubble hero raised e k = tt
judge_url-Cleaned bubble hero (value url) e k =
    if_cases (Cleaned bubble) (is_secure_url url) bubble (pop hero_key bubble)
      (λ t. (rw (e, k) t, refl))
      (λ f. (rw (get-pop hero_key bubble) refl, get-pop_ne hero_key type_key bubble refl))

pub clean_bubble-Cleaned : (bubble : Fields) → OfValue (Cleaned bubble) (clean_bubble bubble)
unfolding clean_bubble
clean_bubble-Cleaned bubble = judged (get hero_key bubble) refl
  where
    judged :
        (o : Option Json) → get hero_key bubble ≡ o → OfValue (Cleaned bubble) (judge_hero bubble o)
    judged none e = (rw e refl, refl)
    judged (some null) e = (rw e refl, refl)
    judged (some (flag b)) e = (rw e refl, refl)
    judged (some (number n)) e = (rw e refl, refl)
    judged (some (str s)) e = (rw e refl, refl)
    judged (some (array xs)) e = (rw e refl, refl)
    judged (some (dict hero)) e = judge_url-Cleaned bubble hero _ e refl

cons_item-secure :
    (bubble : Fields) (b : Raises Fields) (rest : Raises Items)
    → OfValue (Cleaned bubble) b
    → OfValue (λ xs. are_secure xs ≡ true) rest
    → OfValue (λ xs. are_secure xs ≡ true) (cons_item b rest)
cons_item-secure bubble raised rest h k = tt
cons_item-secure bubble (value b) raised h k = tt
cons_item-secure bubble (value b) (value rest) h k = ground (arith, h.0, k)

cons_other-secure :
    (x : Json) (rest : Raises Items)
    → ((xs : Items) → are_secure (item x xs) ≡ are_secure xs)
    → OfValue (λ xs. are_secure xs ≡ true) rest
    → OfValue (λ xs. are_secure xs ≡ true) (cons_other x rest)
cons_other-secure x raised plain_item h = tt
cons_other-secure x (value xs) plain_item h = rw (plain_item xs) h

pub clean_items-secure : (xs : Items) → OfValue (λ ys. are_secure ys ≡ true) (clean_items xs)
unfolding clean_items
clean_items-secure no_items = refl
clean_items-secure (item (dict bubble) rest) =
    cons_item-secure bubble (clean_bubble bubble) (clean_items rest) (clean_bubble-Cleaned bubble)
      (clean_items-secure rest)
clean_items-secure (item null rest) =
    cons_other-secure null (clean_items rest) (λ xs. refl) (clean_items-secure rest)
clean_items-secure (item (flag b) rest) =
    cons_other-secure (flag b) (clean_items rest) (λ xs. refl) (clean_items-secure rest)
clean_items-secure (item (number n) rest) =
    cons_other-secure (number n) (clean_items rest) (λ xs. refl) (clean_items-secure rest)
clean_items-secure (item (str s) rest) =
    cons_other-secure (str s) (clean_items rest) (λ xs. refl) (clean_items-secure rest)
clean_items-secure (item (array xs) rest) =
    cons_other-secure (array xs) (clean_items rest) (λ xs. refl) (clean_items-secure rest)
