-- ===== src/Database/Rows.antt =====
-- The joins and look-ups that several statements share.
use linebot.Prelude.{
  ℕ, Bool, true, false, Option, none, some, List, Text, text_eq, ◌==◌, ◌&&◌, ltb, find_where,
  if◌then◌else◌, [], ◌∷◌,
}
use linebot.Database.Tables.{
  Reservation, ReservationType, AdminAccount, Database, is_active, coalesce, coalesce_or,
}

-- JOIN reservation_types t ON r.type_id = t.id: the primary key gives one row at most.
unfoldable pub type_of : Database → Reservation → Option ReservationType
type_of db r = elim r.type_id [
  | none ↦ none
  | some i ↦ find_where (λ t. t.id == i) db.reservation_types
]

abbrev pub type_owner : Option ReservationType → Option ℕ
type_owner none = none
type_owner (some t) = t.owner_admin_id

-- COALESCE(r.owner_admin_id, t.owner_admin_id) under a LEFT JOIN
unfoldable pub owner_of : Database → Reservation → Option ℕ
unfolding type_of
owner_of db r = coalesce r.owner_admin_id (type_owner (type_of db r))

abbrev pub is_joined : Option ReservationType → Bool
is_joined none = false
is_joined (some t) = true

unfoldable pub account_of : Database → ℕ → Option AdminAccount
account_of db i = find_where (λ a. a.id == i) db.admin_accounts

-- COALESCE(r.reservation_no, r.id)
abbrev pub display_no : Reservation → ℕ
display_no r = coalesce_or r.reservation_no r.id

-- r.user_id = %s AND r.status IN ('waiting', 'called')
abbrev pub is_active_of : Text → Reservation → Bool
is_active_of user r = text_eq r.user_id user && is_active r.status

-- ... ORDER BY r.id DESC LIMIT 1
abbrev pub newer : Reservation → Option Reservation → Option Reservation
newer r none = some r
newer r (some s) = if ltb s.id r.id then some r else some s

abbrev pub latest_where : (Reservation → Bool) → List Reservation → Option Reservation
latest_where p [] = none
latest_where p (r ∷ rs) = let rest = latest_where p rs in if p r then newer r rest else rest
