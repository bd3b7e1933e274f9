-- ===== src/Admin/Types/Kept.antt =====
-- The well-formedness of the table of types (`ensure_types_table`): its keys, and the references to it.
use linebot.Prelude.{
  ℕ, suc, ◌<◌, ◌≡◌, refl, Bool, true, false, not, Option, none, some, List, [], ◌∷◌, ◌++◌, any,
  any-append, any-false→All, All, All-append, All-map, All-zip, All-select, any-select, any-update,
  select_where, update_where, ◌==◌, arith,
}
use linebot.Config.{Config}
use linebot.Database.Tables.{ReservationType, Database, is_id}
use linebot.Invariant.{Pairwise, written, All-written, Pairwise-written, Pairwise-select}
use linebot.Invariant.Reserve.{Pairwise-append}
use linebot.Line.Image.{Imaging}
use linebot.Admin.Types.{is_own_type, has_type_name, other_has_name}
use linebot.Admin.Types.Apart.{ApartTypes, apart-updated, rename, IsFree, apart-renamed}
use linebot.Admin.Types.Rows.{TypeEdit, new_type, is_of_type, run_edit}
use linebot.Admin.Types.Change.{
  TypeChange, same, used_up, added, deleted, updated, renamed, run_edit_change,
}

abbrev pub has_type_id : ℕ → ReservationType → Bool
has_type_id i t = t.id == i

-- The type that a reservation names is in the table.
abbrev pub IsKnown : List ReservationType → Option ℕ → Type 0
IsKnown types none = Unit
IsKnown types (some i) = any (has_type_id i) types ≡ true

pub record TypesConsistent (db : Database) : Type 0 where
  pub apart : Pairwise ApartTypes db.reservation_types
  pub below : All (λ t. t.id < db.next_type_id) db.reservation_types
  pub known : All (λ r. IsKnown db.reservation_types r.type_id) db.reservations

IsKnown-updated :
    (p : ReservationType → Bool) (f : ReservationType → ReservationType)
    (types : List ReservationType)
    → ((t : ReservationType) → (f t).id ≡ t.id)
    → (o : Option ℕ) → IsKnown types o
    → IsKnown (update_where p f types) o
IsKnown-updated p f types keep none h = tt
IsKnown-updated p f types keep (some i) h =
    rw (any-update (has_type_id i) p f types (λ t. rw (keep t) refl)) h

IsKnown-added :
    (types : List ReservationType) (t : ReservationType) (o : Option ℕ)
    → IsKnown types o
    → IsKnown (types ++ t ∷ []) o
IsKnown-added types t none h = tt
IsKnown-added types t (some i) h = rw (any-append (has_type_id i) types (t ∷ []), h) refl

IsKnown-deleted :
    (admin type_id : ℕ) (types : List ReservationType) (o : Option ℕ)
    → is_id o type_id ≡ false
    → IsKnown types o
    → IsKnown (select_where (λ t. not (is_own_type admin type_id t)) types) o
IsKnown-deleted admin type_id types none other h = tt
IsKnown-deleted admin type_id types (some i) other h =
    any-select (has_type_id i) (λ t. not (is_own_type admin type_id t)) types (λ t e. ground arith)
      h

All-unit : (types : List ReservationType) → All {0, 0} (λ _. Unit) types
All-unit [] = tt
All-unit (t ∷ types) = (tt, All-unit types)

written-TypesConsistent :
    (admin type_id : ℕ) (f : ReservationType → ReservationType) (db : Database)
    → ((t : ReservationType) → (f t).id ≡ t.id)
    → (Q : ReservationType → Type 0) → All Q db.reservation_types
    → ((s t : ReservationType)
        → Q s
        → Q t
        → ApartTypes s t
        → ApartTypes
            (written (is_own_type admin type_id) f s)
            (written (is_own_type admin type_id) f t))
    → TypesConsistent db
    → TypesConsistent (record db {
      reservation_types = update_where (is_own_type admin type_id) f db.reservation_types;
    })
written-TypesConsistent admin type_id f db kept Q q keep c = record {
  apart =
      Pairwise-written Q (is_own_type admin type_id) f ApartTypes db.reservation_types q keep
        c.apart;
  below =
      All-written Q (is_own_type admin type_id) f (λ t. t.id < db.next_type_id)
        (λ t. t.id < db.next_type_id) db.reservation_types q (λ t _ h. low t h) c.below;
  known =
      All-map (λ r. IsKnown db.reservation_types r.type_id)
        (λ r. IsKnown (update_where (is_own_type admin type_id) f db.reservation_types) r.type_id)
        db.reservations
        (λ r. IsKnown-updated (is_own_type admin type_id) f db.reservation_types kept r.type_id)
        c.known;
}
  where
    low :
        (t : ReservationType)
        → t.id < db.next_type_id
        → (written (is_own_type admin type_id) f t).id < db.next_type_id
    low t h = ground (arith, kept t)

change-TypesConsistent :
    (admin : ℕ) (db db' : Database)
    → TypeChange admin db db'
    → TypesConsistent db
    → TypesConsistent db'
change-TypesConsistent admin db _ same c = c
change-TypesConsistent admin db _ used_up c = record {
  apart = c.apart;
  below =
      All-map (λ t. t.id < db.next_type_id) (λ t. t.id < suc db.next_type_id) db.reservation_types
        (λ t h. omega arith) c.below;
  known = c.known;
}
change-TypesConsistent admin db _ (added name flavor image price free) c = record {
  apart =
      Pairwise-append ApartTypes db.reservation_types
        (new_type db.next_type_id admin name flavor image price) c.apart
        (All-zip (λ t. t.id < db.next_type_id) (λ t. has_type_name name t ≡ false)
          (λ t. ApartTypes t (new_type db.next_type_id admin name flavor image price))
          db.reservation_types (λ t below apart. (λ e. omega arith, apart)) c.below
          (any-false→All (has_type_name name) db.reservation_types free));
  below =
      All-append (λ t. t.id < suc db.next_type_id) db.reservation_types
        (new_type db.next_type_id admin name flavor image price ∷ [])
        (All-map (λ t. t.id < db.next_type_id) (λ t. t.id < suc db.next_type_id)
          db.reservation_types (λ t h. omega arith) c.below)
        (omega arith, tt);
  known =
      All-map (λ r. IsKnown db.reservation_types r.type_id)
        (λ r.
          IsKnown
            (db.reservation_types ++ new_type db.next_type_id admin name flavor image price ∷ [])
            r.type_id)
        db.reservations (λ r. IsKnown-added db.reservation_types _ r.type_id) c.known;
}
change-TypesConsistent admin db _ (deleted type_id unused) c = record {
  apart =
      Pairwise-select (λ t. not (is_own_type admin type_id t)) ApartTypes db.reservation_types
        c.apart;
  below =
      All-select (λ t. t.id < db.next_type_id) (λ t. not (is_own_type admin type_id t))
        db.reservation_types c.below;
  known =
      All-zip (λ r. is_of_type type_id r ≡ false) (λ r. IsKnown db.reservation_types r.type_id)
        (λ r.
          IsKnown (select_where (λ t. not (is_own_type admin type_id t)) db.reservation_types)
            r.type_id)
        db.reservations (λ r. IsKnown-deleted admin type_id db.reservation_types r.type_id)
        (any-false→All (is_of_type type_id) db.reservations unused) c.known;
}
change-TypesConsistent admin db _ (updated type_id f k) c =
    written-TypesConsistent admin type_id f db k.id_kept (λ _. Unit) (All-unit db.reservation_types)
      (λ s t _ _. apart-updated (is_own_type admin type_id) f k s t) c
change-TypesConsistent admin db _ (renamed type_id name free) c =
    written-TypesConsistent admin type_id (rename admin type_id name) db (λ t. refl)
      (IsFree admin type_id name)
      (any-false→All (other_has_name type_id name) db.reservation_types free)
      (apart-renamed admin type_id name) c

-- Whatever an admin asks of the types, ids and names stay unique, and each reservation's type stays there.
pub run_edit-TypesConsistent :
    (imaging : Imaging) (config : Config) (admin : ℕ) (edit : TypeEdit) (db : Database)
    → TypesConsistent db
    → TypesConsistent (run_edit imaging config (some admin) edit db).1
run_edit-TypesConsistent imaging config admin edit db =
    change-TypesConsistent admin db _ (run_edit_change admin db imaging config edit)
