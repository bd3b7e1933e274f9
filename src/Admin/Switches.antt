-- ===== src/Admin/Switches.antt =====
-- blueprints/admin_routes.py: the handlers by which an admin opens and closes the own reservations, sets how
-- many are called at a time, and sets the last digit of the ticket numbers.
pub mod Digit
use linebot.Prelude.{
  ℕ, ◌%◌, min, Bool, not, Option, none, some, [], Text, codes, strip, isdigit, digits_value,
  if◌then◌else◌,
}
use linebot.Database.Tables.{Database}
use linebot.Database.Runtime.{is_accepting_new, set_accepting_new, set_admin_auto_call_count}
use linebot.Queue.Number.{set_management_no}
use linebot.Admin.Reservations.{Response, redirect_login, redirect_to}

abbrev home : Response
home = redirect_to (codes "admin_page") []

unfoldable pub admin_toggle_accepting : Option ℕ → Database → Response × Database
admin_toggle_accepting none db = (redirect_login, db)
admin_toggle_accepting (some admin) db =
    (home, set_accepting_new (not (is_accepting_new (some admin) db)) (some admin) db)

-- `raw` is the form's value, or the empty text.
unfoldable pub admin_auto_call_count : Option ℕ → Text → Database → Response × Database
unfolding strip
admin_auto_call_count none raw db = (redirect_login, db)
admin_auto_call_count (some admin) raw db =
    let value = strip raw in
    (
      home,
      set_admin_auto_call_count admin (if isdigit value then min (digits_value 0 value) 50 else 0)
          db,
    )

unfoldable pub admin_management_no : Option ℕ → Text → Database → Response × Database
unfolding strip
admin_management_no none raw db = (redirect_login, db)
admin_management_no (some admin) raw db =
    let value = strip raw in
    (
      home,
      if isdigit value then set_management_no (digits_value 0 value % 10) (some admin) db else db,
    )
