-- ===== src/Web/Lists.antt =====
-- app/web/lists.py: the handlers that change a list or the suppression list.
use emailmarketing.Api.{of_session}
use emailmarketing.Text.{Text}
use emailmarketing.Suppression.{Race, begin}
use emailmarketing.Models.{Db}
use emailmarketing.Normalize.{Validator}
use emailmarketing.Lists.{
  AddResult, added, delete_list, add_contact, remove_and_suppress, suppress_only,
}
use emailmarketing.Base.{ℕ, Bool, true, false, Option, none, some}

-- whether the flash message of an added contact is a success
unfoldable pub is_added : AddResult → Bool
is_added added = true
is_added _ = false

unfoldable pub add_contact_page : Validator → ℕ → Text → Text → Text → Db → Db × Bool
add_contact_page validator list_id email first_name last_name db =
    let (db', result) = add_contact validator list_id email (some first_name) (some last_name) db in
    (db', is_added result)

-- none where the deletion raises
unfoldable pub delete_list_page : ℕ → Db → Option (Db × Bool)
delete_list_page list_id db = delete_list list_id db

unfoldable pub search_remove : Race → Text → Db → Db
search_remove race email db = of_session (remove_and_suppress race email (begin db))

unfoldable pub suppress_add : Race → Text → Db → Db
suppress_add race email db = of_session (suppress_only race email none (begin db))
