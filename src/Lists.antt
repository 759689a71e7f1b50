-- ===== src/Lists.antt =====
-- app/services/lists.py: single contacts, and the removal of an address from the whole system. The
-- session of a request is a transaction, as in Suppression.
pub mod Laws
use emailmarketing.Sending.SendOne.Validate.{pool_or}
use emailmarketing.Cascades.{delete_contacts, uses_list, delete_list_row}
use emailmarketing.Sending.SendOne.Message.{non_empty}
use emailmarketing.Import.{accepted, finalize_import}
use emailmarketing.Suppression.{Race, Session, is_suppressed, suppress}
use emailmarketing.Normalize.{Validator, normalize_email, validate_syntax}
use emailmarketing.Models.{
  Db, SuppressionReason, Contact, ContactStatus, VerificationResult, ContactList, get_contact_list,
  ListVerificationStatus,
}
use emailmarketing.Base.{
  ℕ, Bool, true, false, not, Option, none, some, List, [], ◌∷◌, ◌++◌, if◌then◌else◌, where_, any,
  or_default, ◌+◌,
}
use emailmarketing.Text.{◌==◌, Text, is_empty, codes, strip}

-- `reason` of the AddResult
pub data AddResult : Type 0 where
  added invalid duplicate suppressed : AddResult

-- `lst.contact_count`, counted again
abbrev pub recount_list : ℕ → Db → Db
recount_list list_id db = finalize_import list_id db

unfoldable pub insert_new : ℕ → Text → Option Text → Option Text → Db → Db
insert_new list_id norm first_name last_name db = recount_list list_id (record db {
  contacts =
      db.contacts
      ++ record {
        id = db.next_contact_id;
        email = norm;
        first_name = non_empty first_name;
        last_name = non_empty last_name;
        custom_fields = [];
        status = ContactStatus.active;
        verification_result = VerificationResult.pending;
        list_id = some list_id;
      }
        ∷ [];
  next_contact_id = db.next_contact_id + 1;
})

unfoldable pub add_checked : ℕ → Option Text → Option Text → Option Text → Db → Db × AddResult
add_checked list_id none first_name last_name db = (db, invalid)
add_checked list_id (some norm) first_name last_name db =
    if is_empty norm
    then (db, invalid)
    else if is_suppressed db norm
    then (db, suppressed)
    else if any (λ (c : Contact). c.email == norm) db.contacts
    then (db, duplicate)
    else (insert_new list_id norm first_name last_name db, added)

unfoldable pub add_contact : Validator → ℕ → Text → Option Text → Option Text → Db → Db × AddResult
add_contact validator list_id email =
    add_checked list_id (accepted (validate_syntax validator (some email)))

unfoldable pub delete_contact : Text → Db → Db
unfolding delete_contacts
delete_contact norm db = delete_contacts (λ (c : Contact). c.email == norm) db

unfoldable pub remove_under : Race → Option Text → Session → Session × Bool
remove_under race none s = (s, false)
remove_under race (some norm) s =
    let (s', newly) =
      suppress race norm SuppressionReason.manual (some (codes "manual removal")) true s in
    (record s' { current = delete_contact norm s'.current }, true)

unfoldable pub remove_and_suppress : Race → Text → Session → Session × Bool
remove_and_suppress race email = remove_under race (normalize_email (some email))

unfoldable pub suppress_only_under :
    Race → Option Text → SuppressionReason → Session → Session × Bool
suppress_only_under race none reason s = (s, false)
suppress_only_under race (some norm) reason s =
    ((suppress race norm reason (some (codes "manual suppression")) true s).0, true)

-- `reason` as it is read by `SuppressionReason(…)`, or `none` where that raises
unfoldable pub suppress_only : Race → Text → Option SuppressionReason → Session → Session × Bool
suppress_only race email reason =
    suppress_only_under race (normalize_email (some email))
      (or_default reason SuppressionReason.manual)

-- `name.strip() or "Untitled list"`; the uploaded file's name and the user are left out
unfoldable pub create_list : Text → Db → Db × ℕ
create_list name db = (
  record db {
    contact_lists =
        db.contact_lists
        ++ record {
          id = db.next_list_id;
          name = pool_or (some (strip name)) (codes "Untitled list");
          contact_count = 0;
          verification_status = ListVerificationStatus.pending;
        }
          ∷ [];
    next_list_id = db.next_list_id + 1;
  },
  db.next_list_id,
)

-- none where the deletion raises, since a campaign refers to the list
unfoldable pub delete_list_found : Option ContactList → ℕ → Db → Option (Db × Bool)
delete_list_found none list_id db = some (db, false)
delete_list_found (some l) list_id db =
    if uses_list list_id db then none else some (delete_list_row list_id db, true)

unfoldable pub delete_list : ℕ → Db → Option (Db × Bool)
delete_list list_id db = delete_list_found (get_contact_list db list_id) list_id db
