-- ===== src/Lists/Laws.antt =====
-- A removed address stays out.
use emailmarketing.Suppression.Laws.{suppress-is_suppressed}
use emailmarketing.Normalize.Laws.{normalize_email_idem}
use emailmarketing.Import.{accepted}
use emailmarketing.Models.{Db, SuppressionReason}
use emailmarketing.Text.{Text, is_empty, codes}
use emailmarketing.Suppression.{
  Race, Session, is_suppressed, is_suppressed_under, suppress, has_suppression,
}
use emailmarketing.Normalize.{Validator, normalize_email, validate_syntax}
use emailmarketing.Lists.{
  add_contact, remove_and_suppress, suppressed, add_checked, delete_contact, remove_under,
}
use emailmarketing.Base.{ℕ, ◌≡◌, refl, true, false, Option, some, arith, ap, ◌∙◌, sym}

is_suppressed-delete_contact :
    (norm f : Text) (db : Db) → is_suppressed (delete_contact norm db) f ≡ is_suppressed db f
unfolding delete_contact is_suppressed is_suppressed_under has_suppression
is_suppressed-delete_contact norm f db = ground arith

removed_is_suppressed :
    (race : Race) (norm : Text) (s : Session)
    → ((other : Db) → race ≡ some other → is_suppressed other norm ≡ true)
    → is_suppressed (remove_under race (some norm) s).0.current norm ≡ true
unfolding remove_under
removed_is_suppressed race norm s won =
    let s' =
      (suppress race norm SuppressionReason.manual (some (codes "manual removal")) true s).0 in
    is_suppressed-delete_contact norm norm s'.current
    ∙ suppress-is_suppressed race norm SuppressionReason.manual (some (codes "manual removal")) true
        s won

same_canonical :
    (db : Db) (a b : Text)
    → normalize_email (some a) ≡ normalize_email (some b)
    → is_suppressed db a ≡ is_suppressed db b
unfolding is_suppressed
same_canonical db a b h = ap (is_suppressed_under db) h

add_checked_suppressed :
    (list_id : ℕ) (valid : Text) (first_name last_name : Option Text) (db : Db)
    → is_empty valid ≡ false
    → is_suppressed db valid ≡ true
    → add_checked list_id (some valid) first_name last_name db ≡ (db, suppressed)
unfolding add_checked
add_checked_suppressed list_id valid first_name last_name db full out = rw (full, out) refl

-- Once an address has been removed, by a call that wins or loses the race of its insert, no text
-- whose validated form has the same canonical form can be added to any list again: the answer is
-- `suppressed`, and nothing changes.
pub add_contact-remove_and_suppress :
    (validator : Validator) (race : Race) (removed again norm valid : Text) (list_id : ℕ)
    (first_name last_name : Option Text) (s : Session)
    → normalize_email (some removed) ≡ some norm
    → ((other : Db) → race ≡ some other → is_suppressed other norm ≡ true)
    → accepted (validate_syntax validator (some again)) ≡ some valid
    → is_empty valid ≡ false
    → normalize_email (some valid) ≡ some norm
    → let db = (remove_and_suppress race removed s).0.current in
      add_contact validator list_id again first_name last_name db ≡ (db, suppressed)
unfolding add_contact remove_and_suppress
add_contact-remove_and_suppress validator race removed again norm valid list_id first_name last_name
      s canonical won accepts full same =
    rw (canonical, accepts)
      (add_checked_suppressed list_id valid first_name last_name
        (remove_under race (some norm) s).0.current full
        (same_canonical (remove_under race (some norm) s).0.current valid norm
            (same ∙ sym (normalize_email_idem removed norm canonical))
          ∙ removed_is_suppressed race norm s won))
