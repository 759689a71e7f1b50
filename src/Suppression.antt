-- ===== src/Suppression.antt =====
-- app/services/suppression.py, in the blocking flavour; the async functions issue the same statements.
--
-- A session is a transaction: what is committed, and what the statements so far have made of it.
-- The unique column of `suppressions` can make a flush raise `IntegrityError` when another
-- transaction has committed the same address in between. `Race` says what the environment does:
-- `none`, or the database as that other transaction has left it.
pub mod Laws
pub mod Set
use emailmarketing.Base.{
  ℕ, Bool, true, false, not, Option, none, some, List, [], ◌∷◌, ◌++◌, any, find, update_where,
  is_some, if◌then◌else◌,
}
use emailmarketing.Text.{Text, ◌==◌}
use emailmarketing.Normalize.{normalize_email}
use emailmarketing.Models.{Db, Contact, ContactStatus, Suppression, SuppressionReason}

-- `select(Suppression.id).where(Suppression.email == norm)` has a row
unfoldable pub has_suppression : Db → Text → Bool
has_suppression db norm = any (λ (s : Suppression). s.email == norm) db.suppressions

unfoldable pub is_suppressed_under : Db → Option Text → Bool
is_suppressed_under db none = true
is_suppressed_under db (some norm) = has_suppression db norm

unfoldable pub is_suppressed : Db → Text → Bool
unfolding is_suppressed_under
is_suppressed db email = is_suppressed_under db (normalize_email (some email))

-- `_REASON_TO_CONTACT_STATUS`
unfoldable pub contact_status_for : SuppressionReason → ContactStatus
contact_status_for SuppressionReason.hard_bounce = ContactStatus.bounced
contact_status_for SuppressionReason.complaint = ContactStatus.complained
contact_status_for SuppressionReason.unsubscribe = ContactStatus.unsubscribed
contact_status_for SuppressionReason.invalid = ContactStatus.bounced
contact_status_for SuppressionReason.manual = ContactStatus.unsubscribed

abbrev pub Race : Type 0
Race = Option Db

pub record Session : Type 0 where
  pub committed : Db
  pub current : Db

-- `with sync_session() as session`, up to its first statement
abbrev pub begin : Db → Session
begin db = record { committed = db; current = db }

-- The flush of a new row, and the rollback of the whole transaction where it raises.
unfoldable pub insert_suppression : Race → Suppression → Session → Session × Bool
insert_suppression none row s = (
  record s { current = record s.current { suppressions = s.current.suppressions ++ row ∷ [] } },
  true,
)
insert_suppression (some other) row s = (begin other, false)

-- the `if` of `suppress_sync` on the existing row
unfoldable pub add_if_new : Race → Suppression → Session → Session × Bool
unfolding insert_suppression has_suppression
add_if_new race row s =
    if has_suppression s.current row.email then (s, false) else insert_suppression race row s

unfoldable pub flip_contact : Text → SuppressionReason → Db → Db
unfolding contact_status_for
flip_contact norm reason db = record db {
  contacts =
      update_where (λ (c : Contact). c.email == norm)
        (λ (c : Contact). record c { status = contact_status_for reason }) db.contacts;
}

unfoldable pub suppress_under :
    Race → Option Text → SuppressionReason → Option Text → Bool → Session → Session × Bool
unfolding add_if_new flip_contact
suppress_under race none reason detail update_contact s = (s, false)
suppress_under race (some norm) reason detail update_contact s =
    let (s', newly_added) =
      add_if_new race (record { email = norm; reason = reason; detail = detail }) s in
    (
      if update_contact then record s' { current = flip_contact norm reason s'.current } else s',
      newly_added,
    )

unfoldable pub suppress :
    Race → Text → SuppressionReason → Option Text → Bool → Session → Session × Bool
unfolding suppress_under
suppress race email = suppress_under race (normalize_email (some email))
