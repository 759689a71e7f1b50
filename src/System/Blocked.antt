-- ===== src/System/Blocked.antt =====
-- The pages that add to the suppression list, with and without a lost race of the insert.
pub mod Events
use emailmarketing.Normalize.{normalize_email}
use emailmarketing.System.Frame.{same}
use emailmarketing.Webhook.{PostalWebhookEvent, is_failure, is_complaint}
use emailmarketing.Text.{Text, is_empty}
use emailmarketing.Counters.{bump_campaign, update_campaign_row, Counter}
use emailmarketing.Bounce.{
  apply_unmatched, log_event, mark_bounced, mark_delivered, suppress_if_classified, classify_bounce,
}
use emailmarketing.Lists.{remove_under, suppress_only_under, delete_contact}
use emailmarketing.Api.{unsubscribe_found, of_session}
use emailmarketing.Suppression.{
  Race, add_if_new, insert_suppression, suppress, suppress_under, flip_contact, Session, begin,
  has_suppression,
}
use emailmarketing.System.Stable.{Stable, Stable-update, Stable-delete_contacts}
use emailmarketing.Models.{
  Db, CampaignRecipient, Suppression, SuppressionReason, is_recipient, RecipientStatus,
}
use emailmarketing.System.{
  Blocking, unsubscribing, removing, suppressing, hearing, judging, race_of, Rival,
}
use emailmarketing.Base.{sym, subst}
use emailmarketing.Base.{
  ℕ, zero, suc, ◌==◌, ◌+◌, ◌-◌, ◌≤◌, ◌<◌, ◌≡◌, refl, Bool, true, false, ◌&&◌, ◌||◌, not, Option,
  none, some, List, [], ◌∷◌, arith, inl, inr, if◌then◌else◌, Bool-cases, Option-cases, ◌++◌, ◌*◌,
  ◌/◌,
}

-- what the winner of a race has committed
abbrev pub Raced : (Db → Type 0) → Race → Type 0
Raced Q race = (other : Db) → race ≡ some other → Q other

module _ (Q : Db → Type 0) (st : Stable Q) where
  Stable-insert :
      (race : Race) (row : Suppression) (s : Session)
      → Raced Q race
      → has_suppression s.current row.email ≡ false
      → Q s.current
      → Q (insert_suppression race row s).0.current
  unfolding insert_suppression
  Stable-insert none row s won new h = st.blocked row s.current new h
  Stable-insert (some other) row s won new h = won other refl

  Stable-add_if_new :
      (race : Race) (row : Suppression) (s : Session)
      → Raced Q race
      → Q s.current
      → Q (add_if_new race row s).0.current
  unfolding add_if_new
  Stable-add_if_new race row s won h = elim (Bool-cases (has_suppression s.current row.email)) [
    | inl old ↦ rw old h
    | inr new ↦ rw new (Stable-insert race row s won new h)
  ]

  Stable-suppress_under :
      (race : Race) (o : Option Text) (r : SuppressionReason) (d : Option Text) (u : Bool)
      (s : Session)
      → Raced Q race
      → Q s.current
      → Q (suppress_under race o r d u s).0.current
  unfolding suppress_under flip_contact
  Stable-suppress_under race none r d u s won h = h
  Stable-suppress_under race (some e) r d true s won h =
      st.framed _ _ same
        (Stable-add_if_new race (record { email = e; reason = r; detail = d }) s won h)
  Stable-suppress_under race (some e) r d false s won h =
      Stable-add_if_new race (record { email = e; reason = r; detail = d }) s won h

  pub Stable-suppress :
      (race : Race) (e : Text) (r : SuppressionReason) (d : Option Text) (u : Bool) (s : Session)
      → Raced Q race
      → Q s.current
      → Q (suppress race e r d u s).0.current
  unfolding suppress
  Stable-suppress race e r d u s won h =
      Stable-suppress_under race (normalize_email (some e)) r d u s won h

  none-Raced : Raced Q none
  none-Raced other e = cc

  pub Raced-race_of : (o : Option Rival) (db : Db) → Q db → Raced Q (race_of o db)
  unfolding race_of of_session
  Raced-race_of none db h other e = none-Raced other e
  Raced-race_of (some r) db h other e =
      subst Q (unwrap e)
        (Stable-suppress none r.email r.reason none r.update_contact (begin db) none-Raced h)
    where
      unwrap : {a b : Db} → some a ≡ some b → a ≡ b
      unwrap e = cc

  -- the pages
  pub Stable-unsubscribe :
      (dumps : Text → Text) (loads : Text → Option Text) (race : Race) (o : Option Text) (db : Db)
      → Raced Q race
      → Q db
      → Q (unsubscribe_found dumps loads race o db).0
  unfolding unsubscribe_found of_session
  Stable-unsubscribe dumps loads race none db won h = h
  Stable-unsubscribe dumps loads race (some e) db won h =
      Stable-suppress race e _ _ true (begin db) won h

  pub Stable-remove :
      (race : Race) (o : Option Text) (s : Session)
      → Raced Q race
      → Q s.current
      → Q (remove_under race o s).0.current
  unfolding remove_under delete_contact
  Stable-remove race none s won h = h
  Stable-remove race (some e) s won h =
      Stable-delete_contacts Q st _ _ (Stable-suppress race e _ _ true s won h)

  pub Stable-suppress_only :
      (race : Race) (o : Option Text) (r : SuppressionReason) (s : Session)
      → Raced Q race
      → Q s.current
      → Q (suppress_only_under race o r s).0.current
  unfolding suppress_only_under
  Stable-suppress_only race none r s won h = h
  Stable-suppress_only race (some e) r s won h = Stable-suppress race e r _ true s won h
