-- ===== src/Bounce/Races.antt =====
-- The rollback inside `suppress` undoes the whole transaction of the event.
use emailmarketing.Bounce.Suppresses.{
  is_real_bounce, delivery_is_no_bounce, bounced_is_failure, is_suppressed-log_event,
  is_suppressed-mark_bounced,
}
use emailmarketing.Bounce.{
  apply_event, apply_matched, suppress_if_classified, classify_bounce, is_deferral, is_duplicate_of,
  reason_of, recipient_of, complaint, bounced, log_event, mark_bounced,
}
use emailmarketing.Base.{
  ◌≡◌, refl, true, false, Option, some, arith, inl, inr, if◌then◌else◌, Option-cases,
}
use emailmarketing.Text.{Text}
use emailmarketing.Normalize.{normalize_email}
use emailmarketing.Models.{Db, CampaignRecipient, SuppressionReason}
use emailmarketing.Webhook.{PostalWebhookEvent, is_complaint}
use emailmarketing.Suppression.{
  Session, suppress, is_suppressed, is_suppressed_under, suppress_under, has_suppression,
}

lost_under :
    (other : Db) (norm : Text) (r : SuppressionReason) (d : Option Text) (s : Session)
    → has_suppression s.current norm ≡ false
    → let after = (suppress_under (some other) (some norm) r d true s).0.current in
      (after.events ≡ other.events) × (after.recipients ≡ other.recipients)
unfolding suppress_under
lost_under other norm r d s new = rw new (refl, refl)

lost_suppress :
    (other : Db) (e : Text) (r : SuppressionReason) (d : Option Text) (s : Session)
    → is_suppressed s.current e ≡ false
    → let after = (suppress (some other) e r d true s).0.current in
      (after.events ≡ other.events) × (after.recipients ≡ other.recipients)
unfolding suppress is_suppressed is_suppressed_under
lost_suppress other e r d s new = elim (Option-cases (normalize_email (some e))) [
  | inl lost ↦ absurd_bool (rw lost at new)
  | inr (norm, found) ↦ rw found (lost_under other norm r d s (rw found at new))
]
  where
    absurd_bool : {P : Type 0} → true ≡ false → P
    absurd_bool h = cc

lost_classified :
    (other : Db) (e : Text) (event : PostalWebhookEvent) (s : Session)
    → classify_bounce event ≡ true
    → is_suppressed s.current e ≡ false
    → let after = (suppress_if_classified (some other) e event s).current in
      (after.events ≡ other.events) × (after.recipients ≡ other.recipients)
unfolding suppress_if_classified
lost_classified other e event s c new =
    rw c (lost_suppress other e (reason_of event) event.detail s new)

lost_matched :
    (other : Db) (event : PostalWebhookEvent) (s : Session) (cr : CampaignRecipient)
    → is_real_bounce event ≡ true
    → is_suppressed s.current cr.email_snapshot ≡ false
    → let (s', outcome) = apply_matched (some other) cr event s in
      (outcome ≡ (if is_complaint event then complaint else bounced))
      × (s'.current.events ≡ other.events)
      × (s'.current.recipients ≡ other.recipients)
unfolding apply_matched is_deferral classify_bounce
lost_matched other event s cr real new =
    let logged = record s { current = log_event cr event s.current } in
    let marked = record logged { current = mark_bounced cr event logged.current } in
    ground (
      arith,
      delivery_is_no_bounce event,
      bounced_is_failure event,
      lost_classified other cr.email_snapshot event marked,
      is_suppressed-log_event cr event s.current cr.email_snapshot,
      is_suppressed-mark_bounced cr event logged.current cr.email_snapshot,
    )

-- A finding, as a theorem. A bounce is matched to a ledger row whose address is not suppressed yet,
-- and another transaction commits a suppression of that address before this one flushes its own.
-- Then the call answers `complaint` or `bounced` as if all had gone well, and what it leaves has
-- the event log and the ledger of the other transaction: the event is not logged, and the row is
-- not marked as bounced.
pub race_loses_event :
    (other : Db) (event : PostalWebhookEvent) (s : Session) (cr : CampaignRecipient)
    → is_duplicate_of event.event_uuid s.current ≡ false
    → recipient_of event.message_token s.current ≡ some cr
    → is_real_bounce event ≡ true
    → is_suppressed s.current cr.email_snapshot ≡ false
    → let (s', outcome) = apply_event (some other) event s in
      (outcome ≡ (if is_complaint event then complaint else bounced))
      × (s'.current.events ≡ other.events)
      × (s'.current.recipients ≡ other.recipients)
unfolding apply_event
race_loses_event other event s cr first found real new =
    rw (first, found) (lost_matched other event s cr real new)
