-- ===== src/Bounce.antt =====
-- app/services/bounce.py: reconciliation of one webhook event with the recipient ledger.
pub mod Suppresses
pub mod Redelivery
pub mod Races
use emailmarketing.Base.{
  ℕ, zero, suc, ◌+◌, ◌-◌, ◌≤◌, ◌<◌, ◌≡◌, refl, Bool, true, false, ◌&&◌, ◌||◌, not, Option, none,
  some, List, [], ◌∷◌, arith, inl, inr, if◌then◌else◌, Bool-cases, Option-cases, any, find,
  or_default, take, ◌++◌,
}
use emailmarketing.Text.{Text, codes, mem, strip, lower, is_empty, ◌==◌}
use emailmarketing.Models.{
  Db, CampaignRecipient, EmailEvent, RecipientStatus, SuppressionReason, is_recipient,
}
use emailmarketing.Webhook.{PostalWebhookEvent, is_delivery, is_failure, is_complaint}
use emailmarketing.Suppression.{Session, Race, suppress, begin}
use emailmarketing.Counters.{bump_campaign, update_recipient_row, bounced_count, delivered_count}

abbrev pub permanent_statuses : List Text
permanent_statuses = codes "hardfail" ∷ codes "hard_fail" ∷ codes "permanent" ∷ []

-- `(event.status or "").strip().lower() in _PERMANENT_STATUSES`
unfoldable pub is_permanent : PostalWebhookEvent → Bool
is_permanent event = mem (lower (strip (or_default event.status []))) permanent_statuses

unfoldable pub is_deferral : PostalWebhookEvent → Bool
unfolding is_permanent
is_deferral event =
    if not (is_failure event) || is_complaint event
    then false
    else if event.event_type == codes "MessageBounced"
    then false
    else not (is_permanent event)

unfoldable pub classify_bounce : PostalWebhookEvent → Bool
unfolding is_permanent
classify_bounce event =
    if is_complaint event
    then true
    else if event.event_type == codes "MessageBounced"
    then true
    else is_permanent event

-- `column == value`, which no null column satisfies
unfoldable pub holds : Option Text → Text → Bool
holds none v = false
holds (some u) v = u == v

-- `_is_duplicate`
unfoldable pub is_duplicate_of : Option Text → Db → Bool
unfolding holds
is_duplicate_of none db = false
is_duplicate_of (some uuid) db =
    not (is_empty uuid) && any (λ (e : EmailEvent). holds e.provider_event_id uuid) db.events

unfoldable pub recipient_of : Option Text → Db → Option CampaignRecipient
unfolding holds
recipient_of none db = none
recipient_of (some token) db =
    if is_empty token
    then none
    else find (λ (r : CampaignRecipient). holds r.postal_message_id token) db.recipients

pub data Outcome : Type 0 where
  duplicate unmatched delivered deferred bounced complaint ignored : Outcome

abbrev pub reason_of : PostalWebhookEvent → SuppressionReason
reason_of event =
    if is_complaint event then SuppressionReason.complaint else SuppressionReason.hard_bounce

-- `if classify_bounce(event): … suppress_sync(…)`
unfoldable pub suppress_if_classified : Race → Text → PostalWebhookEvent → Session → Session
suppress_if_classified race email event s =
    if classify_bounce event
    then (suppress race email (reason_of event) event.detail true s).0
    else s

-- the branch `cr is None`
unfoldable pub apply_unmatched : Race → PostalWebhookEvent → Session → Session
apply_unmatched race event s =
    if is_failure event || is_complaint event
    then elim event.recipient_email [
      | none ↦ s
      | some email ↦ if is_empty email then s else suppress_if_classified race email event s
    ]
    else s

-- the append to the event log, and `cr.last_event_at`
unfoldable pub log_event : CampaignRecipient → PostalWebhookEvent → Db → Db
unfolding update_recipient_row
log_event cr event db =
    update_recipient_row cr.id
      (λ (r : CampaignRecipient). record r { last_event_at = some event.occurred_at })
      (record db {
        events =
            db.events
            ++ record {
              campaign_recipient_id = cr.id;
              type = event.event_type;
              status = event.status;
              provider_event_id = event.event_uuid;
              occurred_at = event.occurred_at;
            }
              ∷ [];
      })

unfoldable pub mark_delivered : CampaignRecipient → Db → Db
unfolding update_recipient_row bump_campaign
mark_delivered cr db =
    if is_recipient cr.status RecipientStatus.delivered
    then db
    else bump_campaign cr.campaign_id delivered_count (
        update_recipient_row cr.id
          (λ (r : CampaignRecipient). record r { status = RecipientStatus.delivered }) db)

-- `cr.error_detail is None and event.detail`, with `event.detail[:1000]`
unfoldable pub merge_detail : Option Text → Option Text → Option Text
merge_detail (some old) detail = some old
merge_detail none none = none
merge_detail none (some detail) = if is_empty detail then none else some (take 1000 detail)

unfoldable pub mark_bounced : CampaignRecipient → PostalWebhookEvent → Db → Db
unfolding update_recipient_row bump_campaign merge_detail
mark_bounced cr event db =
    let marked =
      update_recipient_row cr.id
        (λ (r : CampaignRecipient). record r {
          status = RecipientStatus.bounced;
          error_detail = merge_detail cr.error_detail event.detail;
        })
        db in
    if is_recipient cr.status RecipientStatus.bounced
    then marked
    else bump_campaign cr.campaign_id bounced_count marked

-- `session.add(EmailEvent)` and the branches after it
unfoldable pub apply_matched :
    Race → CampaignRecipient → PostalWebhookEvent → Session → Session × Outcome
apply_matched race cr event s =
    let logged = record s { current = log_event cr event s.current } in
    if is_delivery event
    then (record logged { current = mark_delivered cr logged.current }, delivered)
    else if is_failure event || is_complaint event
    then (if is_deferral event then (logged, deferred) else (
      suppress_if_classified race cr.email_snapshot event
          (record logged { current = mark_bounced cr event logged.current }),
      if is_complaint event then complaint else bounced,
    ))
    else (logged, ignored)

unfoldable pub apply_event : Race → PostalWebhookEvent → Session → Session × Outcome
apply_event race event s =
    if is_duplicate_of event.event_uuid s.current
    then (s, duplicate)
    else elim (recipient_of event.message_token s.current) [
      | none ↦ (apply_unmatched race event s, unmatched)
      | some cr ↦ apply_matched race cr event s
    ]

-- app/tasks/webhooks.py: the event in a transaction of its own, which commits at the end
unfoldable pub process_webhook : Race → PostalWebhookEvent → Db → Db × Outcome
process_webhook race event db =
    let (s, outcome) = apply_event race event (begin db) in (s.current, outcome)
