-- ===== src/Bounce/Redelivery.antt =====
-- Redelivered webhooks: a matched event is in the log afterwards, and the log is what dedupes.
use emailmarketing.Bounce.{
  apply_matched, holds, log_event, mark_bounced, mark_delivered, suppress_if_classified, reason_of,
  apply_event, is_duplicate_of, recipient_of, duplicate,
}
use emailmarketing.Base.{
  ◌≡◌, refl, Bool, true, false, Option, none, some, List, [], ◌∷◌, arith, inl, inr, Bool-cases, any,
  ◌++◌, any-append,
}
use emailmarketing.Text.{Text, is_empty}
use emailmarketing.Text.Laws
use emailmarketing.Text.Laws.{eq_iff, ==→eq}
use emailmarketing.Normalize.{normalize_email}
use emailmarketing.Models.{Db, CampaignRecipient, EmailEvent, SuppressionReason}
use emailmarketing.Webhook.{PostalWebhookEvent}
use emailmarketing.Suppression.{Session, Race, suppress, suppress_under}

events-suppress_under :
    (o : Option Text) (r : SuppressionReason) (d : Option Text) (u : Bool) (s : Session)
    → (suppress_under none o r d u s).0.current.events ≡ s.current.events
unfolding suppress_under
events-suppress_under none r d u s = refl
events-suppress_under (some e) r d u s = ground arith

events-suppress :
    (e : Text) (r : SuppressionReason) (d : Option Text) (u : Bool) (s : Session)
    → (suppress none e r d u s).0.current.events ≡ s.current.events
unfolding suppress
events-suppress e r d u s = events-suppress_under (normalize_email (some e)) r d u s

snoc-any :
    (p : EmailEvent → Bool) (xs : List EmailEvent) (a : EmailEvent)
    → p a ≡ true
    → any p (xs ++ a ∷ []) ≡ true
snoc-any p xs a h = ground (arith, any-append p xs (a ∷ []))

-- After a matched event its row is in the log.
module _ (event : PostalWebhookEvent) (u : Text) (given : event.event_uuid ≡ some u) where
  has_row : Db → Bool
  has_row db = any (λ (e : EmailEvent). holds e.provider_event_id u) db.events

  has_row-log_event : (cr : CampaignRecipient) (db : Db) → has_row (log_event cr event db) ≡ true
  unfolding log_event holds has_row
  has_row-log_event cr db = snoc-any _ db.events _ (rw given (Laws.==_refl u))

  has_row-mark_delivered :
      (cr : CampaignRecipient) (db : Db) → has_row (mark_delivered cr db) ≡ has_row db
  unfolding mark_delivered has_row
  has_row-mark_delivered cr db = ground arith

  has_row-mark_bounced :
      (cr : CampaignRecipient) (db : Db) → has_row (mark_bounced cr event db) ≡ has_row db
  unfolding mark_bounced has_row
  has_row-mark_bounced cr db = ground arith

  has_row-suppress :
      (e : Text) (s : Session)
      → has_row (suppress_if_classified none e event s).current ≡ has_row s.current
  unfolding suppress_if_classified has_row
  has_row-suppress e s = ground (arith, events-suppress e (reason_of event) event.detail true s)

  matched_is_logged :
      (cr : CampaignRecipient) (s : Session)
      → has_row (apply_matched none cr event s).0.current ≡ true
  unfolding apply_matched
  matched_is_logged cr s =
      let logged = record s { current = log_event cr event s.current } in
      ground (
        arith,
        has_row-log_event cr s.current,
        has_row-mark_delivered cr logged.current,
        has_row-mark_bounced cr logged.current,
        has_row-suppress cr.email_snapshot
            (record logged { current = mark_bounced cr event logged.current }),
      )

logged_after :
    (event : PostalWebhookEvent) (u : Text) (s : Session) (cr : CampaignRecipient)
    → event.event_uuid ≡ some u
    → is_empty u ≡ false
    → recipient_of event.message_token s.current ≡ some cr
    → is_duplicate_of event.event_uuid (apply_event none event s).0.current ≡ true
unfolding apply_event
logged_after event u s cr given full found =
    elim (Bool-cases (is_duplicate_of event.event_uuid s.current)) [
      | inl old ↦ rw old old
      | inr new ↦
          rw (new, found)
            (logged (apply_matched none cr event s).0.current
              (matched_is_logged event u given cr s))
    ]
  where
    logged :
        (db : Db) → has_row event u given db ≡ true → is_duplicate_of event.event_uuid db ≡ true
    logged db h = rw given (unfold is_duplicate_of has_row in ground arith)

-- If a call that loses no race matches an event with an identifier to the ledger, then a second call
-- for the same event on the session that the first one leaves, with no other transaction in between,
-- answers `duplicate` and changes nothing.
pub apply_event_twice :
    (race : Race) (event : PostalWebhookEvent) (u : Text) (s : Session) (cr : CampaignRecipient)
    → event.event_uuid ≡ some u
    → is_empty u ≡ false
    → recipient_of event.message_token s.current ≡ some cr
    → let (s', outcome) = apply_event none event s in apply_event race event s' ≡ (s', duplicate)
unfolding apply_event
apply_event_twice race event u s cr given full found =
    rw (logged_after event u s cr given full found)
