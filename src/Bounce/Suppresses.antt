-- ===== src/Bounce/Suppresses.antt =====
-- Which events suppress which address.
use emailmarketing.Bounce.{
  apply_matched, is_permanent, log_event, mark_bounced, mark_delivered, suppress_if_classified,
  reason_of, classify_bounce, is_deferral, apply_event, apply_unmatched, is_duplicate_of,
  recipient_of,
}
use emailmarketing.Base.{
  ◌≡◌, refl, Bool, true, false, ◌&&◌, ◌||◌, Option, none, some, [], ◌∷◌, arith, inl, inr,
  Option-cases, ◌⊎◌, subst, sym, ap,
}
use emailmarketing.Text.{Text, codes, ◌==◌, is_empty, mem, strip, lower}
use emailmarketing.Text.Laws.{eq_iff, ==→eq}
use emailmarketing.Normalize.{normalize_email}
use emailmarketing.Models.{Db, CampaignRecipient}
use emailmarketing.Webhook.{
  PostalWebhookEvent, is_delivery, is_failure, is_complaint, complaint_events, delivery_events,
  failure_events,
}
use emailmarketing.Suppression.{Session, is_suppressed, has_suppression, is_suppressed_under}
use emailmarketing.Suppression.Laws.{suppress_exact, same_address}

-- An event is a complaint, a bounce, or a failure that Postal calls permanent.
abbrev pub is_real_bounce : PostalWebhookEvent → Bool
is_real_bounce event =
    is_complaint event
    || event.event_type == codes "MessageBounced"
    || is_failure event && is_permanent event

abbrev bounce_type : Text → Bool → Bool
bounce_type t permanent =
    mem t complaint_events || t == codes "MessageBounced" || mem t failure_events && permanent

mem_two : (t a b : Text) → mem t (a ∷ b ∷ []) ≡ true → (a ≡ t) ⊎ (b ≡ t)
unfolding mem
mem_two t a b h = ground (arith, eq_iff a t, eq_iff b t)

delivery_type : (t : Text) (p : Bool) → mem t delivery_events ≡ true → bounce_type t p ≡ false
unfolding mem ◌==◌
delivery_type t p h = elim (mem_two t (codes "MessageSent") (codes "MessageDelivered") h) [
  | inl e ↦ subst (λ x. bounce_type x p ≡ false) e refl
  | inr e ↦ subst (λ x. bounce_type x p ≡ false) e refl
]

pub delivery_is_no_bounce :
    (event : PostalWebhookEvent) → is_delivery event ≡ true → is_real_bounce event ≡ false
unfolding is_delivery is_failure is_complaint
delivery_is_no_bounce event h = delivery_type event.event_type (is_permanent event) h

pub bounced_is_failure :
    (event : PostalWebhookEvent)
    → (event.event_type == codes "MessageBounced") ≡ true
    → is_failure event ≡ true
unfolding is_failure mem ◌==◌
bounced_is_failure event h =
    subst (λ t. mem t failure_events ≡ true) (sym (==→eq event.event_type _ h)) refl

-- the address that an event would suppress
abbrev pub blamed : Option CampaignRecipient → PostalWebhookEvent → Option Text
blamed (some cr) event = normalize_email (some cr.email_snapshot)
blamed none event = normalize_email event.recipient_email

suppress_if_classified_exact :
    (e f : Text) (event : PostalWebhookEvent) (s : Session)
    → is_suppressed (suppress_if_classified none e event s).current f ≡ (
        is_suppressed s.current f
        || classify_bounce event
          && same_address (normalize_email (some e)) (normalize_email (some f)))
unfolding suppress_if_classified
suppress_if_classified_exact e f event s =
    ground (arith, suppress_exact e f (reason_of event) event.detail true s)

pub is_suppressed-log_event :
    (cr : CampaignRecipient) (event : PostalWebhookEvent) (db : Db) (f : Text)
    → is_suppressed (log_event cr event db) f ≡ is_suppressed db f
unfolding log_event is_suppressed is_suppressed_under has_suppression
is_suppressed-log_event cr event db f = ground arith

is_suppressed-mark_delivered :
    (cr : CampaignRecipient) (db : Db) (f : Text)
    → is_suppressed (mark_delivered cr db) f ≡ is_suppressed db f
unfolding mark_delivered is_suppressed is_suppressed_under has_suppression
is_suppressed-mark_delivered cr db f = ground arith

pub is_suppressed-mark_bounced :
    (cr : CampaignRecipient) (event : PostalWebhookEvent) (db : Db) (f : Text)
    → is_suppressed (mark_bounced cr event db) f ≡ is_suppressed db f
unfolding mark_bounced is_suppressed is_suppressed_under has_suppression
is_suppressed-mark_bounced cr event db f = ground arith

matched_exact :
    (cr : CampaignRecipient) (event : PostalWebhookEvent) (s : Session) (f : Text)
    → is_suppressed (apply_matched none cr event s).0.current f ≡ (
        is_suppressed s.current f
        || is_real_bounce event && same_address (blamed (some cr) event) (normalize_email (some f)))
unfolding apply_matched is_deferral classify_bounce
matched_exact cr event s f =
    let logged = record s { current = log_event cr event s.current } in
    ground (
      arith,
      delivery_is_no_bounce event,
      bounced_is_failure event,
      is_suppressed-log_event cr event s.current f,
      is_suppressed-mark_delivered cr logged.current f,
      is_suppressed-mark_bounced cr event logged.current f,
      suppress_if_classified_exact cr.email_snapshot f event
          (record logged { current = mark_bounced cr event logged.current }),
    )

normalize_email-empty : (e : Text) → is_empty e ≡ true → normalize_email (some e) ≡ none
unfolding normalize_email is_empty strip lower
normalize_email-empty [] h = refl
normalize_email-empty (c ∷ e) h = cc

unmatched_exact :
    (event : PostalWebhookEvent) (s : Session) (f : Text)
    → is_suppressed (apply_unmatched none event s).current f ≡ (
        is_suppressed s.current f
        || is_real_bounce event && same_address (blamed none event) (normalize_email (some f)))
unfolding apply_unmatched classify_bounce
unmatched_exact event s f = elim (Option-cases event.recipient_email) [
  | inl lost ↦ ground (arith, lost, ap normalize_email lost, nothing)
  | inr (e, found) ↦ ground (
    arith,
    found,
    ap normalize_email found,
    normalize_email-empty e,
    bounced_is_failure event,
    suppress_if_classified_exact e f event s,
  )
]
  where
    nothing : normalize_email none ≡ none
    nothing = unfold normalize_email in refl

-- For an event that is no redelivery, an address is suppressed afterwards exactly if it was before,
-- or the event is a complaint, a bounce or a permanent failure and blames that address: the
-- snapshot of the ledger row that it matches, else the recipient that it names. So a deferral
-- suppresses nothing.
pub apply_event_suppresses :
    (event : PostalWebhookEvent) (s : Session) (f : Text)
    → is_duplicate_of event.event_uuid s.current ≡ false
    → is_suppressed (apply_event none event s).0.current f ≡ (
        is_suppressed s.current f
        || is_real_bounce event
          && same_address
              (blamed (recipient_of event.message_token s.current) event)
              (normalize_email (some f)))
unfolding apply_event
apply_event_suppresses event s f new =
    elim (Option-cases (recipient_of event.message_token s.current)) [
      | inl lost ↦ rw (new, lost) (unmatched_exact event s f)
      | inr (cr, found) ↦ rw (new, found) (matched_exact cr event s f)
    ]
