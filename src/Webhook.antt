-- ===== src/Webhook.antt =====
-- app/integrations/postal/webhook.py: the shared-secret check and the normalized event.
-- The HMAC of the body is a parameter; `hmac.compare_digest` is equality.
pub mod Laws
pub mod Parse
use emailmarketing.Base.{
  ℕ, zero, suc, ◌+◌, ◌-◌, ◌≤◌, ◌<◌, ◌≡◌, refl, Bool, true, false, ◌&&◌, ◌||◌, not, Option, none,
  some, List, [], ◌∷◌, arith, inl, inr, if◌then◌else◌, Bool-cases, Option-cases,
}
use emailmarketing.Base.{
  Bool, List, Option, false, ℕ, ◌∷◌, [], if◌then◌else◌, some, not, true, ◌&&◌,
}
use emailmarketing.Text.{Text, codes, mem, strip, is_empty, ◌==◌}

abbrev pub delivery_events : List Text
delivery_events = codes "MessageSent" ∷ codes "MessageDelivered" ∷ []

abbrev pub failure_events : List Text
failure_events = codes "MessageDeliveryFailed" ∷ codes "MessageBounced" ∷ codes "MessageHeld" ∷ []

abbrev pub complaint_events : List Text
complaint_events = codes "MessageSpamReport" ∷ codes "MessageComplaint" ∷ []

pub record PostalWebhookEvent : Type 0 where
  pub event_type : Text
  pub event_uuid : Option Text
  pub message_token : Option Text
  pub recipient_email : Option Text
  pub status : Option Text
  pub detail : Option Text
  pub occurred_at : ℕ

unfoldable pub is_delivery : PostalWebhookEvent → Bool
is_delivery event = mem event.event_type delivery_events

unfoldable pub is_failure : PostalWebhookEvent → Bool
is_failure event = mem event.event_type failure_events

unfoldable pub is_complaint : PostalWebhookEvent → Bool
is_complaint event = mem event.event_type complaint_events

-- `if header and compare_digest(header.strip(), expected)`
unfoldable pub header_matches : Option Text → Text → Bool
header_matches none expected = false
header_matches (some header) expected = not (is_empty header) && strip header == expected

module _ (hmac : Text → Text → Text) where
  unfoldable pub verify_webhook : Text → Text → Option Text → Option Text → Option Text → Bool
  unfolding header_matches
  verify_webhook raw_body secret signature_header secret_header query_token =
      if is_empty secret
      then false
      else if header_matches signature_header (hmac secret raw_body)
      then true
      else if header_matches secret_header secret
      then true
      else header_matches query_token secret
