-- ===== src/Webhook/Parse/Laws.antt =====
-- What the event of a body carries.
use emailmarketing.Webhook.{PostalWebhookEvent}
use emailmarketing.Text.{Text, codes, is_empty}
use emailmarketing.Webhook.Parse.{
  first_of, Json, object, string, Members, Printer, when_truthy, lookup, parse_event, truthy,
  print_option, to_str, event_from, payload_of, parse_found, field_of, either,
}
use emailmarketing.Base.{ℕ, ◌≡◌, refl, false, Option, none, some, inl, inr, ◌⊎◌, subst}

-- Postal's body: a payload with a message or, for a bounce, an original message that has the token
pub record Carries (body : Members) (token : Text) : Type 0 where
  pub payload : Members
  pub message : Members
  pub key : Text
  pub in_body : lookup (codes "payload") body ≡ some (object payload)
  pub in_payload : lookup key payload ≡ some (object message)
  pub in_message : lookup (codes "token") message ≡ some (string token)
  pub is_text : is_empty token ≡ false
  -- the key is "message", or it is "original_message" and there is no message
  pub by_key :
      (key ≡ codes "message")
      ⊎ ((key ≡ codes "original_message") × (lookup (codes "message") payload ≡ none))

truthy_token :
    (token : Text)
    → is_empty token ≡ false
    → when_truthy (some (string token)) ≡ some (string token)
unfolding when_truthy truthy
truthy_token token h = rw h refl

first_message :
    (token : Text) (m : Members) (original : Option Json)
    → lookup (codes "token") m ≡ some (string token)
    → is_empty token ≡ false
    → first_of (codes "token") (some (object m)) original ≡ some (string token)
unfolding first_of field_of either truthy
first_message token m original h full = rw (h, truthy_token token full, full) refl

first_original :
    (token : Text) (m : Members)
    → lookup (codes "token") m ≡ some (string token)
    → is_empty token ≡ false
    → first_of (codes "token") none (some (object m)) ≡ some (string token)
unfolding first_of field_of either when_truthy
first_original token m h full = rw h (unfold truthy in rw full refl)

module _ (str : Printer) (read : Text → Option ℕ) (now : ℕ) where
  -- The event of a body that carries a token that is not empty, in its message or, where it has no
  -- message, in the original message of a bounce, has that token.
  pub parse_event-Carries :
      (body : Members) (token : Text)
      → Carries body token
      → (event : PostalWebhookEvent) × (parse_event str read now body ≡ some event)
        × (event.message_token ≡ some token)
  unfolding parse_event event_from print_option
  parse_event-Carries body token c = (
    event_from str read now body c.payload,
    rw c.in_body (unfold payload_of parse_found in refl),
    elim c.by_key [
      | inl is ↦
          let at_message =
            subst (λ k. lookup k c.payload ≡ some (object c.message)) is c.in_payload in
          by_first (lookup (codes "message") c.payload)
            (lookup (codes "original_message") c.payload)
            (rw at_message (first_message token c.message _ c.in_message c.is_text))
      | inr (is, none_) ↦
          let at_original =
            subst (λ k. lookup k c.payload ≡ some (object c.message)) is c.in_payload in
          by_first (lookup (codes "message") c.payload)
            (lookup (codes "original_message") c.payload)
            (rw (none_, at_original) (first_original token c.message c.in_message c.is_text))
    ],
  )
    where
      by_first :
          (m o : Option Json)
          → first_of (codes "token") m o ≡ some (string token)
          → print_option str (first_of (codes "token") m o) ≡ some token
      by_first m o e = rw e (unfold print_option to_str in refl)
