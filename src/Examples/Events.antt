-- ===== src/Examples/Events.antt =====
-- Suppression, and the events of the webhook.
use emailmarketing.Bounce.Races.{race_loses_event}
use emailmarketing.Bounce.Redelivery.{apply_event_twice}
use emailmarketing.Webhook.{is_complaint}
use emailmarketing.Bounce.Suppresses.{is_real_bounce, blamed, apply_event_suppresses}
use emailmarketing.Examples.Data.{ann, with_row, bounce, bob, fresh, token, row}
use emailmarketing.Text.{
  is_empty, strip, lower, lower_char, lstrip, rstrip, is_space, contains, mem, codes,
}
use emailmarketing.Normalize.{normalize_email}
use emailmarketing.Bounce.{
  is_duplicate_of, recipient_of, holds, apply_event, is_permanent, duplicate, complaint, bounced,
}
use emailmarketing.Suppression.Laws.{
  NoActive, same_address, suppress-NoActive, suppress-is_suppressed,
}
use emailmarketing.Suppression.{
  Session, is_suppressed, begin, is_suppressed_under, suppress, has_suppression,
}
use emailmarketing.Text.{◌==◌}
use emailmarketing.Models.{RecipientStatus, SuppressionReason, empty_db}
use emailmarketing.Base.{
  ◌≡◌, refl, true, ◌&&◌, ◌||◌, none, some, if◌then◌else◌, find, subst, or_default,
}

abbrev known : Session
known = begin (with_row RecipientStatus.sent (some token))

-- another transaction has suppressed the address in between
suppress-is_suppressed_example :
    is_suppressed
      (suppress (some fresh) bob SuppressionReason.manual none true (begin empty_db)).0.current
      bob
    ≡ true
unfolding is_suppressed is_suppressed_under has_suppression normalize_email strip lower lower_char
    lstrip rstrip is_space is_empty contains ◌==◌
suppress-is_suppressed_example =
    suppress-is_suppressed (some fresh) bob SuppressionReason.manual none true (begin empty_db)
      (λ other same. subst (λ o. is_suppressed (or_default o fresh) bob ≡ true) same refl)

suppress-NoActive_example :
    NoActive
      (normalize_email (some ann))
      (suppress none ann SuppressionReason.complaint none true (begin fresh)).0.current.contacts
suppress-NoActive_example =
    suppress-NoActive none ann SuppressionReason.complaint none (begin fresh)

apply_event_suppresses_example : is_suppressed (apply_event none bounce known).0.current ann ≡ (
    is_suppressed known.current ann
    || is_real_bounce bounce
      && same_address
          (blamed (recipient_of bounce.message_token known.current) bounce)
          (normalize_email (some ann)))
unfolding is_duplicate_of is_empty
apply_event_suppresses_example = apply_event_suppresses bounce known ann refl

apply_event_twice_example :
    let (s', outcome) = apply_event none bounce known in
    apply_event none bounce s' ≡ (s', duplicate)
unfolding recipient_of holds is_empty find ◌==◌
apply_event_twice_example =
    apply_event_twice none bounce (codes "u1") known (row RecipientStatus.sent (some token)) refl
      refl refl

race_loses_event_example :
    let (s', outcome) = apply_event (some fresh) bounce known in
    (outcome ≡ (if is_complaint bounce then complaint else bounced))
    × (s'.current.events ≡ fresh.events)
    × (s'.current.recipients ≡ fresh.recipients)
unfolding is_duplicate_of recipient_of holds is_empty find ◌==◌ is_suppressed is_suppressed_under
    has_suppression normalize_email strip lower lower_char lstrip rstrip is_space contains
    is_complaint is_permanent mem
race_loses_event_example =
    race_loses_event fresh bounce known (row RecipientStatus.sent (some token)) refl refl refl refl
