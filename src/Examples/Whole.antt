-- ===== src/Examples/Whole.antt =====
-- The whole program, and the suppression list as a set.
use emailmarketing.Text.{◌==◌ as str_eq}
use emailmarketing.Suppression.Set.{SuppressCall}
use emailmarketing.Api.{unsubscribe}
use emailmarketing.Tokens.{make_unsubscribe_token}
use emailmarketing.System.Steps.Kept.{run_steps-Unique}
use emailmarketing.Suppression.Laws.{UniqueSuppressions}
use emailmarketing.Suppression.Set.{suppress_all, was_added, suppress_all_exact}
use emailmarketing.System.Steps.Silent.{
  is_to, is_for, blocked_gets_no_mail, unsubscribed_gets_no_mail,
}
use emailmarketing.Text.{
  strip, lower, codes, lower_char, lstrip, rstrip, is_space, is_empty, contains,
}
use emailmarketing.Sending.SendOne.Validate.{Payload, go, payload}
use emailmarketing.Models.{CampaignRecipient, RecipientStatus, SuppressionReason}
use emailmarketing.Suppression.{has_suppression, is_suppressed}
use emailmarketing.Normalize.{normalize_email}
use emailmarketing.System.Invariants.{IsKeyed}
use emailmarketing.Examples.Data.{env, bounce, row, world, bob, campaign, fresh, ann, template}
use emailmarketing.System.{
  edit, blocking, sending_op, deletion, hearing, materializing, deleting_list, pausing,
}
use emailmarketing.System.Steps.{
  Run, Step, advance, begin, checked, commit, lapse, run_steps, start,
}
use emailmarketing.Base.{
  ◌==◌, ◌+◌, ◌≤◌, ◌≡◌, refl, true, false, ◌||◌, none, some, List, [], ◌∷◌, arith, count_where,
}

-- The list is materialized. A worker takes up the recipient, a second one finds the lock held, and
-- after the lock has expired a third one takes it up too. Postal reports a bounce between the calls,
-- and the list is deleted before the first worker records its answer.
abbrev steps : List Step
steps =
    commit (sending_op (materializing 1000000 7))
    ∷ begin env 1
    ∷ begin env 1
    ∷ advance env [] 0
    ∷ lapse 1
    ∷ begin env 1
    ∷ commit (blocking (hearing none bounce))
    ∷ advance env (edit (pausing 7) ∷ []) 0
    ∷ commit (deletion (deleting_list 1))
    ∷ advance env [] 0
    ∷ advance env [] 0
    ∷ []

IsKeyed-world : IsKeyed world.db
IsKeyed-world = ((omega arith, tt), (refl, tt))

unsubscribed_gets_no_mail_example :
    let link = make_unsubscribe_token (λ t. t) (λ t. some t) ann in
    let w = record world { db = (unsubscribe (λ t. t) (λ t. some t) none link world.db).0 } in
    let r = record (start world) { world = w } in
    count_where (is_to ann) (run_steps steps r).world.outbox
    ≤ count_where (is_to ann) world.outbox + count_where (is_for ann) (start world).flights
unfolding normalize_email strip lower lower_char lstrip rstrip is_space is_empty contains
unsubscribed_gets_no_mail_example =
    unsubscribed_gets_no_mail (λ t. t) (λ t. some t) none ann ann steps (start world) (λ t. refl)
      refl (λ other raced. cc)

abbrev pending_row : CampaignRecipient
pending_row = row RecipientStatus.pending none

-- a task in flight whose message goes to bob
abbrev flying : Run
flying = record (start world) {
  flights =
      (
        2,
        checked (
            go (
              payload 1000000 world.db campaign (record pending_row { email_snapshot = bob })
                template)),
      )
      ∷ [];
}

blocked_gets_no_mail_example :
    count_where (is_to bob) (run_steps steps flying).world.outbox
    ≤ count_where (is_to bob) world.outbox + count_where (is_for bob) flying.flights
unfolding has_suppression str_eq
blocked_gets_no_mail_example = blocked_gets_no_mail bob steps flying refl

run_steps-Unique_example :
    IsKeyed (run_steps steps (start world)).world.db
    × UniqueSuppressions (run_steps steps (start world)).world.db
run_steps-Unique_example = run_steps-Unique steps (start world) IsKeyed-world (refl, tt)

abbrev sent_payload : Payload
sent_payload = payload 1000000 world.db campaign pending_row template

abbrev calls : List SuppressCall
calls =
    record {
      email = codes " ANN@x.io";
      reason = SuppressionReason.manual;
      detail = none;
      update_contact = true;
    }
    ∷ record {
      email = bob;
      reason = SuppressionReason.complaint;
      detail = none;
      update_contact = false;
    }
    ∷ []

suppress_all_exact_example :
    is_suppressed (suppress_all calls fresh) ann ≡ (is_suppressed fresh ann || was_added ann calls)
suppress_all_exact_example = suppress_all_exact calls ann fresh
