-- ===== src/System/Blocked/Events.antt =====
-- The webhook and the verification of lists, which suppress among other statements.
use emailmarketing.Normalize.{normalize_email}
use emailmarketing.Lists.{remove_and_suppress, suppress_only}
use emailmarketing.System.Frame.{same}
use emailmarketing.Tokens.{read_unsubscribe_token}
use emailmarketing.Verify.{EmailVerification}
use emailmarketing.Webhook.{PostalWebhookEvent, is_delivery, is_failure, is_complaint}
use emailmarketing.Text.{Text, is_empty}
use emailmarketing.Api.{unsubscribe, of_session}
use emailmarketing.Suppression.{Race, Session, begin}
use emailmarketing.Verify.Task.{
  record_result, verify_one, verify_rows, set_result, Counts, is_invalid, result_for,
}
use emailmarketing.Counters.{
  bump_campaign, update_campaign_row, Counter, bounced_count, delivered_count,
}
use emailmarketing.Bounce.{
  apply_event, apply_matched, apply_unmatched, log_event, mark_bounced, mark_delivered,
  suppress_if_classified, classify_bounce, recipient_of, is_duplicate_of, is_deferral,
  process_webhook,
}
use emailmarketing.System.Stable.{Stable, Stable-update}
use emailmarketing.Models.{Db, CampaignRecipient, is_recipient, RecipientStatus, Contact}
use emailmarketing.System.{
  Blocking, unsubscribing, removing, suppressing, hearing, judging, run_blocking, judged,
}
use emailmarketing.System.Blocked.{
  Raced, Stable-suppress, Raced-race_of, Stable-unsubscribe, Stable-remove, Stable-suppress_only,
}
use emailmarketing.Base.{
  ℕ, ◌==◌, ◌≡◌, refl, true, false, ◌||◌, Option, none, some, List, [], ◌∷◌, inl, inr, Bool-cases,
  any,
}

module _ (Q : Db → Type 0) (st : Stable Q) where
  Stable-classified :
      (race : Race) (e : Text) (event : PostalWebhookEvent) (s : Session)
      → Raced Q race
      → Q s.current
      → Q (suppress_if_classified race e event s).current
  unfolding suppress_if_classified
  Stable-classified race e event s won h = elim (Bool-cases (classify_bounce event)) [
    | inl is ↦ rw is (Stable-suppress Q st race e _ _ true s won h)
    | inr other ↦ rw other h
  ]

  Stable-unmatched :
      (race : Race) (event : PostalWebhookEvent) (s : Session)
      → Raced Q race
      → Q s.current
      → Q (apply_unmatched race event s).current
  unfolding apply_unmatched
  Stable-unmatched race event s won h = elim (Bool-cases (is_failure event || is_complaint event)) [
    | inr other ↦ rw other h
    | inl bad ↦ by_address event.recipient_email refl bad
  ]
    where
      by_address :
          (o : Option Text)
          → event.recipient_email ≡ o
          → (is_failure event || is_complaint event) ≡ true
          → Q (apply_unmatched race event s).current
      by_address none e bad = rw (bad, e, apply_unmatched) h
      by_address (some a) e bad = elim (Bool-cases (is_empty a)) [
        | inl void ↦ rw (bad, e, void, apply_unmatched) h
        | inr full ↦ rw (bad, e, full, apply_unmatched) (Stable-classified race a event s won h)
      ]

  Stable-log :
      (cr : CampaignRecipient) (event : PostalWebhookEvent) (db : Db)
      → Q db
      → Q (log_event cr event db)
  unfolding log_event
  Stable-log cr event db h =
      Stable-update Q st cr.id _ _ (λ r. refl) (λ r e. e) (st.framed db _ same h)

  Stable-bump : (c : ℕ) (k : Counter) (db : Db) → Q db → Q (bump_campaign c k db)
  unfolding bump_campaign update_campaign_row
  Stable-bump c k db h = st.framed db _ same h

  Stable-delivered : (cr : CampaignRecipient) (db : Db) → Q db → Q (mark_delivered cr db)
  unfolding mark_delivered
  Stable-delivered cr db h = elim (Bool-cases (is_recipient cr.status RecipientStatus.delivered)) [
    | inl old ↦ rw old h
    | inr new ↦
        rw new (
          Stable-bump _ delivered_count _ (Stable-update Q st cr.id _ db (λ r. refl) (λ r e. cc) h))
  ]

  Stable-bounced :
      (cr : CampaignRecipient) (event : PostalWebhookEvent) (db : Db)
      → Q db
      → Q (mark_bounced cr event db)
  unfolding mark_bounced
  Stable-bounced cr event db h =
      elim (Bool-cases (is_recipient cr.status RecipientStatus.bounced)) [
        | inl old ↦ rw old (Stable-update Q st cr.id _ db (λ r. refl) (λ r e. cc) h)
        | inr new ↦ rw new (
            Stable-bump _ bounced_count _ (Stable-update Q st cr.id _ db (λ r. refl) (λ r e. cc) h))
      ]

  Stable-matched :
      (race : Race) (cr : CampaignRecipient) (event : PostalWebhookEvent) (s : Session)
      → Raced Q race
      → Q s.current
      → Q (apply_matched race cr event s).0.current
  unfolding apply_matched
  Stable-matched race cr event s won h = elim (Bool-cases (is_delivery event)) [
    | inl a ↦ rw a (Stable-delivered cr _ (Stable-log cr event s.current h))
    | inr a ↦ elim (Bool-cases (is_failure event || is_complaint event)) [
      | inr b ↦ rw (a, b) (Stable-log cr event s.current h)
      | inl b ↦ elim (Bool-cases (is_deferral event)) [
        | inl c ↦ rw (a, b, c) (Stable-log cr event s.current h)
        | inr c ↦
            rw (a, b, c)
              (Stable-classified race cr.email_snapshot event _ won
                (Stable-bounced cr event _ (Stable-log cr event s.current h)))
      ]
    ]
  ]

  Stable-event :
      (race : Race) (event : PostalWebhookEvent) (s : Session)
      → Raced Q race
      → Q s.current
      → Q (apply_event race event s).0.current
  unfolding apply_event
  Stable-event race event s won h = elim (Bool-cases (is_duplicate_of event.event_uuid s.current)) [
    | inl old ↦ rw old h
    | inr new ↦ by_row (recipient_of event.message_token s.current) refl new
  ]
    where
      by_row :
          (o : Option CampaignRecipient)
          → recipient_of event.message_token s.current ≡ o
          → is_duplicate_of event.event_uuid s.current ≡ false
          → Q (apply_event race event s).0.current
      by_row none e new = rw (new, e, apply_event) (Stable-unmatched race event s won h)
      by_row (some cr) e new = rw (new, e, apply_event) (Stable-matched race cr event s won h)

  -- the verification of a list
  Stable-record :
      (race : Race) (id : ℕ) (e : Text) (r : EmailVerification) (acc : Session × Counts)
      → Raced Q race
      → Q acc.0.current
      → Q (record_result race id e r acc).0.current
  unfolding record_result set_result
  Stable-record race id e r (s, counts) won h =
      let h' =
        st.framed s.current (set_result id r.result s.current) (unfold set_result in same) h in
      elim (Bool-cases (is_invalid r.result)) [
        | inl bad ↦ rw bad (Stable-suppress Q st race e _ _ true _ won h')
        | inr good ↦ rw good h'
      ]

  Stable-verify_one :
      (race : Race) (rs : List EmailVerification) (row : ℕ × Text) (acc : Session × Counts)
      → Raced Q race
      → Q acc.0.current
      → Q (verify_one race rs row acc).0.current
  unfolding verify_one
  Stable-verify_one race rs (id, e) (s, counts) won h = by_result (result_for e rs) refl
    where
      by_result :
          (o : Option EmailVerification)
          → result_for e rs ≡ o
          → Q (verify_one race rs (id, e) (s, counts)).0.current
      by_result none eq = rw (eq, verify_one) h
      by_result (some r) eq =
          elim (Bool-cases (any (λ (c : Contact). c.id == id) s.current.contacts)) [
            | inl there ↦ rw (eq, there, verify_one) (Stable-record race id e r (s, counts) won h)
            | inr gone ↦ rw (eq, gone, verify_one) h
          ]

  Stable-verify_rows :
      (races : ℕ → Race) (rs : List EmailVerification) (rows : List (ℕ × Text))
      (acc : Session × Counts)
      → ((i : ℕ) → Raced Q (races i))
      → Q acc.0.current
      → Q (verify_rows races rs rows acc).0.current
  unfolding verify_rows
  Stable-verify_rows races rs [] acc won h = h
  Stable-verify_rows races rs ((id, e) ∷ rows) acc won h =
      Stable-verify_rows races rs rows (verify_one (races id) rs (id, e) acc) won
        (Stable-verify_one (races id) rs (id, e) acc (won id) h)

  pub Stable-blocking : (o : Blocking) (db : Db) → Q db → Q (run_blocking o db)
  unfolding run_blocking
  Stable-blocking (unsubscribing dumps loads rival token) db h =
      unfold unsubscribe in
      Stable-unsubscribe Q st dumps loads _ (read_unsubscribe_token dumps loads token) db
        (Raced-race_of Q st rival db h) h
  Stable-blocking (removing rival e) db h =
      unfold of_session remove_and_suppress in
      Stable-remove Q st _ (normalize_email (some e)) (begin db) (Raced-race_of Q st rival db h) h
  Stable-blocking (suppressing rival e r) db h =
      unfold of_session suppress_only in
      Stable-suppress_only Q st _ (normalize_email (some e)) _ (begin db)
        (Raced-race_of Q st rival db h) h
  Stable-blocking (hearing rival event) db h =
      unfold process_webhook in Stable-event _ event (begin db) (Raced-race_of Q st rival db h) h
  Stable-blocking (judging rivals results rows) db h =
      unfold judged in
      Stable-verify_rows _ results rows _ (λ i. Raced-race_of Q st (rivals i) db h) h
