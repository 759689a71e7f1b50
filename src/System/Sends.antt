-- ===== src/System/Sends.antt =====
-- The transactions of the send tasks, and with them every transaction.
use emailmarketing.Suppression.{is_suppressed}
use emailmarketing.System.Blocked.Events.{Stable-blocking}
use emailmarketing.CampaignLists.{contains_id, campaign_list_ids}
use emailmarketing.Text.{Text}
use emailmarketing.System.Frame.{same}
use emailmarketing.System.Edits.{run_edit-Frame}
use emailmarketing.Frequency.{record_send}
use emailmarketing.Sending.Materialize.{
  materialize_found, materialize_lists, add_rows, materialize_campaign, recount,
}
use emailmarketing.Sending.Materialize.Loop.{Loop, run_loop, visit, new_row, start, exclusion}
use emailmarketing.Sending.SendOne.Validate.{
  with_campaign, with_recipient, with_template, Payload, validate, template_of,
}
use emailmarketing.Sending.SendOne.{
  log_frequency, persist_found, settle_found, settle_pending, mark_failed, mark_sent, mark,
}
use emailmarketing.Counters.{
  Counter, bump_campaign, update_campaign_row, failed_count, sent_count, update_recipient_row,
  skipped_count,
}
use emailmarketing.Sending.Ledger.{maybe_finalize, pending_count, is_sending}
use emailmarketing.System.Stable.{Stable, Stable-deletion, Stable-update}
use emailmarketing.Models.{
  Db, Campaign, CampaignRecipient, Contact, Template, get_campaign, is_campaign, is_recipient,
  CampaignStatus, RecipientStatus, get_recipient,
}
use emailmarketing.System.{
  Sending, materializing, checking, persisting, failing, capping, Op, edit, deletion, blocking,
  sending_op, run_op, run_ops, run_sending,
}
use emailmarketing.Base.{
  ℕ, ◌==◌, ◌≡◌, refl, Bool, true, false, Option, none, some, List, [], ◌∷◌, inl, inr, Bool-cases,
}

module _ (Q : Db → Type 0) (st : Stable Q) where
  Stable-maybe_finalize : (c : ℕ) (db : Db) → Q db → Q (maybe_finalize c db)
  unfolding maybe_finalize update_campaign_row
  Stable-maybe_finalize c db h = elim (Bool-cases (pending_count db c == 0)) [
    | inr left ↦ rw left h
    | inl all_done ↦ elim (Bool-cases (is_sending (get_campaign db c))) [
      | inl busy ↦ rw (all_done, busy) (st.framed db _ same h)
      | inr idle ↦ rw (all_done, idle) h
    ]
  ]

  Stable-bump : (c : ℕ) (k : Counter) (db : Db) → Q db → Q (bump_campaign c k db)
  unfolding bump_campaign update_campaign_row
  Stable-bump c k db h = st.framed db _ same h

  Stable-log_frequency : (now : ℕ) (c k : Option ℕ) (db : Db) → Q db → Q (log_frequency now c k db)
  unfolding log_frequency record_send
  Stable-log_frequency now none k db h = h
  Stable-log_frequency now (some c) none db h = h
  Stable-log_frequency now (some c) (some k) db h = st.framed db _ same h

  -- the row becomes terminal, a counter rises, and the campaign may be completed
  Stable-settle :
      (i c : ℕ) (k : Counter) (f : CampaignRecipient → CampaignRecipient) (db : Db)
      → ((r : CampaignRecipient) → (f r).id ≡ r.id)
      → ((r : CampaignRecipient) → is_recipient (f r).status RecipientStatus.pending ≡ false)
      → Q db
      → Q (maybe_finalize c (bump_campaign c k (update_recipient_row i f db)))
  Stable-settle i c k f db keep_id done h =
      Stable-maybe_finalize c _
        (Stable-bump c k _ (Stable-update Q st i f db keep_id (λ r e. settled r (done r) e) h))
    where
      settled :
          (r : CampaignRecipient)
          → is_recipient (f r).status RecipientStatus.pending ≡ false
          → is_recipient (f r).status RecipientStatus.pending ≡ true
          → is_recipient r.status RecipientStatus.pending ≡ true
      settled r a b = cc

  Stable-settle_pending :
      (f : CampaignRecipient → CampaignRecipient) (k : Counter) (c : ℕ)
      (o : Option CampaignRecipient) (db : Db)
      → ((r : CampaignRecipient) → (f r).id ≡ r.id)
      → ((r : CampaignRecipient) → is_recipient (f r).status RecipientStatus.pending ≡ false)
      → Q db
      → Q (settle_found f k c o db)
  unfolding settle_found
  Stable-settle_pending f k c none db keep_id done h = h
  Stable-settle_pending f k c (some cr) db keep_id done h =
      elim (Bool-cases (is_recipient cr.status RecipientStatus.pending)) [
        | inl a ↦ rw a (Stable-settle cr.id c k f db keep_id done h)
        | inr a ↦ rw a h
      ]

  Stable-persist :
      (now : ℕ) (p : Payload) (token : Text) (o : Option CampaignRecipient) (db : Db)
      → Q db
      → Q (persist_found now p token o db)
  unfolding persist_found
  Stable-persist now p token none db h = h
  Stable-persist now p token (some cr) db h =
      elim (Bool-cases (is_recipient cr.status RecipientStatus.pending)) [
        | inr a ↦ rw a h
        | inl a ↦ rw a (
            Stable-maybe_finalize p.campaign_id _ (
              Stable-log_frequency now p.freq_campaign_id p.contact_id _ (
                Stable-bump p.campaign_id sent_count _ (
                  Stable-update Q st cr.id (mark_sent token p.pool) db (λ r. refl) (λ r e. cc) h))))
      ]

  -- phase 1
  Stable-template :
      (now : ℕ) (c : Campaign) (cr : CampaignRecipient) (o : Option Template) (db : Db)
      → Q db
      → Q (with_template now c cr o db).0
  unfolding with_template
  Stable-template now c cr none db h =
      Stable-settle cr.id c.id failed_count _ db (λ r. refl) (λ r. refl) h
  Stable-template now c cr (some t) db h = h

  Stable-campaign :
      (now : ℕ) (cr : CampaignRecipient) (o : Option Campaign) (db : Db)
      → Q db
      → Q (with_campaign now cr o db).0
  unfolding with_campaign
  Stable-campaign now cr none db h = h
  Stable-campaign now cr (some c) db h =
      elim (Bool-cases (is_campaign c.status CampaignStatus.paused)) [
        | inl a ↦ rw a h
        | inr a ↦ elim (Bool-cases (is_campaign c.status CampaignStatus.sending)) [
          | inr b ↦ rw (a, b) h
          | inl b ↦ elim (Bool-cases (is_suppressed db cr.email_snapshot)) [
            | inl s ↦
                rw (a, b, s) (Stable-settle cr.id c.id skipped_count _ db (λ r. refl) (λ r. refl) h)
            | inr s ↦ rw (a, b, s) (Stable-template now c cr (template_of c.template_id db) db h)
          ]
        ]
      ]

  Stable-recipient :
      (now : ℕ) (o : Option CampaignRecipient) (db : Db) → Q db → Q (with_recipient now o db).0
  unfolding with_recipient
  Stable-recipient now none db h = h
  Stable-recipient now (some cr) db h =
      elim (Bool-cases (is_recipient cr.status RecipientStatus.pending)) [
        | inl a ↦ rw a (Stable-campaign now cr (get_campaign db cr.campaign_id) db h)
        | inr a ↦ rw a h
      ]

  -- materialization
  abbrev with_rows : Db → Loop → Db
  with_rows db l = record db { recipients = l.recipients; next_recipient_id = l.next_id }

  Stable-visit :
      (db : Db) (c : Campaign) (ex : ℕ → Bool) (k : Contact) (l : Loop)
      → Q (with_rows db l)
      → Q (with_rows db (visit db c ex k l))
  unfolding visit new_row
  Stable-visit db c ex k l h = elim (Bool-cases (contains_id k.id l.existing_ids)) [
    | inl old ↦ rw old h
    | inr new ↦ rw new (st.appended _ (with_rows db l) refl h)
  ]

  Stable-loop :
      (db : Db) (c : Campaign) (ex : ℕ → Bool) (ks : List Contact) (l : Loop)
      → Q (with_rows db l)
      → Q (with_rows db (run_loop db c ex ks l))
  unfolding run_loop
  Stable-loop db c ex [] l h = h
  Stable-loop db c ex (k ∷ ks) l h =
      Stable-loop db c ex ks (visit db c ex k l) (Stable-visit db c ex k l h)

  Stable-materialize :
      (now : ℕ) (c : Campaign) (ids : List ℕ) (db : Db)
      → Q db
      → Q (materialize_lists now c ids db).0
  unfolding materialize_lists add_rows recount start update_campaign_row
  Stable-materialize now c [] db h = st.framed db _ same h
  Stable-materialize now c (i ∷ ids) db h =
      st.framed _ _ same (Stable-loop db c (exclusion now db c) _ (start db c.id) h)

  Stable-materialize_found :
      (now : ℕ) (o : Option Campaign) (db : Db) → Q db → Q (materialize_found now o db).0
  unfolding materialize_found
  Stable-materialize_found now none db h = h
  Stable-materialize_found now (some c) db h =
      elim (Bool-cases (is_campaign c.status CampaignStatus.sending)) [
        | inl a ↦ rw a (Stable-materialize now c (campaign_list_ids c.id db) db h)
        | inr a ↦ rw a h
      ]

  pub Stable-sending : (o : Sending) (db : Db) → Q db → Q (run_sending o db)
  unfolding run_sending
  Stable-sending (materializing now c) db h =
      unfold materialize_campaign in Stable-materialize_found now (get_campaign db c) db h
  Stable-sending (checking now id) db h =
      unfold validate in Stable-recipient now (get_recipient db id) db h
  Stable-sending (persisting now p token id) db h =
      Stable-persist now p token (get_recipient db id) db h
  Stable-sending (failing detail c id) db h =
      unfold settle_pending in
      Stable-settle_pending (mark_failed detail) failed_count c (get_recipient db id) db (λ r. refl)
        (λ r. refl) h
  Stable-sending (capping c id) db h =
      unfold settle_pending in
      Stable-settle_pending (mark RecipientStatus.skipped_cap) skipped_count c (get_recipient db id)
        db (λ r. refl) (λ r. refl) h

  -- Every transaction keeps a stable predicate.
  pub Stable-run_op : (o : Op) (db : Db) → Q db → Q (run_op o db)
  unfolding run_op
  Stable-run_op (edit o) db h = st.framed db _ (run_edit-Frame o db) h
  Stable-run_op (deletion o) db h = Stable-deletion Q st o db h
  Stable-run_op (blocking o) db h = Stable-blocking Q st o db h
  Stable-run_op (sending_op o) db h = Stable-sending o db h

  pub Stable-run_ops : (os : List Op) (db : Db) → Q db → Q (run_ops os db)
  unfolding run_ops
  Stable-run_ops [] db h = h
  Stable-run_ops (o ∷ os) db h = Stable-run_ops os (run_op o db) (Stable-run_op o db h)
