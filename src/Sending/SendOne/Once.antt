-- ===== src/Sending/SendOne/Once.antt =====
-- Why no recipient is sent to twice: a row that is sent is no longer pending, and phase 1 stops there.
use emailmarketing.Frequency.{record_send}
use emailmarketing.Base.{
  ℕ, ◌==◌, ◌≡◌, refl, Bool, true, false, Option, none, some, arith, inl, inr, Bool-cases,
  Option-cases, ◌∙◌, ==→eq, ap, find-holds, sym, find, find-update_where, subst, update_where,
  map_option,
}
use emailmarketing.Text.{Text}
use emailmarketing.Models.{Db, CampaignRecipient, RecipientStatus, get_recipient, is_recipient}
use emailmarketing.Counters.{sent_count, Counter, bump_campaign, update_recipient_row}
use emailmarketing.Sending.Ledger.{maybe_finalize}
use emailmarketing.Sending.SendOne.Validate.{
  Payload, stop, validate, with_recipient, SendOutcome, missing, already_processed,
}
use emailmarketing.Sending.SendOne.{World, Env, persist, persist_found, log_frequency, mark_sent}

-- The row of the recipient is gone or in a terminal state.
abbrev pub NotPending : ℕ → Db → Type 0
NotPending id db =
    (r : CampaignRecipient)
    → get_recipient db id ≡ some r
    → is_recipient r.status RecipientStatus.pending ≡ false

pub recipients-maybe_finalize : (c : ℕ) (db : Db) → (maybe_finalize c db).recipients ≡ db.recipients
unfolding maybe_finalize
recipients-maybe_finalize c db = ground arith

pub recipients-log_frequency :
    (now : ℕ) (c k : Option ℕ) (db : Db) → (log_frequency now c k db).recipients ≡ db.recipients
unfolding log_frequency record_send
recipients-log_frequency now none k db = refl
recipients-log_frequency now (some c) none db = refl
recipients-log_frequency now (some c) (some k) db = refl

pub recipients-persisted :
    (now : ℕ) (p : Payload) (token : Text) (cr : CampaignRecipient) (db : Db)
    → is_recipient cr.status RecipientStatus.pending ≡ true
    → (persist_found now p token (some cr) db).recipients
      ≡ (update_recipient_row cr.id (mark_sent token p.pool) db).recipients
unfolding persist_found
recipients-persisted now p token cr db h = rw h (
    recipients-maybe_finalize p.campaign_id _
    ∙ recipients-log_frequency now p.freq_campaign_id p.contact_id _
    ∙ bumped p.campaign_id sent_count (update_recipient_row cr.id (mark_sent token p.pool) db))
  where
    bumped : (c : ℕ) (k : Counter) (db : Db) → (bump_campaign c k db).recipients ≡ db.recipients
    bumped c k db = unfold bump_campaign in refl

-- the read of phase 4 and its write concern the same row
marked :
    (id : ℕ) (token pool : Text) (cr r : CampaignRecipient) (db : Db)
    → get_recipient db id ≡ some cr
    → get_recipient (update_recipient_row cr.id (mark_sent token pool) db) id ≡ some r
    → r ≡ mark_sent token pool cr
unfolding update_recipient_row
marked id token pool cr r db found h =
    let is_id : ℕ → CampaignRecipient → Bool = λ i x. x.id == i in
    let same : cr.id ≡ id = ==→eq cr.id id (find-holds (is_id id) db.recipients cr found) in
    let back = find-update_where (is_id id) (mark_sent token pool) db.recipients (λ x. refl) in
    let at_id =
      subst
        (λ i.
          find (is_id id) (update_where (is_id i) (mark_sent token pool) db.recipients) ≡ some r)
        same h in
    unwrap (sym (ap (map_option (mark_sent token pool)) found) ∙ sym back ∙ at_id)
  where
    unwrap : {a b : CampaignRecipient} → some a ≡ some b → b ≡ a
    unwrap e = cc

abbrev pending_in : Option CampaignRecipient → Bool
pending_in none = false
pending_in (some r) = is_recipient r.status RecipientStatus.pending

persisted-NotPending :
    (now : ℕ) (p : Payload) (token : Text) (id : ℕ) (cr : CampaignRecipient) (db : Db)
    → get_recipient db id ≡ some cr
    → NotPending id (persist_found now p token (some cr) db)
persisted-NotPending now p token id cr db found =
    elim (Bool-cases (is_recipient cr.status RecipientStatus.pending)) [
      | inl a ↦ λ r h.
          ap (λ (x : CampaignRecipient). is_recipient x.status RecipientStatus.pending)
            (marked id token p.pool cr r db found (
              sym (
                ap (find (λ (x : CampaignRecipient). x.id == id))
                  (recipients-persisted now p token cr db a))
              ∙ h))
      | inr a ↦ unfold persist_found in rw a (λ r h. same r (sym found ∙ h) a)
    ]
  where
    same :
        (r : CampaignRecipient)
        → some cr ≡ some r
        → is_recipient cr.status RecipientStatus.pending ≡ false
        → is_recipient r.status RecipientStatus.pending ≡ false
    same r e a = ap (λ (x : Option CampaignRecipient). pending_in x) (sym e) ∙ a

pub persist-NotPending :
    (env : Env) (p : Payload) (id : ℕ) (token : Text) (w : World)
    → NotPending id (persist env p id token w).0.db
unfolding persist
persist-NotPending env p id token w = elim (Option-cases (get_recipient w.db id)) [
  | inl lost ↦ rw (lost, persist) (λ r h. absurd (gone r (sym lost ∙ h)))
  | inr (cr, found) ↦ rw (found, persist) (persisted-NotPending env.now p token id cr w.db found)
]
  where
    gone : (r : CampaignRecipient) → none ≡ some r → ⊥
    gone r e = cc

-- Phase 1 stops at a row that is not pending and leaves the database as it is.
pub idle_validate :
    (now id : ℕ) (db : Db)
    → NotPending id db
    → (o : SendOutcome) × (validate now id db ≡ (db, stop o))
unfolding validate
idle_validate now id db settled = by_row (get_recipient db id) refl
  where
    by_row :
        (o : Option CampaignRecipient)
        → get_recipient db id ≡ o
        → (out : SendOutcome) × (with_recipient now o db ≡ (db, stop out))
    by_row none e = (missing, unfold with_recipient in refl)
    by_row (some cr) e = (already_processed, unfold with_recipient in rw (settled cr e))
