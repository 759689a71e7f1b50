-- ===== src/Sending/SendOne/Safety.antt =====
-- When a message goes out: the guards of phase 1, and what Postal is handed.
use emailmarketing.Sending.SendOne.Cases.{pace_cases}
use emailmarketing.Base.{
  ℕ, ◌==◌, ◌≡◌, refl, true, false, Option, none, some, List, [], ◌∷◌, arith, inl, inr, Bool-cases,
  ◌++◌, ◌⊎◌, any, subst,
}
use emailmarketing.Models.{
  Db, Campaign, CampaignRecipient, CampaignStatus, RecipientStatus, Template, get_campaign,
  get_recipient, is_recipient, is_campaign,
}
use emailmarketing.Suppression.{is_suppressed}
use emailmarketing.Sending.SendOne.Validate.{
  Payload, Checked, stop, go, validate, with_recipient, with_campaign, with_template, payload,
  template_of, SendOutcome,
}
use emailmarketing.Sending.SendOne.Message.{SendMessage, build_message}
use emailmarketing.Sending.SendOne.{
  post, is_taken, after_pace, take_up, carry_out, release, World, Env, PostalReply, accepted,
  transient, unexpected, permanent, enqueue, persist, retry, after_reply, transmit, pace, proceed,
  send_one,
}

-- What phase 1 has established when it lets a recipient through.
pub record Cleared (now id : ℕ) (db : Db) (p : Payload) : Type 0 where
  pub cr : CampaignRecipient
  pub campaign : Campaign
  pub template : Template
  pub found : get_recipient db id ≡ some cr
  pub is_pending : is_recipient cr.status RecipientStatus.pending ≡ true
  pub of_campaign : get_campaign db cr.campaign_id ≡ some campaign
  pub is_sending : is_campaign campaign.status CampaignStatus.sending ≡ true
  pub not_suppressed : is_suppressed db cr.email_snapshot ≡ false
  pub has_template : template_of campaign.template_id db ≡ some template
  pub snapshot : p ≡ payload now db campaign cr template

-- A message built from a cleared recipient is all that a call can add to what Postal has accepted.
abbrev pub Sends : Env → ℕ → World → World → Type 0
Sends env id w w' =
    (p : Payload) × Cleared env.now id w.db p
    × (w'.outbox ≡ w.outbox ++ build_message env.escape env.unsubscribe_url p ∷ [])

stop-ne-go : {o : SendOutcome} {p : Payload} {P : Type 0} → stop o ≡ go p → P
stop-ne-go h = cc

module _ (now id : ℕ) (db : Db) (p : Payload) (cr : CampaignRecipient)
    (found : get_recipient db id ≡ some cr)
    (pending : is_recipient cr.status RecipientStatus.pending ≡ true) where
  Cleared-template :
      (c : Campaign) (o : Option Template)
      → get_campaign db cr.campaign_id ≡ some c
      → is_campaign c.status CampaignStatus.sending ≡ true
      → is_suppressed db cr.email_snapshot ≡ false
      → template_of c.template_id db ≡ o
      → (with_template now c cr o db).1 ≡ go p
      → Cleared now id db p
  unfolding with_template
  Cleared-template c none fc s n t h = stop-ne-go h
  Cleared-template c (some tpl) fc s n t h = record {
    cr = cr;
    campaign = c;
    template = tpl;
    found = found;
    is_pending = pending;
    of_campaign = fc;
    is_sending = s;
    not_suppressed = n;
    has_template = t;
    snapshot = cc;
  }

  Cleared-campaign :
      (o : Option Campaign)
      → get_campaign db cr.campaign_id ≡ o
      → (with_campaign now cr o db).1 ≡ go p
      → Cleared now id db p
  unfolding with_campaign
  Cleared-campaign none fc h = stop-ne-go h
  Cleared-campaign (some c) fc h = elim (Bool-cases (is_campaign c.status CampaignStatus.paused)) [
    | inl a ↦ stop-ne-go (rw a at h)
    | inr a ↦ elim (Bool-cases (is_campaign c.status CampaignStatus.sending)) [
      | inr b ↦ stop-ne-go (rw (a, b) at h)
      | inl b ↦ elim (Bool-cases (is_suppressed db cr.email_snapshot)) [
        | inl s ↦ stop-ne-go (rw (a, b, s) at h)
        | inr s ↦ Cleared-template c (template_of c.template_id db) fc b s refl (rw (a, b, s) at h)
      ]
    ]
  ]

Cleared-recipient :
    (now id : ℕ) (db : Db) (p : Payload) (o : Option CampaignRecipient)
    → get_recipient db id ≡ o
    → (with_recipient now o db).1 ≡ go p
    → Cleared now id db p
unfolding with_recipient
Cleared-recipient now id db p none found h = stop-ne-go h
Cleared-recipient now id db p (some cr) found h =
    elim (Bool-cases (is_recipient cr.status RecipientStatus.pending)) [
      | inl a ↦
          Cleared-campaign now id db p cr found a (get_campaign db cr.campaign_id) refl (rw a at h)
      | inr a ↦ stop-ne-go (rw a at h)
    ]

pub cleared :
    (now id : ℕ) (db : Db) (p : Payload) → (validate now id db).1 ≡ go p → Cleared now id db p
unfolding validate
cleared now id db p h = Cleared-recipient now id db p (get_recipient db id) refl h

-- the outbox is as before, or has one more message
abbrev pub Grows : List SendMessage → SendMessage → List SendMessage → Type 0
Grows before m after = (after ≡ before) ⊎ (after ≡ before ++ m ∷ [])

pub outbox-after_reply :
    (env : Env) (p : Payload) (id : ℕ) (reply : PostalReply) (w : World)
    → (after_reply env p id reply w).0.outbox ≡ w.outbox
unfolding after_reply persist retry enqueue
outbox-after_reply env p id (accepted token) w = ground arith
outbox-after_reply env p id transient w = ground arith
outbox-after_reply env p id unexpected w = refl
outbox-after_reply env p id (permanent detail) w = refl

pub outbox-post : (env : Env) (m : SendMessage) (w : World) → Grows w.outbox m (post env m w).outbox
unfolding post
outbox-post env m w = elim (Bool-cases (is_taken env m (env.postal m))) [
  | inl a ↦ rw a (inr refl)
  | inr a ↦ rw a (inl refl)
]

outbox-transmit :
    (env : Env) (p : Payload) (id : ℕ) (w : World)
    → Grows w.outbox (build_message env.escape env.unsubscribe_url p) (transmit env p id w).0.outbox
unfolding transmit
outbox-transmit env p id w =
    let m = build_message env.escape env.unsubscribe_url p in
    rw
      (outbox-after_reply env p id (env.postal m)
        (record (post env m w) { db = env.during_send (post env m w).db }))
      (outbox-post env m w)

outbox-pace :
    (env : Env) (p : Payload) (id : ℕ) (w : World)
    → Grows w.outbox
        (build_message env.escape env.unsubscribe_url p)
        (after_pace env p id (pace env p id w)).0.outbox
outbox-pace env p id w =
    let m = build_message env.escape env.unsubscribe_url p in
    pace_cases (λ r. Grows w.outbox m (after_pace env p id r).0.outbox) env p id w
      (λ w' o h. unfold after_pace in inl h.1) (λ w' o h. unfold after_pace in inl h.1)
      (λ w' h.
        unfold after_pace in
        subst (λ o. Grows o m (transmit env p id w').0.outbox) h.1 (outbox-transmit env p id w'))

Sends-checked :
    (env : Env) (id : ℕ) (w : World) (db' : Db) (c : Checked)
    → (validate env.now id w.db).1 ≡ c
    → ((proceed env id c (record w { db = db' })).0.outbox ≡ w.outbox)
      ⊎ Sends env id w (proceed env id c (record w { db = db' })).0
unfolding proceed
Sends-checked env id w db' (stop o) e = inl refl
Sends-checked env id w db' (go p) e = elim (outbox-pace env p id (record w { db = db' })) [
  | inl same ↦ inl same
  | inr more ↦ inr (p, cleared env.now id w.db p e, more)
]

-- The second enforcement of the suppression list. Whatever the environment does, one call of
-- `send_one` leaves what Postal has accepted as it is, or adds exactly one message, and then only
-- if at its start the ledger row was pending, its campaign was sending and had a template, and the
-- address of the row was not suppressed; the message is the one built from that row.
pub send_one-Sends :
    (env : Env) (id : ℕ) (w : World)
    → ((send_one env id w).0.outbox ≡ w.outbox) ⊎ Sends env id w (send_one env id w).0
unfolding send_one take_up carry_out release
send_one-Sends env id w = elim (Bool-cases (any (λ i. i == id) w.locks)) [
  | inl held ↦ inl (rw held)
  | inr free ↦ rw free (
      Sends-checked env id (record w { locks = id ∷ w.locks }) (validate env.now id w.db).0
        (validate env.now id w.db).1 refl)
]
