-- ===== src/System/Progress.antt =====
-- A send that is persisted makes progress, and the last one completes its campaign.
use emailmarketing.Sending.SendOne.Once.{recipients-persisted}
use emailmarketing.Sending.SendOne.{mark_sent, persist_found}
use emailmarketing.Counters.{update_recipient_row}
use emailmarketing.Sending.Ledger.{pending_count, is_pending_of}
use emailmarketing.Text.{Text}
use emailmarketing.Sending.SendOne.Validate.{Payload}
use emailmarketing.Models.{CampaignRecipient, Db, get_recipient, is_recipient, RecipientStatus}
use emailmarketing.Base.{
  ℕ, ◌==◌, ◌+◌, ◌≡◌, refl, Bool, true, false, none, some, List, [], ◌∷◌, arith, inl, inr,
  Bool-cases, update_where, any, find, count_where, Distinct, ==→eq, subst, sym, find-holds, ap,
}
use emailmarketing.System.Invariants.{same_id, IsKeyed}

abbrev has_id : ℕ → CampaignRecipient → Bool
has_id id r = r.id == id

untouched :
    (r : CampaignRecipient) (id : ℕ) (f : CampaignRecipient → CampaignRecipient)
    (rs : List CampaignRecipient)
    → r.id ≡ id
    → any (same_id r) rs ≡ false
    → update_where (λ (x : CampaignRecipient). x.id == id) f rs ≡ rs
unfolding update_where
untouched r id f [] e h = refl
untouched r id f (x ∷ xs) e h =
    rw (untouched r id f xs e (ground (arith, h))) (ground (arith, e, h))

-- The update of the one row with a key takes one row out of a count.
count-settled :
    (q : CampaignRecipient → Bool) (id : ℕ) (f : CampaignRecipient → CampaignRecipient)
    (cr : CampaignRecipient) (rs : List CampaignRecipient)
    → Distinct same_id rs
    → find (λ (x : CampaignRecipient). x.id == id) rs ≡ some cr
    → q cr ≡ true
    → q (f cr) ≡ false
    → count_where q (update_where (λ (x : CampaignRecipient). x.id == id) f rs) + 1
      ≡ count_where q rs
unfolding find update_where count_where
count-settled q id f cr [] d e t u = absurd (never e)
  where
    never : none ≡ some cr → ⊥
    never e = cc
count-settled q id f cr (x ∷ xs) d e t u = elim (Bool-cases (x.id == id)) [
  | inr other ↦ rw other (omega (arith, count-settled q id f cr xs d.1 (rw other at e) t u))
  | inl is ↦
      let here = unwrap (rw is at e) in
      rw
        (
          is,
          untouched x id f xs (==→eq x.id id is) d.0,
          subst (λ y. q y ≡ true) (sym here) t,
          subst (λ y. q (f y) ≡ false) (sym here) u,
        )
        (omega arith)
]
  where
    unwrap : {a b : CampaignRecipient} → some a ≡ some b → a ≡ b
    unwrap e = cc

same_pending :
    (d d' : Db) (c : ℕ) → d'.recipients ≡ d.recipients → pending_count d' c ≡ pending_count d c
unfolding pending_count
same_pending d d' c e = ap (count_where (is_pending_of c)) e

module _ (now : ℕ) (p : Payload) (token : Text) (id : ℕ) (cr : CampaignRecipient) (db : Db)
    (keyed : IsKeyed db) (found : get_recipient db id ≡ some cr)
    (pending : is_recipient cr.status RecipientStatus.pending ≡ true)
    (own : cr.campaign_id ≡ p.campaign_id) where
  pending_count-marked :
      pending_count (update_recipient_row cr.id (mark_sent token p.pool) db) p.campaign_id + 1
      ≡ pending_count db p.campaign_id
  unfolding pending_count update_recipient_row
  pending_count-marked =
      count-settled (is_pending_of p.campaign_id) cr.id (mark_sent token p.pool) cr db.recipients
        keyed.1
        (subst (λ i. find (λ (x : CampaignRecipient). x.id == i) db.recipients ≡ some cr)
          (sym (
            ==→eq cr.id id
              (find-holds (λ (x : CampaignRecipient). x.id == id) db.recipients cr found)))
          found)
        (ground (arith, pending, own)) (ground arith)

  -- If the keys of the ledger are distinct, and a message is accepted for a row that is still
  -- pending when it is read again, then its campaign has one pending row less afterwards.
  pub pending_count-persist_found :
      pending_count (persist_found now p token (some cr) db) p.campaign_id + 1
      ≡ pending_count db p.campaign_id
  pending_count-persist_found = omega (
    arith,
    same_pending (update_recipient_row cr.id (mark_sent token p.pool) db)
        (persist_found now p token (some cr) db) p.campaign_id
        (recipients-persisted now p token cr db pending),
    pending_count-marked,
  )
