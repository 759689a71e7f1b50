-- ===== src/Sending/Ledger.antt =====
-- The helpers that the send tasks share: pending rows, completion, and what is enqueued.
use emailmarketing.Base.{
  ℕ, ◌==◌, Bool, false, ◌&&◌, Option, none, some, List, [], ◌∷◌, if◌then◌else◌, count_where, where_,
}
use emailmarketing.Models.{
  Db, Campaign, CampaignRecipient, CampaignStatus, RecipientStatus, get_campaign, is_recipient,
  is_campaign,
}
use emailmarketing.Counters.{update_campaign_row}

abbrev pub is_pending_of : ℕ → CampaignRecipient → Bool
is_pending_of campaign_id r =
    r.campaign_id == campaign_id && is_recipient r.status RecipientStatus.pending

abbrev pub is_row_of : ℕ → CampaignRecipient → Bool
is_row_of campaign_id r = r.campaign_id == campaign_id

unfoldable pub pending_count : Db → ℕ → ℕ
pending_count db campaign_id = count_where (is_pending_of campaign_id) db.recipients

-- `campaign and campaign.status == SENDING`
unfoldable pub is_sending : Option Campaign → Bool
is_sending none = false
is_sending (some c) = is_campaign c.status CampaignStatus.sending

unfoldable pub maybe_finalize : ℕ → Db → Db
unfolding pending_count is_sending update_campaign_row
maybe_finalize campaign_id db =
    if pending_count db campaign_id == 0
    then (if is_sending (get_campaign db campaign_id)
        then update_campaign_row campaign_id
            (λ (c : Campaign). record c { status = CampaignStatus.completed }) db
        else db)
    else db

unfoldable pub row_ids : List CampaignRecipient → List ℕ
row_ids [] = []
row_ids (r ∷ rs) = r.id ∷ row_ids rs

-- `enqueue_pending_for_campaign`: the recipients that it enqueues `send_one` for
unfoldable pub pending_ids : ℕ → Db → List ℕ
unfolding row_ids
pending_ids campaign_id db = row_ids (where_ (is_pending_of campaign_id) db.recipients)
