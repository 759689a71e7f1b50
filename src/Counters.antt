-- ===== src/Counters.antt =====
-- app/services/counters.py, and the single-row updates that the services make through the session.
use emailmarketing.Base.{ℕ, ◌+◌, update_where, ◌==◌}
use emailmarketing.Models.{Db, Campaign, CampaignRecipient}

-- the columns that `bump_campaign` is called with
pub data Counter : Type 0 where
  sent_count delivered_count bounced_count failed_count skipped_count : Counter

unfoldable pub bump_counter : Counter → Campaign → Campaign
bump_counter sent_count c = record c { sent_count = c.sent_count + 1 }
bump_counter delivered_count c = record c { delivered_count = c.delivered_count + 1 }
bump_counter bounced_count c = record c { bounced_count = c.bounced_count + 1 }
bump_counter failed_count c = record c { failed_count = c.failed_count + 1 }
bump_counter skipped_count c = record c { skipped_count = c.skipped_count + 1 }

unfoldable pub update_campaign_row : ℕ → (Campaign → Campaign) → Db → Db
update_campaign_row id f db = record db {
  campaigns = update_where (λ (c : Campaign). c.id == id) f db.campaigns;
}

unfoldable pub update_recipient_row : ℕ → (CampaignRecipient → CampaignRecipient) → Db → Db
update_recipient_row id f db = record db {
  recipients = update_where (λ (r : CampaignRecipient). r.id == id) f db.recipients;
}

-- Every caller adds one to one column.
unfoldable pub bump_campaign : ℕ → Counter → Db → Db
unfolding update_campaign_row bump_counter
bump_campaign id counter = update_campaign_row id (bump_counter counter)
