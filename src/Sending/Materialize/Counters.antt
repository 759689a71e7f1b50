-- ===== src/Sending/Materialize/Counters.antt =====
-- The counters after materialization.
use emailmarketing.Counters.{update_campaign_row}
use emailmarketing.Base.{
  ℕ, ◌==◌, ◌+◌, ◌-◌, ◌≡◌, refl, Bool, ◌&&◌, not, Option, none, some, arith, count_where, map_option,
  find-update_where, count-split, find, sym, ◌∙◌,
}
use emailmarketing.Models.{
  Db, Campaign, CampaignRecipient, RecipientStatus, get_campaign, is_recipient,
}
use emailmarketing.Sending.Ledger.{pending_count, is_row_of, is_pending_of}
use emailmarketing.Sending.Materialize.{recount}

-- a row of the campaign that has been processed in any way, a successful send included
abbrev pub is_processed : ℕ → CampaignRecipient → Bool
is_processed campaign_id r =
    is_row_of campaign_id r && not (is_recipient r.status RecipientStatus.pending)

-- A finding, as a theorem. Materialization runs again on every resume, and recomputes the skipped
-- counter as the number of rows that are not pending: the rows that were sent, delivered, bounced
-- or failed are counted as skipped too. The queued counter becomes the number of pending rows.
pub recount_counts_processed :
    (campaign_id : ℕ) (db : Db) (c : Campaign)
    → get_campaign (recount campaign_id db) campaign_id ≡ some c
    → (c.skipped_count ≡ count_where (is_processed campaign_id) db.recipients)
      × (c.queued_count ≡ pending_count db campaign_id)
      × (c.total_recipients ≡ c.queued_count + c.skipped_count)
unfolding recount update_campaign_row pending_count
recount_counts_processed campaign_id db c h =
    let total = count_where (is_row_of campaign_id) db.recipients in
    let pending = pending_count db campaign_id in
    let f : Campaign → Campaign = λ x. record x {
      total_recipients = total;
      skipped_count = total - pending;
      queued_count = pending;
    } in
    let back =
      find-update_where (λ (x : Campaign). x.id == campaign_id) f db.campaigns (λ x. refl) in
    let parts =
      count-split (is_row_of campaign_id)
        (λ (r : CampaignRecipient). is_recipient r.status RecipientStatus.pending) db.recipients in
    from_old (find (λ (x : Campaign). x.id == campaign_id) db.campaigns) (sym back ∙ h) parts
  where
    from_old :
        (o : Option Campaign)
        → map_option
            (λ x. record x {
              total_recipients = count_where (is_row_of campaign_id) db.recipients;
              skipped_count =
                  count_where (is_row_of campaign_id) db.recipients
                  - count_where (is_pending_of campaign_id) db.recipients;
              queued_count = count_where (is_pending_of campaign_id) db.recipients;
            })
            o
          ≡ some c
        → count_where (is_row_of campaign_id) db.recipients
          ≡ count_where (is_pending_of campaign_id) db.recipients
            + count_where (is_processed campaign_id) db.recipients
        → (c.skipped_count ≡ count_where (is_processed campaign_id) db.recipients)
          × (c.queued_count ≡ count_where (is_pending_of campaign_id) db.recipients)
          × (c.total_recipients ≡ c.queued_count + c.skipped_count)
    from_old none e parts = absurd (cc e)
    from_old (some old) e parts = ground arith
