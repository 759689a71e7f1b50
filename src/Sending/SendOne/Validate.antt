-- ===== src/Sending/SendOne/Validate.antt =====
-- Phase 1 of `send_one`: the guards, the second check of the suppression list, and the snapshot.
use emailmarketing.Base.{ℕ, ◌==◌, Bool, not, Option, none, some, if◌then◌else◌}
use emailmarketing.Text.{Text, codes, is_empty}
use emailmarketing.Normalize.{domain_of}
use emailmarketing.Models.{
  Db, Campaign, CampaignRecipient, CampaignStatus, RecipientStatus, MergeSnapshot, OverflowPolicy,
  Template, get_campaign, get_recipient, get_template, is_recipient, is_campaign,
}
use emailmarketing.Counters.{bump_campaign, update_recipient_row, failed_count, skipped_count}
use emailmarketing.Suppression.{is_suppressed}
use emailmarketing.PlannerConfig.{get_planner_config}
use emailmarketing.Warming.{current_daily_cap}
use emailmarketing.Sending.Ledger.{maybe_finalize}

-- the texts that the task returns, and the two ends of a retry
pub data SendOutcome : Type 0 where
  locked missing already_processed no_campaign paused suppressed no_template : SendOutcome
  campaign_state : CampaignStatus → SendOutcome
  rate_limited daily_cap warming_deferred warming_cap : SendOutcome
  retried retries_exceeded propagated failed missing_after_send sent : SendOutcome

-- everything that is needed to send, read before the transaction ends
pub record Payload : Type 0 where
  pub campaign_id : ℕ
  pub freq_campaign_id : Option ℕ
  pub contact_id : Option ℕ
  pub email : Text
  pub domain : Text
  pub pool : Text
  pub subject_tpl : Text
  pub from_name : Text
  pub from_email : Text
  pub reply_to : Option Text
  pub merge : MergeSnapshot
  pub is_html : Bool
  pub tmpl_body : Text
  pub warming_cap : ℕ
  pub overflow_policy : OverflowPolicy
  pub send_rate : ℕ

pub data Checked : Type 0 where
  stop : SendOutcome → Checked
  go : Payload → Checked

-- `a or b or "default"`
unfoldable pub pool_or : Option Text → Text → Text
pool_or none d = d
pool_or (some t) d = if is_empty t then d else t

-- `session.get(Template, campaign.template_id) if campaign.template_id else None`
unfoldable pub template_of : Option ℕ → Db → Option Template
template_of none db = none
template_of (some id) db = if id == 0 then none else get_template db id

unfoldable pub payload : ℕ → Db → Campaign → CampaignRecipient → Template → Payload
unfolding pool_or
payload now db campaign cr template =
    let cfg = get_planner_config db in
    record {
      campaign_id = campaign.id;
      freq_campaign_id = campaign.parent_campaign_id;
      contact_id = cr.contact_id;
      email = cr.email_snapshot;
      domain = domain_of cr.email_snapshot;
      pool = pool_or cr.ip_pool (pool_or campaign.ip_pool (codes "default"));
      subject_tpl = campaign.subject;
      from_name = campaign.from_name;
      from_email = campaign.from_email;
      reply_to = campaign.reply_to;
      merge = cr.merge_snapshot;
      is_html = template.is_html;
      tmpl_body = template.body;
      warming_cap = current_daily_cap now db;
      overflow_policy = cfg.overflow_policy;
      send_rate = if cfg.send_rate_per_minute == 0 then 25 else cfg.send_rate_per_minute;
    }

unfoldable pub with_template :
    ℕ → Campaign → CampaignRecipient → Option Template → Db → Db × Checked
with_template now campaign cr none db = (
  maybe_finalize campaign.id (
      bump_campaign campaign.id failed_count (
        update_recipient_row cr.id
          (λ (r : CampaignRecipient). record r {
            status = RecipientStatus.failed;
            error_detail = some (codes "campaign has no template");
          })
          db)),
  stop no_template,
)
with_template now campaign cr (some template) db = (db, go (payload now db campaign cr template))

unfoldable pub with_campaign : ℕ → CampaignRecipient → Option Campaign → Db → Db × Checked
with_campaign now cr none db = (db, stop no_campaign)
with_campaign now cr (some campaign) db =
    if is_campaign campaign.status CampaignStatus.paused
    then (db, stop paused)
    else if not (is_campaign campaign.status CampaignStatus.sending)
    then (db, stop (campaign_state campaign.status))
    else if is_suppressed db cr.email_snapshot
    then (
      maybe_finalize campaign.id (
          bump_campaign campaign.id skipped_count (
            update_recipient_row cr.id
              (λ (r : CampaignRecipient). record r { status = RecipientStatus.skipped_suppressed })
              db)),
      stop suppressed,
    )
    else with_template now campaign cr (template_of campaign.template_id db) db

unfoldable pub with_recipient : ℕ → Option CampaignRecipient → Db → Db × Checked
with_recipient now none db = (db, stop missing)
with_recipient now (some cr) db =
    if not (is_recipient cr.status RecipientStatus.pending)
    then (db, stop already_processed)
    else with_campaign now cr (get_campaign db cr.campaign_id) db

unfoldable pub validate : ℕ → ℕ → Db → Db × Checked
validate now id db = with_recipient now (get_recipient db id) db
