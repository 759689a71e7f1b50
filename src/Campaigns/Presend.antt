-- ===== src/Campaigns/Presend.antt =====
-- app/services/campaigns.py: the summary that is shown before a campaign is sent, and the deletion
-- of a campaign.
pub mod Laws
use emailmarketing.Cascades.{delete_campaign_row}
use emailmarketing.Suppression.{has_suppression}
use emailmarketing.Text.{Text}
use emailmarketing.Sending.Materialize.{is_in_lists}
use emailmarketing.Normalize.{Validator}
use emailmarketing.Models.{
  Campaign, Contact, Db, get_campaign, is_campaign, CampaignStatus, is_active,
}
use emailmarketing.Campaigns.{SendError, validate_for_send}
use emailmarketing.Base.{
  ℕ, zero, suc, ◌==◌, ◌+◌, ◌-◌, ◌≤◌, ◌<◌, ◌≡◌, refl, Bool, true, false, ◌&&◌, ◌||◌, not, Option,
  none, some, List, [], ◌∷◌, arith, inl, inr, if◌then◌else◌, Bool-cases, Option-cases, ◌++◌, ◌*◌,
  ◌/◌, count_where, max,
}

pub record PreSendSummary : Type 0 where
  pub recipients : ℕ
  pub suppressed_excluded : ℕ
  pub estimated_minutes : ℕ
  pub errors : List SendError

-- `Contact.list_id == campaign.list_id, Contact.status == "active"`
abbrev pub is_active_of : ℕ → Contact → Bool
is_active_of list_id c = is_in_lists (list_id ∷ []) c.list_id && is_active c.status

-- `math.ceil(recipients / rate)`
abbrev pub ceil_div : ℕ → ℕ → ℕ
ceil_div n rate = (n + (rate - 1)) / rate

-- the counts over the one list of the campaign: its active contacts, and those that are suppressed
unfoldable pub presend_counts : Option ℕ → Db → ℕ × ℕ
presend_counts none db = (0, 0)
presend_counts (some list_id) db =
    let active = count_where (is_active_of list_id) db.contacts in
    let suppressed =
      count_where (λ (c : Contact). is_active_of list_id c && has_suppression db c.email)
        db.contacts in
    (active - suppressed, suppressed)

unfoldable pub presend_summary : Validator → List Text → ℕ → Campaign → Db → PreSendSummary
presend_summary validator allowed rate_global_per_minute c db =
    let (recipients, suppressed) = presend_counts c.list_id db in
    record {
      recipients = recipients;
      suppressed_excluded = suppressed;
      estimated_minutes = ceil_div recipients (max 1 rate_global_per_minute);
      errors = validate_for_send validator allowed c db;
    }

unfoldable pub delete_found : Option Campaign → Db → Db × Bool
delete_found none db = (db, false)
delete_found (some c) db =
    if is_campaign c.status CampaignStatus.sending
    then (db, false)
    else (delete_campaign_row c.id db, true)

unfoldable pub delete_campaign : ℕ → Db → Db × Bool
delete_campaign campaign_id db = delete_found (get_campaign db campaign_id) db
