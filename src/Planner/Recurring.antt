-- ===== src/Planner/Recurring.antt =====
-- app/services/planner.py: the recurring campaigns, and the count of contacts that the grid shows.
pub mod Laws
use emailmarketing.Sending.SendOne.Message.{non_empty}
use emailmarketing.Sending.SendOne.Validate.{pool_or}
use emailmarketing.Frequency.{is_ineligible}
use emailmarketing.Suppression.{has_suppression}
use emailmarketing.Sending.Materialize.{is_in_lists}
use emailmarketing.Cascades.{delete_campaign_row}
use emailmarketing.Counters.{update_campaign_row}
use emailmarketing.CampaignLists.{list_ids, set_campaign_lists}
use emailmarketing.Text.{Text, strip, codes}
use emailmarketing.Campaigns.{CampaignFields, apply_fields, add_campaign, bare_campaign}
use emailmarketing.Models.{
  Campaign, Db, Contact, get_campaign, CampaignList, is_active, CampaignStatus,
}
use emailmarketing.Base.{
  ℕ, zero, suc, ◌==◌, ◌+◌, ◌-◌, ◌≤◌, ◌<◌, ◌≡◌, refl, Bool, true, false, ◌&&◌, ◌||◌, not, Option,
  none, some, List, [], ◌∷◌, arith, inl, inr, if◌then◌else◌, Bool-cases, Option-cases, ◌++◌, ◌*◌,
  ◌/◌, count_where, where_,
}

-- The subquery of recent sends, by its membership test, is that of the frequency rule.
unfoldable pub is_eligible : ℕ → ℕ → ℕ → List ℕ → Db → Contact → Bool
is_eligible now campaign_id interval_days list_ids db c =
    is_in_lists list_ids c.list_id
    && is_active c.status
    && not (has_suppression db c.email)
    && not (is_ineligible now db campaign_id interval_days c.id)

-- `CampaignList.list_id … where CampaignList.campaign_id == campaign_id`, with no fallback
abbrev pub own_lists : ℕ → Db → List ℕ
own_lists campaign_id db =
    list_ids (where_ (λ (r : CampaignList). r.campaign_id == campaign_id) db.campaign_lists)

unfoldable pub eligible_count : ℕ → ℕ → ℕ → Db → ℕ
eligible_count now campaign_id interval_days db =
    let ids = own_lists campaign_id db in
    elim ids [
      | [] ↦ 0
      | l ∷ ls ↦ count_where (is_eligible now campaign_id interval_days (l ∷ ls) db) db.contacts
    ]

-- the `**fields` of the forms
pub record RecurringFields : Type 0 where
  pub base : CampaignFields
  pub send_time : Option Text
  pub send_timezone : Option Text

unfoldable pub create_recurring : List ℕ → RecurringFields → Db → Db × ℕ
create_recurring lists fields db = (
  set_campaign_lists db.next_campaign_id lists (
      add_campaign
        (record (bare_campaign db.next_campaign_id CampaignStatus.planner) {
          name = strip (pool_or fields.base.name (codes "Untitled service"));
          subject = pool_or fields.base.subject [];
          from_name = pool_or fields.base.from_name [];
          from_email = pool_or fields.base.from_email [];
          reply_to = non_empty fields.base.reply_to;
          template_id = fields.base.template_id;
          ip_pool = fields.base.ip_pool;
          send_time = some (pool_or fields.send_time (codes "09:00"));
          send_timezone = some (pool_or fields.send_timezone (codes "Europe/Tirana"));
          is_planner = true;
        })
        db),
  db.next_campaign_id,
)

abbrev pub keep_or : Option Text → Option Text → Option Text
keep_or none old = old
keep_or (some t) old = some t

-- The loop of `setattr`; unlike the form of a campaign, it leaves the list of the row alone.
unfoldable pub apply_recurring : RecurringFields → Campaign → Campaign
apply_recurring fields c = record (apply_fields (record fields.base { list_id = none }) c) {
  send_time = keep_or fields.send_time c.send_time;
  send_timezone = keep_or fields.send_timezone c.send_timezone;
}

unfoldable pub replace_lists : ℕ → Option (List ℕ) → Db → Db
replace_lists campaign_id none db = db
replace_lists campaign_id (some ids) db = set_campaign_lists campaign_id ids db

unfoldable pub update_recurring_found :
    ℕ → Option (List ℕ) → RecurringFields → Option Campaign → Db → Db × Bool
update_recurring_found campaign_id lists fields none db = (db, false)
update_recurring_found campaign_id lists fields (some c) db =
    if not c.is_planner then (db, false) else (
      replace_lists campaign_id lists (update_campaign_row c.id (apply_recurring fields) db),
      true,
    )

unfoldable pub update_recurring : ℕ → Option (List ℕ) → RecurringFields → Db → Db × Bool
update_recurring campaign_id lists fields db =
    update_recurring_found campaign_id lists fields (get_campaign db campaign_id) db

unfoldable pub delete_recurring_found : Option Campaign → Db → Db × Bool
delete_recurring_found none db = (db, false)
delete_recurring_found (some c) db =
    if not c.is_planner then (db, false) else (delete_campaign_row c.id db, true)

unfoldable pub delete_recurring : ℕ → Db → Db × Bool
delete_recurring campaign_id db = delete_recurring_found (get_campaign db campaign_id) db
