-- ===== src/Sending/Materialize/Loop.antt =====
-- The loop of `materialize_campaign` over the contacts of the pooled lists.
use emailmarketing.Base.{
  ℕ, ◌==◌, ◌+◌, Bool, false, ◌&&◌, not, none, some, List, [], ◌∷◌, if◌then◌else◌, ◌++◌,
}
use emailmarketing.Models.{Db, Contact, Campaign, CampaignRecipient, RecipientStatus}
use emailmarketing.Suppression.{has_suppression}
use emailmarketing.Frequency.{is_ineligible}
use emailmarketing.CampaignLists.{contains_id}
use emailmarketing.PlannerConfig.{get_planner_config}

pub record Loop : Type 0 where
  pub existing_ids : List ℕ
  pub recipients : List CampaignRecipient
  pub next_id : ℕ
  pub created : ℕ
  pub skipped : ℕ
  pub freq_skipped : ℕ

-- the contact ids of the campaign's rows; a null one is never the id of a contact
unfoldable pub contact_ids : ℕ → List CampaignRecipient → List ℕ
contact_ids campaign_id [] = []
contact_ids campaign_id (r ∷ rs) =
    let rest = contact_ids campaign_id rs in
    if r.campaign_id == campaign_id
    then elim r.contact_id [ none ↦ rest | some k ↦ k ∷ rest ]
    else rest

unfoldable pub start : Db → ℕ → Loop
start db campaign_id = record {
  existing_ids = contact_ids campaign_id db.recipients;
  recipients = db.recipients;
  next_id = db.next_recipient_id;
  created = 0;
  skipped = 0;
  freq_skipped = 0;
}

-- `contact_id in ineligible`, by the frequency rule of a planner run
unfoldable pub exclusion : ℕ → Db → Campaign → ℕ → Bool
exclusion now db campaign contact = elim campaign.parent_campaign_id [
  | none ↦ false
  | some parent ↦
      is_ineligible now db parent (get_planner_config db).frequency_interval_days contact
]

unfoldable pub status_for : Bool → Bool → RecipientStatus
status_for suppressed excluded =
    if suppressed
    then RecipientStatus.skipped_suppressed
    else if excluded
    then RecipientStatus.skipped_frequency
    else RecipientStatus.pending

unfoldable pub new_row : Campaign → ℕ → Contact → RecipientStatus → CampaignRecipient
new_row campaign id contact status = record {
  id = id;
  campaign_id = campaign.id;
  contact_id = some contact.id;
  email_snapshot = contact.email;
  merge_snapshot = record {
    first_name = contact.first_name;
    last_name = contact.last_name;
    custom_fields = contact.custom_fields;
  };
  status = status;
  postal_message_id = none;
  ip_pool = campaign.ip_pool;
  last_event_at = none;
  error_detail = none;
}

abbrev pub one_if : Bool → ℕ
one_if b = if b then 1 else 0

module _ (db : Db) (campaign : Campaign) (excluded : ℕ → Bool) where
  unfoldable pub visit : Contact → Loop → Loop
  visit contact l =
      let suppressed = has_suppression db contact.email in
      let frequent = excluded contact.id in
      if contains_id contact.id l.existing_ids then l else record {
        existing_ids = contact.id ∷ l.existing_ids;
        recipients =
            l.recipients
            ++ new_row campaign l.next_id contact (status_for suppressed frequent) ∷ [];
        next_id = l.next_id + 1;
        created = l.created + one_if (not suppressed && not frequent);
        skipped = l.skipped + one_if suppressed;
        freq_skipped = l.freq_skipped + one_if (not suppressed && frequent);
      }

  unfoldable pub run_loop : List Contact → Loop → Loop
  run_loop [] l = l
  run_loop (contact ∷ contacts) l = run_loop contacts (visit contact l)
