-- ===== src/Cascades.antt =====
-- The ON DELETE actions of the foreign keys in app/models: what goes with a deleted contact, list or
-- campaign.
pub mod Laws
use emailmarketing.CampaignLists.{contains_id}
use emailmarketing.Models.{
  Campaign, CampaignRecipient, Contact, Db, ContactList, EmailEvent, CampaignContactSend,
  CampaignList, PlannerPlacement,
}
use emailmarketing.Base.{
  ℕ, zero, suc, ◌==◌, ◌+◌, ◌-◌, ◌≤◌, ◌<◌, ◌≡◌, refl, Bool, true, false, ◌&&◌, ◌||◌, not, Option,
  none, some, List, [], ◌∷◌, arith, inl, inr, if◌then◌else◌, Bool-cases, Option-cases, ◌++◌, ◌*◌,
  ◌/◌, any, where_, update_where,
}

-- the ids of the rows that pass
unfoldable pub doomed_contacts : (Contact → Bool) → List Contact → List ℕ
doomed_contacts p [] = []
doomed_contacts p (c ∷ cs) = let rest = doomed_contacts p cs in if p c then c.id ∷ rest else rest

abbrev pub refers_to : List ℕ → Option ℕ → Bool
refers_to ids none = false
refers_to ids (some k) = contains_id k ids

-- `campaign_recipients.contact_id` is set to null, and the frequency log goes with the contact.
unfoldable pub delete_contacts : (Contact → Bool) → Db → Db
delete_contacts p db =
    let ids = doomed_contacts p db.contacts in
    record db {
      contacts = where_ (λ c. not (p c)) db.contacts;
      recipients =
          update_where (λ (r : CampaignRecipient). refers_to ids r.contact_id)
            (λ (r : CampaignRecipient). record r { contact_id = none }) db.recipients;
      contact_sends =
          where_ (λ (s : CampaignContactSend). not (contains_id s.contact_id ids)) db.contact_sends;
    }

-- the ids of the ledger rows of a campaign
unfoldable pub ledger_ids : ℕ → List CampaignRecipient → List ℕ
ledger_ids campaign [] = []
ledger_ids campaign (r ∷ rs) =
    let rest = ledger_ids campaign rs in if r.campaign_id == campaign then r.id ∷ rest else rest

-- a run that outlives its recurring campaign
abbrev pub orphan : ℕ → Campaign → Campaign
orphan id c = record c {
  parent_campaign_id =
      if refers_to (id ∷ []) c.parent_campaign_id then none else c.parent_campaign_id;
}

abbrev pub orphans : ℕ → List Campaign → List Campaign
orphans id [] = []
orphans id (c ∷ cs) = orphan id c ∷ orphans id cs

-- Its ledger, events, lists, placements and frequency log go with a campaign.
unfoldable pub delete_campaign_row : ℕ → Db → Db
delete_campaign_row id db =
    let rows = ledger_ids id db.recipients in
    record db {
      campaigns = orphans id (where_ (λ (c : Campaign). not (c.id == id)) db.campaigns);
      recipients = where_ (λ (r : CampaignRecipient). not (r.campaign_id == id)) db.recipients;
      events =
          where_ (λ (e : EmailEvent). not (contains_id e.campaign_recipient_id rows)) db.events;
      campaign_lists = where_ (λ (l : CampaignList). not (l.campaign_id == id)) db.campaign_lists;
      placements = where_ (λ (p : PlannerPlacement). not (p.campaign_id == id)) db.placements;
      contact_sends =
          where_ (λ (s : CampaignContactSend). not (s.campaign_id == id)) db.contact_sends;
    }

-- `campaigns.list_id` and `campaigns.template_id` restrict: the deletion raises where one refers to it.
unfoldable pub uses_list : ℕ → Db → Bool
uses_list id db = any (λ (c : Campaign). refers_to (id ∷ []) c.list_id) db.campaigns

unfoldable pub uses_template : ℕ → Db → Bool
uses_template id db = any (λ (c : Campaign). refers_to (id ∷ []) c.template_id) db.campaigns

abbrev pub is_of_list : ℕ → Contact → Bool
is_of_list id c = refers_to (id ∷ []) c.list_id

unfoldable pub delete_list_row : ℕ → Db → Db
delete_list_row id db =
    let db' = delete_contacts (is_of_list id) db in
    record db' {
      contact_lists = where_ (λ (l : ContactList). not (l.id == id)) db'.contact_lists;
      campaign_lists = where_ (λ (l : CampaignList). not (l.list_id == id)) db'.campaign_lists;
    }
