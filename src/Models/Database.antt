-- ===== src/Models/Database.antt =====
-- The database: one list of rows for each table, and the next primary key of the tables whose keys
-- the program uses.
use emailmarketing.Base.{ℕ, Option, List, [], ◌==◌, find, none}
use emailmarketing.Models.Rows.{
  Contact, ContactList, Suppression, Template, Campaign, CampaignRecipient, EmailEvent,
  CampaignList, PlannerPlacement, CampaignContactSend, IpWarmState, PlannerSettings,
}

pub record Db : Type 0 where
  pub contacts : List Contact
  pub contact_lists : List ContactList
  pub suppressions : List Suppression
  pub templates : List Template
  pub campaigns : List Campaign
  pub recipients : List CampaignRecipient
  pub events : List EmailEvent
  pub campaign_lists : List CampaignList
  pub placements : List PlannerPlacement
  pub contact_sends : List CampaignContactSend
  pub warm_states : List IpWarmState
  pub planner_settings : Option PlannerSettings
  pub next_contact_id : ℕ
  pub next_campaign_id : ℕ
  pub next_recipient_id : ℕ
  pub next_placement_id : ℕ
  pub next_list_id : ℕ
  pub next_template_id : ℕ

abbrev pub empty_db : Db
empty_db = record {
  contacts = [];
  contact_lists = [];
  suppressions = [];
  templates = [];
  campaigns = [];
  recipients = [];
  events = [];
  campaign_lists = [];
  placements = [];
  contact_sends = [];
  warm_states = [];
  planner_settings = none;
  next_contact_id = 1;
  next_campaign_id = 1;
  next_recipient_id = 1;
  next_placement_id = 1;
  next_list_id = 1;
  next_template_id = 1;
}

-- `session.get(Campaign, id)`, and so for the other tables
abbrev pub get_campaign : Db → ℕ → Option Campaign
get_campaign db id = find (λ (c : Campaign). c.id == id) db.campaigns

abbrev pub get_recipient : Db → ℕ → Option CampaignRecipient
get_recipient db id = find (λ (r : CampaignRecipient). r.id == id) db.recipients

abbrev pub get_template : Db → ℕ → Option Template
get_template db id = find (λ (t : Template). t.id == id) db.templates

abbrev pub get_contact_list : Db → ℕ → Option ContactList
get_contact_list db id = find (λ (l : ContactList). l.id == id) db.contact_lists
