-- ===== src/Campaigns.antt =====
-- app/services/campaigns.py: the life of a campaign, as the pages drive it. The addresses and the
-- allowed domains of the settings are arguments. A campaign is handed over as its row; its other
-- rows stay as they are.
pub mod Laws
pub mod Presend
use emailmarketing.Sending.SendOne.Validate.{pool_or}
use emailmarketing.Merge.{has_unsubscribe}
use emailmarketing.Counters.{update_campaign_row}
use emailmarketing.Sending.SendOne.Message.{non_empty}
use emailmarketing.Normalize.{Validator, validate_syntax, domain_of}
use emailmarketing.Models.{
  Campaign, CampaignStatus, Db, Template, get_campaign, get_template, is_campaign,
}
use emailmarketing.Text.{Text, codes, is_empty, mem, strip}
use emailmarketing.Base.{
  ℕ, zero, suc, ◌==◌, ◌+◌, ◌-◌, ◌≤◌, ◌<◌, ◌≡◌, refl, Bool, true, false, ◌&&◌, ◌||◌, not, Option,
  none, some, List, [], ◌∷◌, arith, inl, inr, if◌then◌else◌, Bool-cases, Option-cases, ◌++◌, ◌*◌,
  ◌/◌, is_some, or_default,
}

-- the `**fields` of the forms
pub record CampaignFields : Type 0 where
  pub name : Option Text
  pub subject : Option Text
  pub from_name : Option Text
  pub from_email : Option Text
  pub reply_to : Option Text
  pub template_id : Option ℕ
  pub list_id : Option ℕ
  pub ip_pool : Option Text

pub record Defaults : Type 0 where
  pub default_from_name : Text
  pub default_from_email : Text
  pub default_reply_to : Option Text

-- a campaign with no counts yet
abbrev pub bare_campaign : ℕ → CampaignStatus → Campaign
bare_campaign id status = record {
  id = id;
  name = [];
  subject = [];
  from_name = [];
  from_email = [];
  reply_to = none;
  template_id = none;
  list_id = none;
  send_time = none;
  send_timezone = none;
  is_planner = false;
  parent_campaign_id = none;
  scheduled_at = none;
  status = status;
  ip_pool = none;
  total_recipients = 0;
  queued_count = 0;
  sent_count = 0;
  delivered_count = 0;
  bounced_count = 0;
  failed_count = 0;
  skipped_count = 0;
}

-- `session.add(campaign); flush()`, with the key that the flush gives
abbrev pub add_campaign : Campaign → Db → Db
add_campaign c db = record db {
  campaigns = db.campaigns ++ c ∷ [];
  next_campaign_id = db.next_campaign_id + 1;
}

unfoldable pub create_campaign : Defaults → CampaignFields → Db → Db × ℕ
create_campaign d fields db = (
  add_campaign
      (record (bare_campaign db.next_campaign_id CampaignStatus.draft) {
        name = strip (pool_or fields.name (codes "Untitled campaign"));
        subject = pool_or fields.subject [];
        from_name = pool_or fields.from_name d.default_from_name;
        from_email = pool_or fields.from_email d.default_from_email;
        reply_to = first_text fields.reply_to d.default_reply_to;
        template_id = fields.template_id;
        list_id = fields.list_id;
        ip_pool = fields.ip_pool;
      })
      db,
  db.next_campaign_id,
)
  where
    -- `(a or b) or None`
    first_text : Option Text → Option Text → Option Text
    first_text a b = elim (non_empty a) [ none ↦ non_empty b | some t ↦ some t ]

-- `status not in (DRAFT, SCHEDULED)`
unfoldable pub is_editable : CampaignStatus → Bool
is_editable s = is_campaign s CampaignStatus.draft || is_campaign s CampaignStatus.scheduled

-- the loop of `setattr`: a field that is given replaces the old one
unfoldable pub apply_fields : CampaignFields → Campaign → Campaign
apply_fields fields c = record c {
  name = or_default fields.name c.name;
  subject = or_default fields.subject c.subject;
  from_name = or_default fields.from_name c.from_name;
  from_email = or_default fields.from_email c.from_email;
  reply_to = elim fields.reply_to [ none ↦ c.reply_to | some t ↦ non_empty (some t) ];
  template_id = given fields.template_id c.template_id;
  list_id = given fields.list_id c.list_id;
  ip_pool = given fields.ip_pool c.ip_pool;
}
  where
    given : {A : Type 0} → Option A → Option A → Option A
    given none old = old
    given (some a) old = some a

unfoldable pub update_found : CampaignFields → Option Campaign → Db → Db × Bool
unfolding apply_fields is_editable
update_found fields none db = (db, false)
update_found fields (some c) db =
    if is_editable c.status
    then (update_campaign_row c.id (apply_fields fields) db, true)
    else (db, false)

unfoldable pub update_campaign : CampaignFields → ℕ → Db → Db × Bool
update_campaign fields campaign_id db = update_found fields (get_campaign db campaign_id) db

-- the messages of the validation
pub data SendError : Type 0 where
  no_list no_template empty_subject empty_from foreign_domain bad_reply_to : SendError
  template_not_found no_unsubscribe : SendError

abbrev pub error_if : Bool → SendError → List SendError
error_if b e = if b then e ∷ [] else []

unfoldable pub from_errors : List Text → Text → List SendError
from_errors allowed from_email =
    if is_empty from_email
    then empty_from ∷ []
    else error_if (not (mem (domain_of from_email) allowed)) foreign_domain

unfoldable pub reply_errors : Validator → Option Text → List SendError
reply_errors validator none = []
reply_errors validator (some t) =
    error_if (not (is_empty t) && not (validate_syntax validator (some t)).ok) bad_reply_to

unfoldable pub body_errors : Option Template → List SendError
body_errors none = template_not_found ∷ []
body_errors (some t) = error_if (not (has_unsubscribe t.body)) no_unsubscribe

unfoldable pub template_errors : Option ℕ → Db → List SendError
template_errors none db = []
template_errors (some id) db = body_errors (get_template db id)

unfoldable pub validate_for_send : Validator → List Text → Campaign → Db → List SendError
validate_for_send validator allowed c db =
    error_if (not (is_some c.list_id)) no_list
    ++ (error_if (not (is_some c.template_id)) no_template
        ++ (error_if (is_empty (strip c.subject)) empty_subject
            ++ (from_errors allowed c.from_email
                ++ (reply_errors validator c.reply_to ++ template_errors c.template_id db))))

-- the campaign's own row, as the session writes it back
abbrev pub set_status : CampaignStatus → Campaign → Db → Db
set_status status c db =
    update_campaign_row c.id (λ (x : Campaign). record x { status = status }) db

abbrev pub set_scheduled : ℕ → Campaign → Db → Db
set_scheduled at_time c db =
    update_campaign_row c.id
      (λ (x : Campaign). record x {
        scheduled_at = some at_time;
        status = CampaignStatus.scheduled;
      })
      db

unfoldable pub schedule_checked : List SendError → ℕ → Campaign → Db → Db
schedule_checked [] at_time c db = set_scheduled at_time c db
schedule_checked (e ∷ es) at_time c db = db

unfoldable pub schedule : Validator → List Text → ℕ → Campaign → Db → Db × List SendError
schedule validator allowed at_time c db =
    let errors = validate_for_send validator allowed c db in
    (schedule_checked errors at_time c db, errors)

unfoldable pub pause : Campaign → Db → Db × Bool
pause c db =
    if is_campaign c.status CampaignStatus.sending || is_campaign c.status CampaignStatus.scheduled
    then (set_status CampaignStatus.paused c db, true)
    else (db, false)

unfoldable pub resume : Campaign → Db → Db × Bool
resume c db =
    if is_campaign c.status CampaignStatus.paused
    then (set_status CampaignStatus.sending c db, true)
    else (db, false)

unfoldable pub cancel : Campaign → Db → Db × Bool
cancel c db =
    if is_campaign c.status CampaignStatus.completed
      || is_campaign c.status CampaignStatus.cancelled
    then (db, false)
    else (set_status CampaignStatus.cancelled c db, true)

unfoldable pub duplicate_found : Option Campaign → Db → Db × Option ℕ
duplicate_found none db = (db, none)
duplicate_found (some src) db = (
  add_campaign
      (record (bare_campaign db.next_campaign_id CampaignStatus.draft) {
        name = codes "Copy of " ++ src.name;
        subject = src.subject;
        from_name = src.from_name;
        from_email = src.from_email;
        template_id = src.template_id;
        list_id = src.list_id;
        ip_pool = src.ip_pool;
      })
      db,
  some db.next_campaign_id,
)

unfoldable pub duplicate_campaign : ℕ → Db → Db × Option ℕ
duplicate_campaign campaign_id db = duplicate_found (get_campaign db campaign_id) db
