-- ===== src/Web.antt =====
-- app/web/campaigns.py: the handlers that change a campaign, up to their commit and what they enqueue.
-- `datetime.fromisoformat` with the zone of the settings is a parameter of the form's time.
pub mod Laws
pub mod Planner
pub mod Lists
use emailmarketing.Sending.SendOne.Message.{non_empty}
use emailmarketing.Sending.SendOne.Validate.{pool_or}
use emailmarketing.Campaigns.Presend.{delete_campaign}
use emailmarketing.Models.{Campaign, Db, get_campaign}
use emailmarketing.Normalize.{Validator}
use emailmarketing.Campaigns.{
  CampaignFields, Defaults, SendError, cancel, create_campaign, duplicate_campaign, pause, resume,
  schedule, update_campaign,
}
use emailmarketing.Text.{Text, is_empty}
use emailmarketing.Base.{
  ℕ, zero, suc, ◌==◌, ◌+◌, ◌-◌, ◌≤◌, ◌<◌, ◌≡◌, refl, Bool, true, false, ◌&&◌, ◌||◌, not, Option,
  none, some, List, [], ◌∷◌, arith, inl, inr, if◌then◌else◌, Bool-cases, Option-cases, ◌++◌, ◌*◌,
  ◌/◌,
}

pub data Page : Type 0 where
  campaigns_page : Page
  campaign_page : ℕ → Page

-- what a handler answers: the page it redirects to, and whether its flash message is a success
pub record Answer : Type 0 where
  pub page : Page
  pub success : Bool

abbrev pub on_campaign : ℕ → Bool → Answer
on_campaign id success = record { page = campaign_page id; success = success }

abbrev pub to_index : Bool → Answer
to_index success = record { page = campaigns_page; success = success }

-- the time of the form: now, or the parsed text, where the empty text is no time
unfoldable pub when_of : (Text → Option ℕ) → ℕ → Bool → Text → Option ℕ
when_of parse_local now send_now scheduled_at =
    if send_now then some now else if is_empty scheduled_at then none else parse_local scheduled_at

unfoldable pub is_ok : List SendError → Bool
is_ok [] = true
is_ok (e ∷ es) = false

unfoldable pub schedule_at : Validator → List Text → Campaign → Option ℕ → Db → Db × Answer
schedule_at validator allowed c none db = (db, on_campaign c.id false)
schedule_at validator allowed c (some at_time) db =
    let (db', errors) = schedule validator allowed at_time c db in
    (db', on_campaign c.id (is_ok errors))

unfoldable pub schedule_found :
    Validator → List Text → Option Campaign → Option ℕ → Db → Db × Answer
schedule_found validator allowed none at_time db = (db, to_index false)
schedule_found validator allowed (some c) at_time db = schedule_at validator allowed c at_time db

unfoldable pub schedule_campaign :
    Validator → List Text → (Text → Option ℕ) → ℕ → ℕ → Text → Bool → Db → Db × Answer
schedule_campaign validator allowed parse_local now campaign_id scheduled_at send_now db =
    schedule_found validator allowed (get_campaign db campaign_id)
      (when_of parse_local now send_now scheduled_at) db

unfoldable pub change_found : (Campaign → Db → Db × Bool) → ℕ → Option Campaign → Db → Db × Answer
change_found change campaign_id none db = (db, on_campaign campaign_id false)
change_found change campaign_id (some c) db =
    let (db', done) = change c db in (db', on_campaign campaign_id done)

unfoldable pub pause_campaign : ℕ → Db → Db × Answer
pause_campaign campaign_id db = change_found pause campaign_id (get_campaign db campaign_id) db

unfoldable pub cancel_campaign : ℕ → Db → Db × Answer
cancel_campaign campaign_id db = change_found cancel campaign_id (get_campaign db campaign_id) db

-- The third part is what `materialize_campaign` is enqueued for, after the commit.
unfoldable pub resume_campaign : ℕ → Db → Db × Answer × List ℕ
resume_campaign campaign_id db =
    let (db', answer) = change_found resume campaign_id (get_campaign db campaign_id) db in
    (db', answer, (if answer.success then campaign_id ∷ [] else []))

unfoldable pub duplicate_page : Option ℕ → Answer
duplicate_page none = to_index false
duplicate_page (some id) = on_campaign id true

unfoldable pub duplicate_handler : ℕ → Db → Db × Answer
duplicate_handler campaign_id db =
    let (db', dup) = duplicate_campaign campaign_id db in (db', duplicate_page dup)

unfoldable pub delete_handler : ℕ → Db → Db × Answer
delete_handler campaign_id db =
    let (db', ok) = delete_campaign campaign_id db in
    (db', (if ok then to_index true else on_campaign campaign_id false))

-- the form's texts, where the empty name and address give those of the settings
unfoldable pub create_handler : Defaults → CampaignFields → Db → Db × Answer
create_handler d fields db =
    let (db', id) =
      create_campaign d
        (record fields {
          from_name = some (pool_or fields.from_name d.default_from_name);
          from_email = some (pool_or fields.from_email d.default_from_email);
          ip_pool = non_empty fields.ip_pool;
        })
        db in
    (db', on_campaign id true)

unfoldable pub update_handler : ℕ → CampaignFields → Db → Db × Answer
update_handler campaign_id fields db =
    let (db', updated) =
      update_campaign (record fields { ip_pool = non_empty fields.ip_pool }) campaign_id db in
    (db', on_campaign campaign_id updated)
