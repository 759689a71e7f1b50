-- ===== src/System/Frame/Campaigns.antt =====
-- Campaigns, lists and templates: their edits keep the frame.
use emailmarketing.Import.{finalize_import, accepted}
use emailmarketing.Cascades.{uses_template}
use emailmarketing.Text.{Text}
use emailmarketing.Counters.{update_campaign_row}
use emailmarketing.Models.{Campaign, Db, Template}
use emailmarketing.Normalize.{Validator, validate_syntax}
use emailmarketing.System.{committed}
use emailmarketing.Scheduler.{tend, tend_all, Pump, finalize, repump}
use emailmarketing.Templates.{delete_template_found, update_template_found, TemplateFields}
use emailmarketing.Web.{change_found, schedule_found, schedule_at}
use emailmarketing.Campaigns.{
  cancel, duplicate_found, pause, resume, schedule, update_found, CampaignFields, SendError,
  schedule_checked, validate_for_send,
}
use emailmarketing.Lists.{add_contact, add_checked, insert_new}
use emailmarketing.Base.{ℕ, Bool, Option, none, some, List, [], ◌∷◌, arith, inl, inr, Bool-cases}
use emailmarketing.System.Frame.{Frame, frame_then, same}

pub add_contact-Frame :
    (v : Validator) (l : ℕ) (e : Text) (f n : Option Text) (db : Db)
    → Frame db (add_contact v l e f n db).0
unfolding add_contact
add_contact-Frame v l e f n db = checked (accepted (validate_syntax v (some e)))
  where
    checked : (o : Option Text) → Frame db (add_checked l o f n db).0
    checked none = unfold add_checked in same
    checked (some norm) =
        unfold add_checked insert_new finalize_import in (ground arith, ground arith, ground arith)

schedule-Frame :
    (v : Validator) (ds : List Text) (t : ℕ) (c : Campaign) (db : Db)
    → Frame db (schedule v ds t c db).0
unfolding schedule
schedule-Frame v ds t c db = by_errors (validate_for_send v ds c db)
  where
    by_errors : (es : List SendError) → Frame db (schedule_checked es t c db)
    by_errors [] = unfold schedule_checked update_campaign_row in same
    by_errors (e ∷ es) = unfold schedule_checked in same

pub schedule_campaign-Frame :
    (v : Validator) (ds : List Text) (o : Option Campaign) (t : Option ℕ) (db : Db)
    → Frame db (schedule_found v ds o t db).0
unfolding schedule_found schedule_at
schedule_campaign-Frame v ds none t db = same
schedule_campaign-Frame v ds (some c) none db = same
schedule_campaign-Frame v ds (some c) (some t) db = schedule-Frame v ds t c db

pub change-Frame :
    (f : Campaign → Db → Db × Bool)
    → ((c : Campaign) (db : Db) → Frame db (f c db).0)
    → (id : ℕ) (o : Option Campaign) (db : Db) → Frame db (change_found f id o db).0
unfolding change_found
change-Frame f keep_ id none db = same
change-Frame f keep_ id (some c) db = keep_ c db

pub pause-Frame : (c : Campaign) (db : Db) → Frame db (pause c db).0
unfolding pause update_campaign_row
pause-Frame c db = (ground arith, ground arith, ground arith)

pub resume-Frame : (c : Campaign) (db : Db) → Frame db (resume c db).0
unfolding resume update_campaign_row
resume-Frame c db = (ground arith, ground arith, ground arith)

pub cancel-Frame : (c : Campaign) (db : Db) → Frame db (cancel c db).0
unfolding cancel update_campaign_row
cancel-Frame c db = (ground arith, ground arith, ground arith)

pub update-Frame :
    (fs : CampaignFields) (o : Option Campaign) (db : Db) → Frame db (update_found fs o db).0
unfolding update_found update_campaign_row
update-Frame fs none db = same
update-Frame fs (some c) db = (ground arith, ground arith, ground arith)

pub duplicate-Frame : (o : Option Campaign) (db : Db) → Frame db (duplicate_found o db).0
unfolding duplicate_found
duplicate-Frame none db = same
duplicate-Frame (some c) db = same

pub template-Frame :
    (fs : TemplateFields) (o : Option Template) (db : Db)
    → Frame db (update_template_found fs o db).0
unfolding update_template_found
template-Frame fs none db = same
template-Frame fs (some t) db = same

pub delete_template-Frame :
    (o : Option Template) (db : Db) → Frame db (committed (delete_template_found o db) db)
unfolding delete_template_found committed
delete_template-Frame none db = same
delete_template-Frame (some t) db = elim (Bool-cases (uses_template t.id db)) [
  | inl used ↦ rw used same
  | inr free ↦ rw free same
]

tend-Frame : (now : ℕ) (last : ℕ → Option ℕ) (c : ℕ) (p : Pump) → Frame p.db (tend now last c p).db
unfolding tend finalize repump update_campaign_row
tend-Frame now last c p = (ground arith, ground arith, ground arith)

pub tend_all-Frame :
    (now : ℕ) (last : ℕ → Option ℕ) (cs : List ℕ) (p : Pump)
    → Frame p.db (tend_all now last cs p).db
unfolding tend_all
tend_all-Frame now last [] p = same
tend_all-Frame now last (c ∷ cs) p =
    frame_then (tend-Frame now last c p) (tend_all-Frame now last cs (tend now last c p))
