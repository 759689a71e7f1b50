-- ===== src/System/Edits.antt =====
-- Edits leave the ledger and the suppression list alone.
use emailmarketing.System.Frame.Planner.{
  add_placement-Frame, move_placement-Frame, create_recurring-Frame, update_recurring-Frame,
  dispatch-Frame, warm-Frame, restart-Frame,
}
use emailmarketing.System.Frame.Campaigns.{
  add_contact-Frame, update-Frame, schedule_campaign-Frame, change-Frame, pause-Frame, resume-Frame,
  cancel-Frame, duplicate-Frame, template-Frame, delete_template-Frame, tend_all-Frame,
}
use emailmarketing.Sending.SendOne.Message.{non_empty}
use emailmarketing.Web.Planner.{set_warming_ip, delete_warming_ip}
use emailmarketing.Verify.Task.{set_list_status}
use emailmarketing.PlannerConfig.{set_planner_config}
use emailmarketing.Import.{import_into_list}
use emailmarketing.Text.{strip}
use emailmarketing.Models.{Db, get_campaign, get_template}
use emailmarketing.System.{
  run_edit, Edit, adding_contact, creating_list, importing, creating_campaign, updating_campaign,
  scheduling,
}
use emailmarketing.Planner.Engine.{dispatch_planner, position_for_date}
use emailmarketing.Planner.Recurring.{update_recurring, update_recurring}
use emailmarketing.Planner.{delete_placement, remove_placement}
use emailmarketing.Scheduler.{dispatch_due_campaigns, finalize_and_repump}
use emailmarketing.Templates.{create_template, update_template, delete_template}
use emailmarketing.Web.{
  create_handler, update_handler, schedule_campaign, pause_campaign, resume_campaign,
  cancel_campaign, duplicate_handler,
}
use emailmarketing.Campaigns.{
  cancel, pause, resume, create_campaign, update_campaign, duplicate_campaign,
}
use emailmarketing.Lists.{create_list}
use emailmarketing.Base.{some}
use emailmarketing.System.{
  Edit, adding_contact, creating_list, importing, creating_campaign, updating_campaign, scheduling,
  pausing, resuming, cancelling, duplicating, creating_template, updating_template,
  deleting_template, dispatching, finalizing, placing, unplacing, moving, creating_recurring,
  updating_recurring, dispatching_planner, setting_planner, warming_ip, unwarming_ip,
  starting_verification, finishing_verification, failing_verification,
}
use emailmarketing.System.Frame.{Frame, frame_then, same, import_file-Frame, finish_import-Frame}

-- Every edit keeps the ledger and the suppression list as they are.
pub run_edit-Frame : (o : Edit) (db : Db) → Frame db (run_edit o db)
unfolding run_edit
run_edit-Frame (adding_contact v l e f n) db = add_contact-Frame v l e f n db
run_edit-Frame (creating_list n) db = unfold create_list in same
run_edit-Frame (importing v ra on ps l rows over free) db =
    unfold import_into_list in finish_import-Frame l db _ (import_file-Frame v ra _ l over rows db)
run_edit-Frame (creating_campaign d fs) db = unfold create_handler create_campaign in same
run_edit-Frame (updating_campaign id fs) db =
    unfold update_handler update_campaign in update-Frame _ (get_campaign db id) db
run_edit-Frame (scheduling v ds parse now id at_text send_now) db =
    unfold schedule_campaign in schedule_campaign-Frame v ds (get_campaign db id) _ db
run_edit-Frame (pausing id) db =
    unfold pause_campaign in change-Frame pause pause-Frame id (get_campaign db id) db
run_edit-Frame (resuming id) db =
    unfold resume_campaign in change-Frame resume resume-Frame id (get_campaign db id) db
run_edit-Frame (cancelling id) db =
    unfold cancel_campaign in change-Frame cancel cancel-Frame id (get_campaign db id) db
run_edit-Frame (duplicating id) db =
    unfold duplicate_handler duplicate_campaign in duplicate-Frame (get_campaign db id) db
run_edit-Frame (creating_template n t s b) db = unfold create_template in same
run_edit-Frame (updating_template id fs) db =
    unfold update_template in template-Frame fs (get_template db id) db
run_edit-Frame (deleting_template id) db =
    unfold delete_template in delete_template-Frame (get_template db id) db
run_edit-Frame (dispatching now) db = unfold dispatch_due_campaigns in same
run_edit-Frame (finalizing now last keys) db =
    unfold finalize_and_repump in tend_all-Frame now last _ _
run_edit-Frame (placing c w d) db = add_placement-Frame c w d db
run_edit-Frame (unplacing id) db = unfold remove_placement delete_placement in same
run_edit-Frame (moving id w d) db = move_placement-Frame id w d db
run_edit-Frame (creating_recurring ls fs) db = create_recurring-Frame ls fs db
run_edit-Frame (updating_recurring id ls fs) db =
    unfold update_recurring in update_recurring-Frame id ls fs (get_campaign db id) db
run_edit-Frame (dispatching_planner z iso d) db =
    unfold dispatch_planner in dispatch-Frame z iso d (position_for_date d) db
run_edit-Frame (setting_planner s) db = unfold set_planner_config in same
run_edit-Frame (warming_ip now ip pool since) db =
    unfold set_warming_ip in
    frame_then (warm-Frame now (strip ip) (non_empty (some (strip pool))) since db)
      (restart-Frame (strip ip) since _)
run_edit-Frame (unwarming_ip ip) db = unfold delete_warming_ip in same
run_edit-Frame (starting_verification id) db = unfold set_list_status in same
run_edit-Frame (finishing_verification id) db = unfold set_list_status in same
run_edit-Frame (failing_verification id) db = unfold set_list_status in same
