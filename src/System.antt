-- ===== src/System.antt =====
-- The parts together: every transaction that the pages, the endpoints and the tasks commit on the
-- tables of Models, as one type of operations. A transaction runs on the database that the earlier ones have
-- left; a send, which is more than one transaction, is in Steps.
pub mod Frame
pub mod Edits
pub mod Stable
pub mod Blocked
pub mod Sends
pub mod Invariants
pub mod Steps
pub mod Progress
use emailmarketing.Web.Planner.{set_warming_ip, delete_warming_ip}
use emailmarketing.PlannerConfig.{set_planner_config}
use emailmarketing.Planner.{add_placement, remove_placement, move_placement}
use emailmarketing.Scheduler.{dispatch_due_campaigns, finalize_and_repump}
use emailmarketing.Planner.Engine.{Zones, Date, dispatch_planner}
use emailmarketing.Bounce.{process_webhook}
use emailmarketing.Counters.{failed_count, skipped_count}
use emailmarketing.Templates.{TemplateFields, create_template, update_template, delete_template}
use emailmarketing.Sending.SendOne.{persist_found, settle_pending, mark_failed, mark}
use emailmarketing.Planner.Recurring.{
  delete_recurring, RecurringFields, create_recurring, update_recurring,
}
use emailmarketing.Import.{Raises, import_into_list}
use emailmarketing.Verify.Task.{verify_rows, set_list_status}
use emailmarketing.Webhook.{PostalWebhookEvent}
use emailmarketing.Web.{
  delete_handler, create_handler, update_handler, schedule_campaign, pause_campaign,
  resume_campaign, cancel_campaign, duplicate_handler,
}
use emailmarketing.Campaigns.{Defaults, CampaignFields}
use emailmarketing.Sending.Materialize.{materialize_campaign}
use emailmarketing.Verify.{EmailVerification}
use emailmarketing.Lists.{add_contact, delete_list, create_list, remove_and_suppress, suppress_only}
use emailmarketing.Import.Columns.{Mapping}
use emailmarketing.Api.{of_session, unsubscribe}
use emailmarketing.Sending.SendOne.Validate.{Payload, validate}
use emailmarketing.Suppression.{Race, Session, suppress, begin}
use emailmarketing.Normalize.{Validator}
use emailmarketing.Models.{
  Db, SuppressionReason, get_recipient, PlannerSettings, RecipientStatus, ListVerificationStatus,
}
use emailmarketing.Text.{Text}
use emailmarketing.Base.{
  ℕ, zero, suc, ◌==◌, ◌+◌, ◌-◌, ◌≤◌, ◌<◌, ◌≡◌, refl, Bool, true, false, ◌&&◌, ◌||◌, not, Option,
  none, some, List, [], ◌∷◌, arith, inl, inr, if◌then◌else◌, Bool-cases, Option-cases, ◌++◌, ◌*◌,
  ◌/◌,
}

-- another transaction that has committed a suppression while this one was open
pub record Rival : Type 0 where
  pub email : Text
  pub reason : SuppressionReason
  pub update_contact : Bool

unfoldable pub race_of : Option Rival → Db → Race
race_of none db = none
race_of (some r) db =
    some (of_session (suppress none r.email r.reason none r.update_contact (begin db)))

-- changes of campaigns, lists, contacts, templates and settings
pub data Edit : Type 0 where
  adding_contact : Validator → ℕ → Text → Option Text → Option Text → Edit
  creating_list : Text → Edit
  importing :
      Validator
      → Raises
      → Bool
      → List Text
      → ℕ
      → List (List Text)
      → Option Mapping
      → Option Bool
      → Edit
  creating_campaign : Defaults → CampaignFields → Edit
  updating_campaign : ℕ → CampaignFields → Edit
  scheduling : Validator → List Text → (Text → Option ℕ) → ℕ → ℕ → Text → Bool → Edit
  pausing resuming cancelling duplicating : ℕ → Edit
  creating_template : Text → Text → Option Text → Text → Edit
  updating_template : ℕ → TemplateFields → Edit
  deleting_template : ℕ → Edit
  dispatching : ℕ → Edit
  finalizing : ℕ → (ℕ → Option ℕ) → List (ℕ × ℕ) → Edit
  placing : ℕ → ℕ → ℕ → Edit
  unplacing : ℕ → Edit
  moving : ℕ → ℕ → ℕ → Edit
  creating_recurring : List ℕ → RecurringFields → Edit
  updating_recurring : ℕ → Option (List ℕ) → RecurringFields → Edit
  dispatching_planner : Zones → (Date → Text) → Date → Edit
  setting_planner : PlannerSettings → Edit
  warming_ip : ℕ → Text → Text → Option ℕ → Edit
  unwarming_ip : Text → Edit
  starting_verification finishing_verification failing_verification : ℕ → Edit

-- where the deletion raises, nothing is committed
unfoldable pub committed : Option (Db × Bool) → Db → Db
committed none db = db
committed (some (db', done)) db = db'

unfoldable pub run_edit : Edit → Db → Db
run_edit (adding_contact v l e f n) db = (add_contact v l e f n db).0
run_edit (creating_list n) db = (create_list n db).0
run_edit (importing v ra on ps l rows over free) db =
    (import_into_list v ra on ps l rows over free db).0
run_edit (creating_campaign d fs) db = (create_handler d fs db).0
run_edit (updating_campaign id fs) db = (update_handler id fs db).0
run_edit (scheduling v ds parse now id at_text send_now) db =
    (schedule_campaign v ds parse now id at_text send_now db).0
run_edit (pausing id) db = (pause_campaign id db).0
run_edit (resuming id) db = (resume_campaign id db).0
run_edit (cancelling id) db = (cancel_campaign id db).0
run_edit (duplicating id) db = (duplicate_handler id db).0
run_edit (creating_template n t s b) db = (create_template n t s b db).0
run_edit (updating_template id fs) db = (update_template id fs db).0
run_edit (deleting_template id) db = committed (delete_template id db) db
run_edit (dispatching now) db = (dispatch_due_campaigns now db).0
run_edit (finalizing now last keys) db = (finalize_and_repump now last keys db).db
run_edit (placing c w d) db = (add_placement c w d db).0
run_edit (unplacing id) db = (remove_placement id db).0
run_edit (moving id w d) db = (move_placement id w d db).0
run_edit (creating_recurring ls fs) db = (create_recurring ls fs db).0
run_edit (updating_recurring id ls fs) db = (update_recurring id ls fs db).0
run_edit (dispatching_planner z iso d) db = (dispatch_planner z iso d db).0
run_edit (setting_planner s) db = set_planner_config s db
run_edit (warming_ip now ip pool since) db = set_warming_ip now ip pool since db
run_edit (unwarming_ip ip) db = delete_warming_ip ip db
run_edit (starting_verification id) db = set_list_status ListVerificationStatus.verifying id db
run_edit (finishing_verification id) db = set_list_status ListVerificationStatus.ready id db
run_edit (failing_verification id) db = set_list_status ListVerificationStatus.failed id db

pub data Deletion : Type 0 where
  deleting_list deleting_campaign deleting_recurring : ℕ → Deletion

unfoldable pub run_deletion : Deletion → Db → Db
run_deletion (deleting_list id) db = committed (delete_list id db) db
run_deletion (deleting_campaign id) db = (delete_handler id db).0
run_deletion (deleting_recurring id) db = (delete_recurring id db).0

-- what can add to the suppression list; the first is the unsubscribe page
pub data Blocking : Type 0 where
  unsubscribing : (Text → Text) → (Text → Option Text) → Option Rival → Text → Blocking
  removing : Option Rival → Text → Blocking
  suppressing : Option Rival → Text → Option SuppressionReason → Blocking
  hearing : Option Rival → PostalWebhookEvent → Blocking
  -- one batch of the verification of a list
  judging : (ℕ → Option Rival) → List EmailVerification → List (ℕ × Text) → Blocking

unfoldable pub judged : (ℕ → Race) → List EmailVerification → List (ℕ × Text) → Db → Db
judged races results rows db =
    let (s, counts) =
      verify_rows races results rows (begin db, record { valid = 0; invalid = 0; unknown = 0 }) in
    s.current

unfoldable pub run_blocking : Blocking → Db → Db
run_blocking (unsubscribing dumps loads rival token) db =
    (unsubscribe dumps loads (race_of rival db) token db).0
run_blocking (removing rival e) db =
    of_session (remove_and_suppress (race_of rival db) e (begin db))
run_blocking (suppressing rival e r) db =
    of_session (suppress_only (race_of rival db) e r (begin db))
run_blocking (hearing rival event) db = (process_webhook (race_of rival db) event db).0
run_blocking (judging rivals results rows) db = judged (λ i. race_of (rivals i) db) results rows db

-- the transactions of the send tasks: materialization, and the three of one send
pub data Sending : Type 0 where
  materializing checking : ℕ → ℕ → Sending
  persisting : ℕ → Payload → Text → ℕ → Sending
  failing : Text → ℕ → ℕ → Sending
  capping : ℕ → ℕ → Sending

unfoldable pub run_sending : Sending → Db → Db
run_sending (materializing now c) db = (materialize_campaign now c db).0
run_sending (checking now id) db = (validate now id db).0
run_sending (persisting now p token id) db = persist_found now p token (get_recipient db id) db
run_sending (failing detail c id) db = settle_pending (mark_failed detail) failed_count c id db
run_sending (capping c id) db =
    settle_pending (mark RecipientStatus.skipped_cap) skipped_count c id db

pub data Op : Type 0 where
  edit : Edit → Op
  deletion : Deletion → Op
  blocking : Blocking → Op
  sending_op : Sending → Op

unfoldable pub run_op : Op → Db → Db
run_op (edit o) = run_edit o
run_op (deletion o) = run_deletion o
run_op (blocking o) = run_blocking o
run_op (sending_op o) = run_sending o

unfoldable pub run_ops : List Op → Db → Db
run_ops [] db = db
run_ops (o ∷ os) db = run_ops os (run_op o db)
