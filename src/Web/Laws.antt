-- ===== src/Web/Laws.antt =====
-- An answer that reports a failure has changed nothing.
use emailmarketing.Text.{Text}
use emailmarketing.Models.{Db, Campaign, get_campaign}
use emailmarketing.Normalize.{Validator}
use emailmarketing.Campaigns.{
  cancel, pause, resume, schedule, SendError, schedule_checked, validate_for_send,
}
use emailmarketing.Web.{
  change_found, schedule_campaign, schedule_found, Answer, pause_campaign, schedule_at,
  resume_campaign, cancel_campaign, is_ok, when_of,
}
use emailmarketing.Base.{ℕ, ◌≡◌, refl, Bool, false, Option, none, some, List, [], ◌∷◌, arith}

failed_change :
    (change : Campaign → Db → Db × Bool)
    → ((c : Campaign) (db : Db) → (change c db).1 ≡ false → (change c db).0 ≡ db)
    → (id : ℕ) (o : Option Campaign) (db : Db) → (change_found change id o db).1.success ≡ false
    → (change_found change id o db).0 ≡ db
unfolding change_found
failed_change change quiet id none db h = refl
failed_change change quiet id (some c) db h = quiet c db h

failed_pause : (c : Campaign) (db : Db) → (pause c db).1 ≡ false → (pause c db).0 ≡ db
unfolding pause
failed_pause c db h = ground (arith, h)

failed_resume : (c : Campaign) (db : Db) → (resume c db).1 ≡ false → (resume c db).0 ≡ db
unfolding resume
failed_resume c db h = ground (arith, h)

failed_cancel : (c : Campaign) (db : Db) → (cancel c db).1 ≡ false → (cancel c db).0 ≡ db
unfolding cancel
failed_cancel c db h = ground (arith, h)

failed_schedule :
    (validator : Validator) (allowed : List Text) (o : Option Campaign) (t : Option ℕ) (db : Db)
    → (schedule_found validator allowed o t db).1.success ≡ false
    → (schedule_found validator allowed o t db).0 ≡ db
unfolding schedule_found schedule_at schedule
failed_schedule validator allowed none t db h = refl
failed_schedule validator allowed (some c) none db h = refl
failed_schedule validator allowed (some c) (some t) db h =
    by_errors (validate_for_send validator allowed c db) h
  where
    by_errors : (es : List SendError) → is_ok es ≡ false → schedule_checked es t c db ≡ db
    by_errors [] e = unfold is_ok in cc
    by_errors (x ∷ es) e = unfold schedule_checked in refl

-- the handlers that change the status of a campaign
pub data StatusChange : Type 0 where
  scheduling : Validator → List Text → (Text → Option ℕ) → ℕ → Text → Bool → StatusChange
  pausing resuming cancelling : StatusChange

unfoldable pub request : StatusChange → ℕ → Db → Db × Answer
request (scheduling v ds parse now t send_now) id db =
    schedule_campaign v ds parse now id t send_now db
request pausing id db = pause_campaign id db
request resuming id db = let (db', answer, queue) = resume_campaign id db in (db', answer)
request cancelling id db = cancel_campaign id db

-- Where the page that schedules, pauses, resumes or cancels a campaign answers with a failure, for a
-- campaign that is not there, a time that is missing, a validation error or a status that does not
-- allow the change, the database is as it was.
pub request_failed :
    (change : StatusChange) (id : ℕ) (db : Db)
    → (request change id db).1.success ≡ false
    → (request change id db).0 ≡ db
unfolding request schedule_campaign pause_campaign resume_campaign cancel_campaign
request_failed (scheduling v ds parse now t send_now) id db h =
    failed_schedule v ds (get_campaign db id) (when_of parse now send_now t) db h
request_failed pausing id db h = failed_change pause failed_pause id (get_campaign db id) db h
request_failed resuming id db h = failed_change resume failed_resume id (get_campaign db id) db h
request_failed cancelling id db h = failed_change cancel failed_cancel id (get_campaign db id) db h
