-- ===== src/Campaigns/Laws.antt =====
-- What a scheduled campaign has passed, and what a pause does to the schedule.
use emailmarketing.Counters.{update_campaign_row}
use emailmarketing.Merge.{has_unsubscribe}
use emailmarketing.Normalize.{domain_of, Validator}
use emailmarketing.Models.{Db, Campaign, Template, get_template, CampaignStatus, get_campaign}
use emailmarketing.Campaigns.{
  SendError, from_errors, body_errors, error_if, empty_from, foreign_domain, no_unsubscribe, pause,
  schedule, validate_for_send, resume, set_scheduled, template_errors, no_list, no_template,
  empty_subject, schedule_checked, reply_errors, set_status,
}
use emailmarketing.Text.{Text, mem, is_empty, strip}
use emailmarketing.Base.{
  ℕ, ◌==◌, ◌≡◌, refl, Bool, true, false, not, Option, none, some, List, [], ◌∷◌, arith, inl, inr,
  Bool-cases, ◌++◌, is_some, find-update_where, ◌∙◌, ap, ◌⊎◌, map_option, ◌≢◌, sym, subst,
}

-- What the validation has established when it finds no error.
pub record Sendable (allowed : List Text) (c : Campaign) (db : Db) : Type 0 where
  pub list : ℕ
  pub template_id : ℕ
  pub template : Template
  pub has_list : c.list_id ≡ some list
  pub has_template : c.template_id ≡ some template_id
  pub found : get_template db template_id ≡ some template
  pub has_link : has_unsubscribe template.body ≡ true
  pub has_subject : is_empty (strip c.subject) ≡ false
  pub from_allowed : mem (domain_of c.from_email) allowed ≡ true

append-empty : {A : Type 0} (xs ys : List A) → xs ++ ys ≡ [] → (xs ≡ []) × (ys ≡ [])
append-empty [] ys h = (refl, h)
append-empty (x ∷ xs) ys h = cc

passed : (b : Bool) (e : SendError) → error_if b e ≡ [] → b ≡ false
passed true e h = cc
passed false e h = refl

negated : (b : Bool) → not b ≡ false → b ≡ true
negated true h = refl
negated false h = cc

option_there :
    (o : Option ℕ) (e : SendError) → error_if (not (is_some o)) e ≡ [] → (n : ℕ) × (o ≡ some n)
option_there none e h = cc
option_there (some n) e h = (n, refl)

from_passed :
    (allowed : List Text) (from_email : Text)
    → from_errors allowed from_email ≡ []
    → mem (domain_of from_email) allowed ≡ true
unfolding from_errors
from_passed allowed from_email h = elim (Bool-cases (is_empty from_email)) [
  | inl e ↦ absurd (one (rw e at h))
  | inr e ↦ negated (mem (domain_of from_email) allowed) (passed _ foreign_domain (rw e at h))
]
  where
    one : empty_from ∷ [] ≡ [] → ⊥
    one h = cc

template_passed :
    (id : ℕ) (db : Db)
    → body_errors (get_template db id) ≡ []
    → (t : Template) × (get_template db id ≡ some t) × (has_unsubscribe t.body ≡ true)
template_passed id db h = by_row (get_template db id) refl h
  where
    by_row :
        (o : Option Template)
        → get_template db id ≡ o
        → body_errors o ≡ []
        → (t : Template) × (get_template db id ≡ some t) × (has_unsubscribe t.body ≡ true)
    by_row none e h = unfold body_errors in cc
    by_row (some t) e h =
        (t, e, unfold body_errors in negated (has_unsubscribe t.body) (passed _ no_unsubscribe h))

module _ (validator : Validator) (allowed : List Text) where
  validated :
      (c : Campaign) (db : Db)
      → validate_for_send validator allowed c db ≡ []
      → Sendable allowed c db
  unfolding validate_for_send
  validated c db h =
      let (l, h1) = append-empty (error_if (not (is_some c.list_id)) no_list) _ h in
      let (t, h2) = append-empty (error_if (not (is_some c.template_id)) no_template) _ h1 in
      let (s, h3) = append-empty (error_if (is_empty (strip c.subject)) empty_subject) _ h2 in
      let (f, h4) = append-empty (from_errors allowed c.from_email) _ h3 in
      let (r, h5) = append-empty (reply_errors validator c.reply_to) _ h4 in
      let (list, has_list) = option_there c.list_id no_list l in
      let (id, has_template) = option_there c.template_id no_template t in
      let (template, found, link) = template_passed id db (by_id id has_template h5) in
      record {
        list = list;
        template_id = id;
        template = template;
        has_list = has_list;
        has_template = has_template;
        found = found;
        has_link = link;
        has_subject = passed _ empty_subject s;
        from_allowed = from_passed allowed c.from_email f;
      }
    where
      by_id :
          (id : ℕ)
          → c.template_id ≡ some id
          → template_errors c.template_id db ≡ []
          → body_errors (get_template db id) ≡ []
      by_id id e h = unfold template_errors in rw e at h

  -- A campaign is scheduled only if it has a list, a subject, a sender on an allowed domain, and a
  -- template that is there and has the unsubscribe link; with any error the database stays as it is.
  pub schedule-Sendable :
      (at_time : ℕ) (c : Campaign) (db : Db)
      → let (db', errors) = schedule validator allowed at_time c db in
        ((errors ≡ []) × Sendable allowed c db × (db' ≡ set_scheduled at_time c db))
        ⊎ ((errors ≢ []) × (db' ≡ db))
  unfolding schedule
  schedule-Sendable at_time c db = by_errors (validate_for_send validator allowed c db) refl
    where
      by_errors :
          (errors : List SendError)
          → validate_for_send validator allowed c db ≡ errors
          → ((errors ≡ [])
              × Sendable allowed c db
              × (schedule_checked errors at_time c db ≡ set_scheduled at_time c db))
            ⊎ ((errors ≢ []) × (schedule_checked errors at_time c db ≡ db))
      by_errors [] e = inl (refl, validated c db e, unfold schedule_checked in refl)
      by_errors (x ∷ xs) e = inr ((λ h. cc), unfold schedule_checked in refl)

abbrev set_row : CampaignStatus → Campaign → Campaign
set_row status c = record c { status = status }

get-set_status :
    (status : CampaignStatus) (id : ℕ) (c : Campaign) (db : Db)
    → get_campaign db id ≡ some c
    → get_campaign (update_campaign_row id (set_row status) db) id ≡ some (set_row status c)
unfolding update_campaign_row
get-set_status status id c db h =
    find-update_where (λ (x : Campaign). x.id == id) (set_row status) db.campaigns (λ x. refl)
    ∙ ap (map_option (set_row status)) h

paused :
    (c : Campaign) (db : Db)
    → (pause c db).1 ≡ true
    → (pause c db).0 ≡ set_status CampaignStatus.paused c db
unfolding pause
paused c db h = ground arith

-- A finding, as a theorem. To pause a campaign and to resume it leaves its row sending, with all
-- else as it was, also where it was still scheduled for a later time: that time is not waited for.
pub resume-pause :
    (c paused_row : Campaign) (db : Db)
    → get_campaign db c.id ≡ some c
    → (pause c db).1 ≡ true
    → get_campaign (pause c db).0 c.id ≡ some paused_row
    → let (db', resumed) = resume paused_row (pause c db).0 in
      (resumed ≡ true)
      × (get_campaign db' c.id ≡ some (record c { status = CampaignStatus.sending }))
resume-pause c paused_row db found done loaded =
    let db' = set_status CampaignStatus.paused c db in
    let same : (pause c db).0 ≡ db' = paused c db done in
    let here = get-set_status CampaignStatus.paused c.id c db found in
    let row : set_row CampaignStatus.paused c ≡ paused_row =
      unwrap (sym here ∙ sym (ap (λ d. get_campaign d c.id) same) ∙ loaded) in
    subst
      (λ r.
        ((resume r (pause c db).0).1 ≡ true)
        × (get_campaign (resume r (pause c db).0).0 c.id ≡ some (set_row CampaignStatus.sending c)))
      row
      (rw same (
        unfold resume in
        (
          refl,
          get-set_status CampaignStatus.sending c.id (set_row CampaignStatus.paused c) db' here,
        )))
  where
    unwrap : {a b : Campaign} → some a ≡ some b → a ≡ b
    unwrap e = cc
