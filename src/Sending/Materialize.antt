-- ===== src/Sending/Materialize.antt =====
-- `materialize_campaign`. The outer join on `suppressions` gives one row for each contact, since
-- both addresses are unique columns; the rows come in the order of the table. The counts that
-- follow are taken after the rows are flushed.
pub mod Loop
pub mod Unique
pub mod Rerun
pub mod Exclusion
pub mod Counters
pub mod Created
use emailmarketing.Sending.Materialize.Loop.{run_loop, exclusion, start}
use emailmarketing.Base.{
  ℕ, zero, suc, ◌==◌, ◌+◌, ◌-◌, ◌≤◌, ◌<◌, ◌≡◌, refl, Bool, true, false, ◌&&◌, ◌||◌, not, Option,
  none, some, List, [], ◌∷◌, arith, inl, inr, if◌then◌else◌, Bool-cases, Option-cases, ◌++◌, ◌*◌,
  ◌/◌, count_where, where_,
}
use emailmarketing.Models.{
  Db, Contact, Campaign, CampaignRecipient, CampaignStatus, RecipientStatus, get_campaign,
  is_recipient, is_campaign, is_active, MergeSnapshot,
}
use emailmarketing.Counters.{update_campaign_row}
use emailmarketing.CampaignLists.{campaign_list_ids, contains_id}
use emailmarketing.PlannerConfig.{get_planner_config}
use emailmarketing.Sending.Ledger.{pending_count, pending_ids, is_row_of}

pub data Report : Type 0 where
  not_found : Report
  not_sending : CampaignStatus → Report
  no_list : Report
  materialized : ℕ → ℕ → ℕ → Report

unfoldable pub is_in_lists : List ℕ → Option ℕ → Bool
is_in_lists ids none = false
is_in_lists ids (some l) = contains_id l ids

-- `Contact.list_id.in_(list_ids), Contact.status == ACTIVE`
abbrev pub is_target : List ℕ → Contact → Bool
is_target ids c = is_in_lists ids c.list_id && is_active c.status

-- the counters, recomputed from the whole ledger
unfoldable pub recount : ℕ → Db → Db
unfolding update_campaign_row
recount campaign_id db =
    let total = count_where (is_row_of campaign_id) db.recipients in
    let pending = pending_count db campaign_id in
    update_campaign_row campaign_id
      (λ (c : Campaign). record c {
        total_recipients = total;
        skipped_count = total - pending;
        queued_count = pending;
      })
      db

unfoldable pub add_rows : ℕ → Campaign → List ℕ → Db → Db × Report
unfolding is_in_lists
add_rows now campaign ids db =
    let l =
      run_loop db campaign (exclusion now db campaign) (where_ (is_target ids) db.contacts)
        (start db campaign.id) in
    (
      recount campaign.id (record db { recipients = l.recipients; next_recipient_id = l.next_id }),
      materialized l.created l.skipped l.freq_skipped,
    )

-- The third part is what is enqueued after the commit.
unfoldable pub materialize_lists : ℕ → Campaign → List ℕ → Db → Db × Report × List ℕ
unfolding update_campaign_row
materialize_lists now campaign [] db = (
  update_campaign_row campaign.id (λ (c : Campaign). record c { status = CampaignStatus.failed })
      db,
  no_list,
  [],
)
materialize_lists now campaign (i ∷ ids) db =
    let (db', report) = add_rows now campaign (i ∷ ids) db in
    (db', report, pending_ids campaign.id db')

unfoldable pub materialize_found : ℕ → Option Campaign → Db → Db × Report × List ℕ
materialize_found now none db = (db, not_found, [])
materialize_found now (some campaign) db =
    if is_campaign campaign.status CampaignStatus.sending
    then materialize_lists now campaign (campaign_list_ids campaign.id db) db
    else (db, not_sending campaign.status, [])

unfoldable pub materialize_campaign : ℕ → ℕ → Db → Db × Report × List ℕ
materialize_campaign now campaign_id db = materialize_found now (get_campaign db campaign_id) db
