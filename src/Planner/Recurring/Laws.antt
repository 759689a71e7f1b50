-- ===== src/Planner/Recurring/Laws.antt =====
-- The count of the grid against what a run creates.
use emailmarketing.Sending.Materialize.Created.{is_wanted, created_first}
use emailmarketing.Frequency.{is_ineligible}
use emailmarketing.PlannerConfig.{get_planner_config}
use emailmarketing.Sending.Materialize.Loop.{contact_ids, exclusion}
use emailmarketing.Sending.Materialize.Created.{KeyedContacts, created_of, is_wanted}
use emailmarketing.Models.{Campaign, Db, Contact}
use emailmarketing.Sending.Materialize.{add_rows, is_target}
use emailmarketing.Planner.Recurring.{eligible_count, own_lists, is_eligible}
use emailmarketing.Base.{ℕ, ◌≡◌, refl, ◌&&◌, some, List, [], ◌∷◌, arith, ◌∙◌, count-same, sym}

-- The count that the grid shows for a recurring campaign, a query of its own, is the number of
-- pending recipients that materialization creates for a run of it at the same time and over its own
-- lists, if the run has no recipients yet and the keys of the contacts are distinct.
pub eligible_count-created :
    (now : ℕ) (campaign : Campaign) (recurring l : ℕ) (ls : List ℕ) (db : Db)
    → KeyedContacts db
    → contact_ids campaign.id db.recipients ≡ []
    → campaign.parent_campaign_id ≡ some recurring
    → own_lists recurring db ≡ l ∷ ls
    → created_of (add_rows now campaign (l ∷ ls) db).1
      ≡ eligible_count now recurring (get_planner_config db).frequency_interval_days db
unfolding eligible_count add_rows
eligible_count-created now campaign recurring l ls db keyed first parent lists =
    created_first db campaign (exclusion now db campaign) (is_target (l ∷ ls)) keyed first
    ∙ (count-same (λ c. is_target (l ∷ ls) c && is_wanted db campaign (exclusion now db campaign) c)
          (is_eligible now recurring interval (l ∷ ls) db) db.contacts by_contact
        ∙ sym (rw (lists, eligible_count) refl))
  where
    interval : ℕ
    interval = (get_planner_config db).frequency_interval_days

    excluded : (k : ℕ) → exclusion now db campaign k ≡ is_ineligible now db recurring interval k
    excluded k = unfold exclusion in rw parent refl

    by_contact :
        (c : Contact)
        → (is_target (l ∷ ls) c && is_wanted db campaign (exclusion now db campaign) c)
          ≡ is_eligible now recurring interval (l ∷ ls) db c
    by_contact c = unfold is_eligible in rw (excluded c.id) (ground arith)
