-- ===== src/Campaigns/Presend/Laws.antt =====
-- The summary before a send against what the send creates.
use emailmarketing.Campaigns.Presend.{presend_counts}
use emailmarketing.Suppression.{has_suppression}
use emailmarketing.Sending.Materialize.Created.{KeyedContacts, created_of, is_wanted, created_first}
use emailmarketing.Text.{Text}
use emailmarketing.Normalize.{Validator}
use emailmarketing.Sending.Materialize.{add_rows, is_target}
use emailmarketing.Models.{Db, Campaign, Contact}
use emailmarketing.Campaigns.Presend.{presend_summary, is_active_of, presend_counts}
use emailmarketing.Sending.Materialize.Loop.{exclusion, contact_ids}
use emailmarketing.Base.{
  ℕ, ◌≡◌, refl, false, ◌&&◌, not, none, some, List, [], ◌∷◌, arith, count_where, count-split, ◌∙◌,
  count-same,
}

no_exclusion :
    (now : ℕ) (db : Db) (campaign : Campaign) (k : ℕ)
    → campaign.parent_campaign_id ≡ none
    → exclusion now db campaign k ≡ false
unfolding exclusion
no_exclusion now db campaign k h = rw h refl

-- The number of recipients that the summary announces, the active contacts less the suppressed
-- ones, is the number of pending recipients that materialization creates, if the campaign is no run
-- of the planner, sends to the one list of its row, has no recipients yet, and the keys of the
-- contacts are distinct.
pub presend_summary-created :
    (validator : Validator) (allowed : List Text) (rate now : ℕ) (campaign : Campaign) (list_id : ℕ)
    (db : Db)
    → KeyedContacts db
    → contact_ids campaign.id db.recipients ≡ []
    → campaign.parent_campaign_id ≡ none
    → campaign.list_id ≡ some list_id
    → created_of (add_rows now campaign (list_id ∷ []) db).1
      ≡ (presend_summary validator allowed rate campaign db).recipients
unfolding presend_summary add_rows
presend_summary-created validator allowed rate now campaign list_id db keyed first plain on_list =
    created_first db campaign (exclusion now db campaign) (is_target (list_id ∷ [])) keyed first
    ∙ (count-same
          (λ c. is_target (list_id ∷ []) c && is_wanted db campaign (exclusion now db campaign) c)
          (λ c. is_active_of list_id c && not (has_suppression db c.email)) db.contacts by_contact
        ∙ difference)
  where
    by_contact :
        (c : Contact)
        → (is_target (list_id ∷ []) c && is_wanted db campaign (exclusion now db campaign) c)
          ≡ (is_active_of list_id c && not (has_suppression db c.email))
    by_contact c = rw (no_exclusion now db campaign c.id plain) (ground arith)

    difference :
        count_where
          (λ (c : Contact). is_active_of list_id c && not (has_suppression db c.email))
          db.contacts
        ≡ (presend_counts campaign.list_id db).0
    difference =
        unfold presend_counts in
        rw on_list (
          omega (
            arith,
            count-split (is_active_of list_id) (λ (c : Contact). has_suppression db c.email)
                db.contacts,
          ))
