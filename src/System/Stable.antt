-- ===== src/System/Stable.antt =====
-- Predicates on the database that every transaction of the program keeps, because they are kept by
-- the few ways in which the program changes the ledger and the suppression list.
use emailmarketing.Suppression.{has_suppression}
use emailmarketing.Web.{delete_handler}
use emailmarketing.System.Frame.{Frame, same}
use emailmarketing.Planner.Recurring.{delete_recurring_found, delete_recurring}
use emailmarketing.Campaigns.Presend.{delete_found, delete_campaign}
use emailmarketing.Lists.{delete_list_found, delete_list}
use emailmarketing.Cascades.{
  delete_campaign_row, delete_contacts, delete_list_row, is_of_list, uses_list, refers_to,
  doomed_contacts,
}
use emailmarketing.Counters.{update_recipient_row}
use emailmarketing.Models.{
  CampaignRecipient, Db, is_recipient, Campaign, Contact, ContactList, RecipientStatus,
  get_contact_list, is_campaign, CampaignStatus, get_campaign, Suppression,
}
use emailmarketing.Base.{
  ℕ, ◌==◌, ◌+◌, ◌≡◌, refl, Bool, true, false, not, Option, none, some, [], ◌∷◌, inl, inr,
  Bool-cases, ◌++◌, update_where, where_,
}
use emailmarketing.System.{
  Deletion, deleting_list, deleting_campaign, deleting_recurring, committed, run_deletion,
}

pub record Stable (Q : Db → Type 0) : Type 0 where
  -- whatever else changes
  pub framed : (db db' : Db) → Frame db db' → Q db → Q db'
  -- an update of ledger rows keeps their keys, and makes none pending
  pub changed :
      (q : CampaignRecipient → Bool) (f : CampaignRecipient → CampaignRecipient) (db : Db)
      → ((r : CampaignRecipient) → (f r).id ≡ r.id)
      → ((r : CampaignRecipient)
          → is_recipient (f r).status RecipientStatus.pending ≡ true
          → is_recipient r.status RecipientStatus.pending ≡ true)
      → Q db
      → Q (record db { recipients = update_where q f db.recipients })
  pub removed :
      (q : CampaignRecipient → Bool) (db : Db)
      → Q db
      → Q (record db { recipients = where_ q db.recipients })
  -- an insert into the ledger takes the next key
  pub appended :
      (r : CampaignRecipient) (db : Db)
      → r.id ≡ db.next_recipient_id
      → Q db
      → Q (record db {
        recipients = db.recipients ++ r ∷ [];
        next_recipient_id = db.next_recipient_id + 1;
      })
  -- an insert into the suppression list has a new address
  pub blocked :
      (row : Suppression) (db : Db)
      → has_suppression db row.email ≡ false
      → Q db
      → Q (record db { suppressions = db.suppressions ++ row ∷ [] })

module _ (Q : Db → Type 0) (st : Stable Q) where
  pub Stable-update :
      (i : ℕ) (f : CampaignRecipient → CampaignRecipient) (db : Db)
      → ((r : CampaignRecipient) → (f r).id ≡ r.id)
      → ((r : CampaignRecipient)
          → is_recipient (f r).status RecipientStatus.pending ≡ true
          → is_recipient r.status RecipientStatus.pending ≡ true)
      → Q db
      → Q (update_recipient_row i f db)
  unfolding update_recipient_row
  Stable-update i f db keep_id keep_settled h = st.changed _ f db keep_id keep_settled h

  pub Stable-delete_contacts : (q : Contact → Bool) (db : Db) → Q db → Q (delete_contacts q db)
  unfolding delete_contacts
  Stable-delete_contacts q db h = st.framed _ _ same (
      st.changed (λ (r : CampaignRecipient). refers_to (doomed_contacts q db.contacts) r.contact_id)
        (λ (r : CampaignRecipient). record r { contact_id = none }) db (λ r. refl) (λ r e. e) h)

  Stable-delete_campaign_row : (id : ℕ) (db : Db) → Q db → Q (delete_campaign_row id db)
  unfolding delete_campaign_row
  Stable-delete_campaign_row id db h =
      st.framed _ _ same (st.removed (λ (r : CampaignRecipient). not (r.campaign_id == id)) db h)

  Stable-delete_list_row : (id : ℕ) (db : Db) → Q db → Q (delete_list_row id db)
  unfolding delete_list_row
  Stable-delete_list_row id db h = st.framed _ _ same (Stable-delete_contacts (is_of_list id) db h)

  Stable-delete_list :
      (id : ℕ) (o : Option ContactList) (db : Db)
      → Q db
      → Q (committed (delete_list_found o id db) db)
  unfolding delete_list_found committed
  Stable-delete_list id none db h = h
  Stable-delete_list id (some l) db h = elim (Bool-cases (uses_list id db)) [
    | inl used ↦ rw used h
    | inr free ↦ rw free (Stable-delete_list_row id db h)
  ]

  Stable-delete_campaign : (o : Option Campaign) (db : Db) → Q db → Q (delete_found o db).0
  unfolding delete_found
  Stable-delete_campaign none db h = h
  Stable-delete_campaign (some c) db h =
      elim (Bool-cases (is_campaign c.status CampaignStatus.sending)) [
        | inl busy ↦ rw busy h
        | inr free ↦ rw free (Stable-delete_campaign_row c.id db h)
      ]

  Stable-delete_recurring :
      (o : Option Campaign) (db : Db) → Q db → Q (delete_recurring_found o db).0
  unfolding delete_recurring_found
  Stable-delete_recurring none db h = h
  Stable-delete_recurring (some c) db h = elim (Bool-cases c.is_planner) [
    | inl is ↦ rw is (Stable-delete_campaign_row c.id db h)
    | inr other ↦ rw other h
  ]

  pub Stable-deletion : (o : Deletion) (db : Db) → Q db → Q (run_deletion o db)
  unfolding run_deletion
  Stable-deletion (deleting_list id) db h =
      unfold delete_list in Stable-delete_list id (get_contact_list db id) db h
  Stable-deletion (deleting_campaign id) db h =
      unfold delete_handler delete_campaign in Stable-delete_campaign (get_campaign db id) db h
  Stable-deletion (deleting_recurring id) db h =
      unfold delete_recurring in Stable-delete_recurring (get_campaign db id) db h
