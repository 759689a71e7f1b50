-- ===== src/Sending/Materialize/Unique.antt =====
-- A contact has at most one row in the ledger of a campaign.
use emailmarketing.Suppression.{has_suppression}
use emailmarketing.Base.{
  ℕ, ◌==◌, ◌≡◌, refl, Bool, true, false, ◌&&◌, ◌||◌, Option, none, some, List, [], ◌∷◌, arith, inl,
  inr, Bool-cases, ◌++◌, Distinct, any, Distinct-snoc, ap, where_, ◌∙◌, sym,
}
use emailmarketing.Models.{
  Db, Contact, Campaign, CampaignRecipient, RecipientStatus, is_campaign, CampaignStatus,
  get_campaign,
}
use emailmarketing.CampaignLists.{contains_id, campaign_list_ids}
use emailmarketing.Sending.Materialize.{
  recount, add_rows, materialize_campaign, is_target, materialize_found, materialize_lists,
}
use emailmarketing.Sending.Materialize.Loop.{
  Loop, start, contact_ids, new_row, visit, run_loop, exclusion, status_for,
}

abbrev same_contact : Option ℕ → Option ℕ → Bool
same_contact none _ = false
same_contact _ none = false
same_contact (some k) (some l) = k == l

-- UNIQUE(campaign_id, contact_id), which null contacts do not violate
abbrev pub same_slot : CampaignRecipient → CampaignRecipient → Bool
same_slot a b = a.campaign_id == b.campaign_id && same_contact a.contact_id b.contact_id

abbrev pub UniqueRows : Db → Type 0
UniqueRows db = Distinct same_slot db.recipients

pub any-same_slot :
    (campaign : Campaign) (id : ℕ) (contact : Contact) (status : RecipientStatus)
    (rs : List CampaignRecipient)
    → any (λ (r : CampaignRecipient). same_slot r (new_row campaign id contact status)) rs
      ≡ contains_id contact.id (contact_ids campaign.id rs)
unfolding new_row contains_id contact_ids
any-same_slot campaign id contact status [] = refl
any-same_slot campaign id contact status (r ∷ rs) =
    ground (arith, any-same_slot campaign id contact status rs)

-- the set of the loop holds the contacts of the rows so far
abbrev pub Tracks : Campaign → Loop → Type 0
Tracks campaign l =
    (k : ℕ) → contains_id k l.existing_ids ≡ contains_id k (contact_ids campaign.id l.recipients)

contact_ids-snoc :
    (campaign : Campaign) (id : ℕ) (contact : Contact) (status : RecipientStatus) (k : ℕ)
    (rs : List CampaignRecipient)
    → contains_id k (contact_ids campaign.id (rs ++ new_row campaign id contact status ∷ []))
      ≡ (contact.id == k || contains_id k (contact_ids campaign.id rs))
unfolding contains_id contact_ids new_row
contact_ids-snoc campaign id contact status k [] = ground arith
contact_ids-snoc campaign id contact status k (r ∷ rs) =
    ground (arith, contact_ids-snoc campaign id contact status k rs)

module _ (db : Db) (campaign : Campaign) (excluded : ℕ → Bool) where
  abbrev pub row_of : Contact → Loop → CampaignRecipient
  row_of contact l =
      new_row campaign l.next_id contact
        (status_for (has_suppression db contact.email) (excluded contact.id))

  pub visit_old :
      (contact : Contact) (l : Loop)
      → contains_id contact.id l.existing_ids ≡ true
      → visit db campaign excluded contact l ≡ l
  unfolding visit
  visit_old contact l old = rw old

  pub visit_new :
      (contact : Contact) (l : Loop)
      → contains_id contact.id l.existing_ids ≡ false
      → let l' = visit db campaign excluded contact l in
        (l'.existing_ids ≡ contact.id ∷ l.existing_ids)
        × (l'.recipients ≡ l.recipients ++ row_of contact l ∷ [])
  unfolding visit
  visit_new contact l new = rw new (refl, refl)

  pub visit-Tracks :
      (contact : Contact) (l : Loop)
      → Tracks campaign l
      → Tracks campaign (visit db campaign excluded contact l)
  visit-Tracks contact l h k = elim (Bool-cases (contains_id contact.id l.existing_ids)) [
    | inl old ↦ rw (visit_old contact l old) (h k)
    | inr new ↦
        rw ((visit_new contact l new).0, (visit_new contact l new).1)
          (added (status_for (has_suppression db contact.email) (excluded contact.id)))
  ]
    where
      added :
          (status : RecipientStatus)
          → contains_id k (contact.id ∷ l.existing_ids)
            ≡ contains_id k (
                contact_ids campaign.id
                  (l.recipients ++ new_row campaign l.next_id contact status ∷ []))
      added status =
          rw (contact_ids-snoc campaign l.next_id contact status k l.recipients)
            (unfold contains_id in ap (λ b. contact.id == k || b) (h k))

  pub visit-UniqueRows :
      (contact : Contact) (l : Loop)
      → Tracks campaign l
      → Distinct same_slot l.recipients
      → Distinct same_slot (visit db campaign excluded contact l).recipients
  visit-UniqueRows contact l t h = elim (Bool-cases (contains_id contact.id l.existing_ids)) [
    | inl old ↦ rw (visit_old contact l old) h
    | inr new ↦ rw (visit_new contact l new).1 (
        Distinct-snoc same_slot l.recipients (row_of contact l) h
          (any-same_slot campaign l.next_id contact _ l.recipients ∙ sym (t contact.id) ∙ new))
  ]

  pub run_loop-Tracks :
      (contacts : List Contact) (l : Loop)
      → Tracks campaign l
      → Tracks campaign (run_loop db campaign excluded contacts l)
  unfolding run_loop
  run_loop-Tracks [] l t = t
  run_loop-Tracks (c ∷ cs) l t =
      run_loop-Tracks cs (visit db campaign excluded c l) (visit-Tracks c l t)

  pub run_loop-UniqueRows :
      (contacts : List Contact) (l : Loop)
      → Tracks campaign l
      → Distinct same_slot l.recipients
      → Distinct same_slot (run_loop db campaign excluded contacts l).recipients
  unfolding run_loop
  run_loop-UniqueRows [] l t h = h
  run_loop-UniqueRows (c ∷ cs) l t h =
      run_loop-UniqueRows cs (visit db campaign excluded c l) (visit-Tracks c l t)
        (visit-UniqueRows c l t h)

pub start-Tracks : (db : Db) (campaign : Campaign) → Tracks campaign (start db campaign.id)
unfolding start
start-Tracks db campaign k = refl

add_rows-UniqueRows :
    (now : ℕ) (campaign : Campaign) (ids : List ℕ) (db : Db)
    → UniqueRows db
    → UniqueRows (add_rows now campaign ids db).0
unfolding add_rows recount start
add_rows-UniqueRows now campaign ids db h =
    run_loop-UniqueRows db campaign (exclusion now db campaign) (where_ (is_target ids) db.contacts)
      (start db campaign.id) (start-Tracks db campaign) h

lists-UniqueRows :
    (now : ℕ) (campaign : Campaign) (ids : List ℕ) (db : Db)
    → UniqueRows db
    → UniqueRows (materialize_lists now campaign ids db).0
unfolding materialize_lists
lists-UniqueRows now campaign [] db h = h
lists-UniqueRows now campaign (i ∷ ids) db h = add_rows-UniqueRows now campaign (i ∷ ids) db h

found-UniqueRows :
    (now : ℕ) (o : Option Campaign) (db : Db)
    → UniqueRows db
    → UniqueRows (materialize_found now o db).0
unfolding materialize_found
found-UniqueRows now none db h = h
found-UniqueRows now (some c) db h =
    elim (Bool-cases (is_campaign c.status CampaignStatus.sending)) [
      | inl running ↦ rw running (lists-UniqueRows now c (campaign_list_ids c.id db) db h)
      | inr idle ↦ rw idle h
    ]

-- Materialization, first or repeated, and with lists that share contacts or not, keeps the ledger
-- free of a second row for the same contact and campaign.
pub materialize-UniqueRows :
    (now campaign_id : ℕ) (db : Db)
    → UniqueRows db
    → UniqueRows (materialize_campaign now campaign_id db).0
unfolding materialize_campaign
materialize-UniqueRows now campaign_id db h =
    found-UniqueRows now (get_campaign db campaign_id) db h
