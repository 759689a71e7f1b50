-- ===== src/Cascades/Laws.antt =====
-- Nothing of a deleted campaign is left.
use emailmarketing.Cascades.{delete_campaign_row, orphans, refers_to, orphan}
use emailmarketing.Models.{
  Campaign, Db, CampaignRecipient, get_campaign, CampaignList, PlannerPlacement,
  CampaignContactSend,
}
use emailmarketing.Base.{
  ℕ, ◌==◌, ◌≡◌, refl, Bool, true, false, not, none, List, [], ◌∷◌, inl, inr, Bool-cases, find,
  where_,
}
use emailmarketing.Base.{All}

module _ {A : Type 0} where
  All-passed : (q : A → Bool) (xs : List A) → All (λ x. q x ≡ true) (where_ q xs)
  unfolding where_
  All-passed q [] = tt
  All-passed q (x ∷ xs) = elim (Bool-cases (q x)) [
    | inl a ↦ rw a (a, All-passed q xs)
    | inr a ↦ rw a (All-passed q xs)
  ]

-- no row of the campaign, in any table that has one
pub record IsGone (id : ℕ) (db : Db) : Type 0 where
  pub no_campaign : get_campaign db id ≡ none
  pub no_recipients :
      All (λ (r : CampaignRecipient). not (r.campaign_id == id) ≡ true) db.recipients
  pub no_lists : All (λ (l : CampaignList). not (l.campaign_id == id) ≡ true) db.campaign_lists
  pub no_placements : All (λ (p : PlannerPlacement). not (p.campaign_id == id) ≡ true) db.placements
  pub no_sends :
      All (λ (s : CampaignContactSend). not (s.campaign_id == id) ≡ true) db.contact_sends
  pub no_children :
      All (λ (c : Campaign). refers_to (id ∷ []) c.parent_campaign_id ≡ false) db.campaigns

find-orphans :
    (id : ℕ) (cs : List Campaign)
    → find
        (λ (c : Campaign). c.id == id)
        (orphans id (where_ (λ (c : Campaign). not (c.id == id)) cs))
      ≡ none
unfolding find where_
find-orphans id [] = refl
find-orphans id (c ∷ cs) = elim (Bool-cases (c.id == id)) [
  | inl a ↦ rw a (find-orphans id cs)
  | inr a ↦ rw a (rw a (find-orphans id cs))
]

orphaned : (id : ℕ) (c : Campaign) → refers_to (id ∷ []) (orphan id c).parent_campaign_id ≡ false
orphaned id c = elim (Bool-cases (refers_to (id ∷ []) c.parent_campaign_id)) [
  | inl a ↦ rw a refl
  | inr a ↦ rw a a
]

orphans_left :
    (id : ℕ) (cs : List Campaign)
    → All (λ (c : Campaign). refers_to (id ∷ []) c.parent_campaign_id ≡ false) (orphans id cs)
orphans_left id [] = tt
orphans_left id (c ∷ cs) = (orphaned id c, orphans_left id cs)

-- The deletion of a campaign leaves no row of it: neither the campaign nor its recipients, lists,
-- placements and frequency log, and no campaign that names it as its parent.
pub delete_campaign_row-IsGone : (id : ℕ) (db : Db) → IsGone id (delete_campaign_row id db)
unfolding delete_campaign_row
delete_campaign_row-IsGone id db = record {
  no_campaign = find-orphans id db.campaigns;
  no_recipients = All-passed (λ (r : CampaignRecipient). not (r.campaign_id == id)) db.recipients;
  no_lists = All-passed (λ (l : CampaignList). not (l.campaign_id == id)) db.campaign_lists;
  no_placements = All-passed (λ (p : PlannerPlacement). not (p.campaign_id == id)) db.placements;
  no_sends = All-passed (λ (s : CampaignContactSend). not (s.campaign_id == id)) db.contact_sends;
  no_children = orphans_left id (where_ (λ (c : Campaign). not (c.id == id)) db.campaigns);
}
