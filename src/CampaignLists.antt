-- ===== src/CampaignLists.antt =====
-- app/services/campaign_lists.py: the lists that a campaign pools.
use emailmarketing.Base.{
  ℕ, ◌==◌, Bool, ◌||◌, not, Option, none, some, List, [], ◌∷◌, if◌then◌else◌, ◌++◌, any, where_,
}
use emailmarketing.Models.{Db, Campaign, CampaignList, get_campaign}

unfoldable pub list_ids : List CampaignList → List ℕ
list_ids [] = []
list_ids (r ∷ rs) = r.list_id ∷ list_ids rs

-- `[legacy] if legacy else []`
unfoldable pub legacy_list : Option Campaign → List ℕ
legacy_list none = []
legacy_list (some c) = elim c.list_id [ none ↦ [] | some l ↦ if l == 0 then [] else l ∷ [] ]

unfoldable pub campaign_list_ids : ℕ → Db → List ℕ
unfolding list_ids legacy_list
campaign_list_ids campaign_id db =
    elim (list_ids
      (where_ (λ (r : CampaignList). r.campaign_id == campaign_id) db.campaign_lists)) [
        | [] ↦ legacy_list (get_campaign db campaign_id)
        | l ∷ ls ↦ l ∷ ls
      ]

unfoldable pub contains_id : ℕ → List ℕ → Bool
contains_id i ids = any (λ j. j == i) ids

-- the loop of `set_campaign_lists`, after the deletion
unfoldable pub attach_lists : ℕ → List ℕ → List ℕ → List CampaignList → List CampaignList
unfolding contains_id
attach_lists campaign_id seen [] rows = rows
attach_lists campaign_id seen (l ∷ ls) rows =
    let skip = l == 0 || contains_id l seen in
    attach_lists campaign_id (if skip then seen else l ∷ seen) ls
      (if skip then rows else rows ++ record { campaign_id = campaign_id; list_id = l } ∷ [])

unfoldable pub set_campaign_lists : ℕ → List ℕ → Db → Db
unfolding attach_lists
set_campaign_lists campaign_id ids db = record db {
  campaign_lists =
      attach_lists campaign_id [] ids
        (where_ (λ (r : CampaignList). not (r.campaign_id == campaign_id)) db.campaign_lists);
}
