-- ===== src/Frequency.antt =====
-- app/services/frequency.py: when a contact last received a campaign.
pub mod Laws
use emailmarketing.Base.{
  ℕ, zero, suc, ◌+◌, ◌-◌, ◌≤◌, ◌<◌, ◌≡◌, refl, Bool, true, false, ◌&&◌, ◌||◌, not, Option, none,
  some, List, [], ◌∷◌, arith, inl, inr, if◌then◌else◌, Bool-cases, Option-cases, ◌++◌, ◌*◌, ◌/◌,
  any, ◌==◌, leb, update_where,
}
use emailmarketing.Models.{Db, CampaignContactSend}

abbrev pub seconds_per_day : ℕ
seconds_per_day = 86400

-- the row of a campaign and a contact
abbrev pub is_send_of : ℕ → ℕ → CampaignContactSend → Bool
is_send_of campaign contact r = r.campaign_id == campaign && r.contact_id == contact

-- `contact_id in ineligible_contact_ids(…)`: the set, by its membership test
unfoldable pub is_ineligible : ℕ → Db → ℕ → ℕ → ℕ → Bool
is_ineligible now db campaign interval_days contact =
    any
      (λ (r : CampaignContactSend).
        is_send_of campaign contact r && leb (now - interval_days * seconds_per_day) r.last_sent_at)
      db.contact_sends

unfoldable pub record_send : ℕ → ℕ → ℕ → Db → Db
record_send now campaign contact db = record db {
  contact_sends =
      if any (is_send_of campaign contact) db.contact_sends
      then update_where (is_send_of campaign contact)
          (λ (r : CampaignContactSend). record r { last_sent_at = now }) db.contact_sends
      else db.contact_sends
        ++ record { campaign_id = campaign; contact_id = contact; last_sent_at = now } ∷ [];
}
