-- ===== src/Frequency/Laws.antt =====
-- The interval between two sends of one campaign to one contact.
use emailmarketing.Base.{
  ℕ, ◌==◌, ◌-◌, ◌≡◌, refl, Bool, false, ◌&&◌, List, [], ◌∷◌, arith, if◌then◌else◌, ◌*◌, any, leb,
  update_where, any-append,
}
use emailmarketing.Models.{Db, CampaignContactSend}
use emailmarketing.Frequency.{is_send_of, is_ineligible, record_send, seconds_per_day}

abbrev recent : ℕ → ℕ → ℕ → CampaignContactSend → Bool
recent cutoff campaign contact r = is_send_of campaign contact r && leb cutoff r.last_sent_at

any-update_where :
    (cutoff now c k d l : ℕ) (rs : List CampaignContactSend)
    → any (recent cutoff d l) (
        update_where
          (is_send_of c k)
          (λ (r : CampaignContactSend). record r { last_sent_at = now })
          rs)
      ≡ (if c == d && k == l
          then any (is_send_of c k) rs && leb cutoff now
          else any (recent cutoff d l) rs)
unfolding update_where
any-update_where cutoff now c k d l [] = ground arith
any-update_where cutoff now c k d l (r ∷ rs) =
    ground (arith, any-update_where cutoff now c k d l rs)

no_send_no_recent :
    (cutoff c k : ℕ) (rs : List CampaignContactSend)
    → any (is_send_of c k) rs ≡ false
    → any (recent cutoff c k) rs ≡ false
no_send_no_recent cutoff c k [] h = refl
no_send_no_recent cutoff c k (r ∷ rs) h = ground (arith, no_send_no_recent cutoff c k rs)

-- A recorded send makes its contact ineligible for its campaign until the interval has passed, and
-- from then on eligible again, whatever sends were recorded earlier; every other pair of a campaign
-- and a contact is as eligible as before.
pub is_ineligible-record_send :
    (now later c k d l interval : ℕ) (db : Db)
    → is_ineligible later (record_send now c k db) d interval l ≡ (
        if c == d && k == l
        then leb (later - interval * seconds_per_day) now
        else is_ineligible later db d interval l)
unfolding is_ineligible record_send
is_ineligible-record_send now later c k d l interval db =
    let cutoff = later - interval * seconds_per_day in
    let row : CampaignContactSend = record {
      campaign_id = c;
      contact_id = k;
      last_sent_at = now;
    } in
    ground (
      arith,
      any-update_where cutoff now c k d l db.contact_sends,
      any-append (recent cutoff d l) db.contact_sends (row ∷ []),
      no_send_no_recent cutoff c k db.contact_sends,
    )
