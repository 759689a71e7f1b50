-- ===== src/Scheduler.antt =====
-- app/tasks/scheduler.py: the two periodic tasks. The last activity of a campaign, the latest
-- `updated_at` of its rows, is an argument; the keys `repump:<id>` are kept with their expiry.
pub mod Laws
use emailmarketing.Counters.{update_campaign_row}
use emailmarketing.Sending.Ledger.{is_sending, pending_count, pending_ids}
use emailmarketing.Models.{Campaign, Db, CampaignStatus, get_campaign, is_campaign}
use emailmarketing.Base.{
  ℕ, zero, suc, ◌==◌, ◌+◌, ◌-◌, ◌≤◌, ◌<◌, ◌≡◌, refl, Bool, true, false, ◌&&◌, ◌||◌, not, Option,
  none, some, List, [], ◌∷◌, arith, inl, inr, if◌then◌else◌, Bool-cases, Option-cases, ◌++◌, ◌*◌,
  ◌/◌, any, leb, ltb, update_where, where_,
}

unfoldable pub is_past : ℕ → Option ℕ → Bool
is_past now none = false
is_past now (some at_time) = leb at_time now

unfoldable pub is_due : ℕ → Campaign → Bool
is_due now c = is_campaign c.status CampaignStatus.scheduled && is_past now c.scheduled_at

unfoldable pub campaign_ids : List Campaign → List ℕ
campaign_ids [] = []
campaign_ids (c ∷ cs) = c.id ∷ campaign_ids cs

abbrev pub start_sending : Campaign → Campaign
start_sending c = record c { status = CampaignStatus.sending }

-- The second part is what `materialize_campaign` is enqueued for.
unfoldable pub dispatch_due_campaigns : ℕ → Db → Db × List ℕ
dispatch_due_campaigns now db = (
  record db { campaigns = update_where (is_due now) start_sending db.campaigns },
  campaign_ids (where_ (is_due now) db.campaigns),
)

pub record Pump : Type 0 where
  pub db : Db
  -- `repump:<id>` and when it expires
  pub keys : List (ℕ × ℕ)
  -- the recipients that `send_one` is enqueued for
  pub queue : List ℕ
  pub finalized : List ℕ
  pub repumped : List ℕ

abbrev pub stall_after : ℕ
stall_after = 900

-- `last_activity is None or last_activity < now - _STALL_AFTER`
unfoldable pub is_stalled : ℕ → Option ℕ → Bool
is_stalled now none = true
is_stalled now (some last) = ltb (last + stall_after) now

abbrev pub is_live_key : ℕ → ℕ → ℕ × ℕ → Bool
is_live_key now cid key = key.0 == cid && ltb now key.1

-- `redis.set(key, "1", nx=True, ex=900)`, and the re-pump where it succeeds
unfoldable pub repump : ℕ → ℕ → Pump → Pump
repump now cid p = if any (is_live_key now cid) p.keys then p else record p {
  keys = (cid, now + 900) ∷ p.keys;
  queue = p.queue ++ pending_ids cid p.db;
  repumped = p.repumped ++ cid ∷ [];
}

unfoldable pub finalize : ℕ → Pump → Pump
finalize cid p =
    if is_sending (get_campaign p.db cid)
    then record p {
      db =
          update_campaign_row cid (λ (c : Campaign). record c { status = CampaignStatus.completed })
            p.db;
      finalized = p.finalized ++ cid ∷ [];
    }
    else p

-- the body of the loop
unfoldable pub tend : ℕ → (ℕ → Option ℕ) → ℕ → Pump → Pump
tend now last_activity cid p =
    if pending_count p.db cid == 0
    then finalize cid p
    else if is_stalled now (last_activity cid)
    then repump now cid p
    else p

unfoldable pub tend_all : ℕ → (ℕ → Option ℕ) → List ℕ → Pump → Pump
tend_all now last_activity [] p = p
tend_all now last_activity (cid ∷ cids) p =
    tend_all now last_activity cids (tend now last_activity cid p)

unfoldable pub finalize_and_repump : ℕ → (ℕ → Option ℕ) → List (ℕ × ℕ) → Db → Pump
finalize_and_repump now last_activity keys db =
    let sending =
      campaign_ids
        (where_ (λ (c : Campaign). is_campaign c.status CampaignStatus.sending) db.campaigns) in
    tend_all now last_activity sending
      (record { db = db; keys = keys; queue = []; finalized = []; repumped = [] })
