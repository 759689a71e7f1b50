-- ===== src/Api/Status.antt =====
-- app/api/status.py and `campaign_progress` and the totals of app/services/stats.py: what a program
-- with a key can read. The rates and the pools of the day are display.
use emailmarketing.Api.Keys.Laws.{row-verify_nonempty}
use emailmarketing.Api.Keys.{ApiKey, KeyTable, request_key, verify_api_key, opens}
use emailmarketing.Models.{Campaign, CampaignStatus, Db, get_campaign}
use emailmarketing.Text.{Text, is_empty}
use emailmarketing.Base.{
  ℕ, ◌+◌, ◌-◌, ◌≡◌, refl, true, false, Option, none, some, inl, inr, Bool-cases, ◌≢◌, find-holds,
  sym, ◌∙◌, find,
}

pub record Progress : Type 0 where
  pub id : ℕ
  pub name : Text
  pub status : CampaignStatus
  pub total : ℕ
  pub queued : ℕ
  pub sent : ℕ
  pub delivered : ℕ
  pub bounced : ℕ
  pub failed : ℕ
  pub skipped_suppressed : ℕ
  pub pending : ℕ
  pub processed : ℕ
  pub scheduled_at : Option ℕ

-- `max(0, …)` is the truncated difference
unfoldable pub campaign_progress : Campaign → Progress
campaign_progress c = record {
  id = c.id;
  name = c.name;
  status = c.status;
  total = c.total_recipients;
  queued = c.queued_count;
  sent = c.sent_count;
  delivered = c.delivered_count;
  bounced = c.bounced_count;
  failed = c.failed_count;
  skipped_suppressed = c.skipped_count;
  pending = (c.queued_count - c.sent_count) - c.failed_count;
  processed = c.sent_count + c.failed_count + c.skipped_count;
  scheduled_at = c.scheduled_at;
}

pub data StatusReply : Type 0 where
  bad_key not_found : StatusReply
  progress : Progress → StatusReply

unfoldable pub reply_of : Option Campaign → StatusReply
reply_of none = not_found
reply_of (some c) = progress (campaign_progress c)

unfoldable pub guarded : Option ApiKey → Option Campaign → StatusReply
guarded none o = bad_key
guarded (some key) o = reply_of o

module _ (hash : Text → Text) where
  unfoldable pub require_api_key : ℕ → Option Text → Text → KeyTable → KeyTable × Option ApiKey
  require_api_key now header authorization t =
      verify_api_key hash now (request_key header authorization) t

  unfoldable pub campaign_status :
      ℕ → Option Text → Text → ℕ → Db → KeyTable → KeyTable × StatusReply
  campaign_status now header authorization campaign_id db t =
      let (t', key) = require_api_key now header authorization t in
      (t', guarded key (get_campaign db campaign_id))

  guarded_by :
      (o : Option ApiKey) (c : Option Campaign)
      → guarded o c ≢ bad_key
      → (k : ApiKey) × (o ≡ some k)
  unfolding guarded
  guarded_by none c h = absurd (h refl)
  guarded_by (some k) c h = (k, refl)

  -- The status of a campaign is told, or that it does not exist, only to a request whose key is not
  -- empty and is, by its hash, that of an active row of the table.
  pub campaign_status-opens :
      (now : ℕ) (header : Option Text) (authorization : Text) (campaign_id : ℕ) (db : Db)
      (t : KeyTable)
      → (campaign_status now header authorization campaign_id db t).1 ≢ bad_key
      → (plaintext : Text) × (k : ApiKey) × (request_key header authorization ≡ some plaintext)
        × (is_empty plaintext ≡ false)
        × (find (opens hash plaintext) t.rows ≡ some k)
        × (opens hash plaintext k ≡ true)
  unfolding campaign_status require_api_key
  campaign_status-opens now header authorization campaign_id db t h =
      let (k, e) = guarded_by _ _ h in by_key (request_key header authorization) refl k e
    where
      gone : {A : Type 0} {a : A} → none ≡ some a → ⊥
      gone e = cc

      by_key :
          (o : Option Text)
          → request_key header authorization ≡ o
          → (k : ApiKey) → (verify_api_key hash now (request_key header authorization) t).1 ≡ some k
          → (plaintext : Text) × (k : ApiKey) × (request_key header authorization ≡ some plaintext)
            × (is_empty plaintext ≡ false)
            × (find (opens hash plaintext) t.rows ≡ some k)
            × (opens hash plaintext k ≡ true)
      by_key none e k h = absurd (gone {A = ApiKey} {a = k} (unfold verify_api_key in rw e at h))
      by_key (some p) e k h = elim (Bool-cases (is_empty p)) [
        | inl void ↦ absurd (gone {A = ApiKey} {a = k} (unfold verify_api_key in rw (e, void) at h))
        | inr full ↦
            let found : find (opens hash p) t.rows ≡ some k =
              sym (row-verify_nonempty hash now p t)
              ∙ (unfold verify_api_key in rw (e, full) at h) in
            (p, k, e, full, found, find-holds (opens hash p) t.rows k found)
      ]
