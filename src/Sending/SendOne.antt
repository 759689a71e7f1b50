-- ===== src/Sending/SendOne.antt =====
-- `send_one`: the whole task, as phases that are transactions of their own. What the environment
-- does is in `Env`: the clock, the answers of Redis and Postal, and what other transactions commit
-- while this task holds none. The lock and the token of a message are kept by their meaning: a set
-- of recipient ids, and the pair of a campaign and a pool, in place of the formatted texts. That the
-- lock can expire, and that other tasks come between the phases, is in System.Steps.
pub mod Validate
pub mod Message
pub mod Cases
pub mod Safety
pub mod Once
use emailmarketing.Base.{
  ℕ, zero, suc, ◌==◌, ◌+◌, ◌-◌, ◌≤◌, ◌<◌, ◌≡◌, refl, Bool, true, false, ◌&&◌, ◌||◌, not, Option,
  none, some, List, [], ◌∷◌, arith, inl, inr, if◌then◌else◌, Bool-cases, Option-cases, ◌++◌, ◌*◌,
  ◌/◌, any, min, max, ◌^◌, ltb, leb,
}
use emailmarketing.Text.{Text, codes}
use emailmarketing.Models.{
  Db, CampaignRecipient, RecipientStatus, OverflowPolicy, get_recipient, is_recipient, defer,
  hard_stop, failed, sent,
}
use emailmarketing.Counters.{
  Counter, bump_campaign, update_recipient_row, sent_count, failed_count, skipped_count,
}
use emailmarketing.Frequency.{record_send}
use emailmarketing.RateLimit.{Store, Attempt, acquire, build_send_buckets, second, AcquireResult}
use emailmarketing.RateLimit.DailyCap.{
  is_under_daily_cap, record_daily_send, global_sent_today, record_global_send, DailyCapResult,
}
use emailmarketing.Sending.Ledger.{maybe_finalize}
use emailmarketing.Sending.SendOne.Validate.{
  Payload, Checked, stop, go, validate, SendOutcome, missing_after_send, warming_deferred, locked,
  warming_cap, rate_limited, daily_cap, retried, retries_exceeded, propagated,
}
use emailmarketing.Sending.SendOne.Message.{SendMessage, build_message}

-- what `send_message` does: a message token, one of its two exceptions with its text, or any
-- other exception. A transient or another one does not tell whether Postal has taken the message.
pub data PostalReply : Type 0 where
  accepted : Text → PostalReply
  transient : PostalReply
  unexpected : PostalReply
  permanent : Text → PostalReply

pub record World : Type 0 where
  pub db : Db
  pub buckets : Store
  pub counters : List (Text × ℕ)
  pub locks : List ℕ
  -- `apply_async` and `retry`: a recipient and a countdown in seconds
  pub queue : List (ℕ × ℕ)
  -- what Postal has accepted
  pub outbox : List SendMessage

pub record Env : Type 0 where
  pub now : ℕ
  pub day : Text
  pub left_of_day : ℕ
  pub attempts : ℕ → Attempt
  pub redis_reachable : Bool
  pub retries : ℕ
  pub rate_global_per_minute : ℕ
  pub rate_per_domain_per_minute : ℕ
  pub per_ip_daily_cap : ℕ
  pub send_retry_backoff_seconds : ℕ
  pub send_max_retries : ℕ
  pub escape : Text → Text
  pub unsubscribe_url : Text → Text
  pub postal : SendMessage → PostalReply
  -- whether Postal takes a message for which `send_message` raises an exception that is not
  -- permanent, as when the answer comes after the timeout or cannot be read
  pub unheard : SendMessage → Bool
  pub before_skip : Db → Db
  pub during_send : Db → Db

unfoldable pub enqueue : ℕ → ℕ → World → World
enqueue id countdown w = record w { queue = w.queue ++ (id, countdown) ∷ [] }

-- `math.ceil` of a wait in microseconds
abbrev pub ceil_seconds : ℕ → ℕ
ceil_seconds wait = (wait + (second - 1)) / second

-- `cr.status = …; _bump(…); _maybe_finalize(…)`, on a row that is still pending
unfoldable pub settle_found :
    (CampaignRecipient → CampaignRecipient) → Counter → ℕ → Option CampaignRecipient → Db → Db
settle_found f counter campaign_id none db = db
settle_found f counter campaign_id (some cr) db =
    if is_recipient cr.status RecipientStatus.pending
    then maybe_finalize campaign_id
        (bump_campaign campaign_id counter (update_recipient_row cr.id f db))
    else db

unfoldable pub settle_pending : (CampaignRecipient → CampaignRecipient) → Counter → ℕ → ℕ → Db → Db
unfolding settle_found
settle_pending f counter campaign_id id db =
    settle_found f counter campaign_id (get_recipient db id) db

abbrev pub mark : RecipientStatus → CampaignRecipient → CampaignRecipient
mark status r = record r { status = status }

abbrev pub mark_failed : Text → CampaignRecipient → CampaignRecipient
mark_failed detail r = record r {
  status = RecipientStatus.failed;
  error_detail = some (codes "permanent: " ++ detail);
}

abbrev pub mark_sent : Text → Text → CampaignRecipient → CampaignRecipient
mark_sent token pool r = record r {
  status = RecipientStatus.sent;
  postal_message_id = some token;
  ip_pool = some pool;
}

-- `if freq_campaign_id is not None and contact_id is not None: record_send(…)`
unfoldable pub log_frequency : ℕ → Option ℕ → Option ℕ → Db → Db
log_frequency now (some campaign) (some contact) db = record_send now campaign contact db
log_frequency now none contact db = db
log_frequency now (some campaign) none db = db

-- phase 4 on the row as it is read again
unfoldable pub persist_found : ℕ → Payload → Text → Option CampaignRecipient → Db → Db
persist_found now p token none db = db
persist_found now p token (some cr) db =
    if is_recipient cr.status RecipientStatus.pending
    then maybe_finalize p.campaign_id (
        log_frequency now p.freq_campaign_id p.contact_id (
          bump_campaign p.campaign_id sent_count
            (update_recipient_row cr.id (mark_sent token p.pool) db)))
    else db

unfoldable pub persist : Env → Payload → ℕ → Text → World → World × SendOutcome
persist env p id token w =
    let found = get_recipient w.db id in
    elim found [
      | none ↦ (w, missing_after_send)
      | some cr ↦ (
        record w {
          db = persist_found env.now p token (some cr) w.db;
          counters = record_global_send env.day (record_daily_send env.day p.pool w.counters);
        },
        SendOutcome.sent,
      )
    ]

-- `raise self.retry(…)`: a new task with a countdown, unless the retries are used up
unfoldable pub retry : Env → ℕ → World → World × SendOutcome
retry env id w =
    let countdown = min (env.send_retry_backoff_seconds * 2 ^ env.retries) 3600 in
    if ltb env.retries env.send_max_retries
    then (enqueue id countdown w, retried)
    else (w, retries_exceeded)

-- whether Postal has the message after the call of `send_message`
unfoldable pub is_taken : Env → SendMessage → PostalReply → Bool
is_taken env m (accepted token) = true
is_taken env m transient = env.unheard m
is_taken env m unexpected = env.unheard m
is_taken env m (permanent detail) = false

-- the call of `send_message`
unfoldable pub post : Env → SendMessage → World → World
unfolding is_taken
post env m w = if is_taken env m (env.postal m) then record w { outbox = w.outbox ++ m ∷ [] } else w

-- what follows the call of `send_message`; `w` is the world after the other transactions
unfoldable pub after_reply : Env → Payload → ℕ → PostalReply → World → World × SendOutcome
after_reply env p id (accepted token) w = persist env p id token w
after_reply env p id transient w = retry env id w
after_reply env p id unexpected w = (w, propagated)
after_reply env p id (permanent detail) w = (
  record w { db = settle_pending (mark_failed detail) failed_count p.campaign_id id w.db },
  SendOutcome.failed,
)

unfoldable pub transmit : Env → Payload → ℕ → World → World × SendOutcome
transmit env p id w =
    let m = build_message env.escape env.unsubscribe_url p in
    let w' = post env m w in
    after_reply env p id (env.postal m) (record w' { db = env.during_send w'.db })

-- the hard stop of warming, or its deferral
unfoldable pub stop_for_warming : Env → Payload → ℕ → OverflowPolicy → World → World × SendOutcome
stop_for_warming env p id defer w = (enqueue id 3600 w, warming_deferred)
stop_for_warming env p id hard_stop w = (
  record w {
    db =
        settle_pending (mark RecipientStatus.skipped_cap) skipped_count p.campaign_id id
          (env.before_skip w.db);
  },
  warming_cap,
)

-- a return of phase 2, or `none` where the message is sent
abbrev pub Paced : Type 0
Paced = World × Option SendOutcome

abbrev pub returned : World × SendOutcome → Paced
returned (w, outcome) = (w, some outcome)

-- the tests of phase 2, in their order; `full` is the total cap of warming
unfoldable pub after_pacing :
    Env → Payload → ℕ → AcquireResult → DailyCapResult → Bool → World → Paced
after_pacing env p id rate cap full w =
    if not rate.allowed
    then (enqueue id (min (max 1 (ceil_seconds rate.retry_after)) 60) w, some rate_limited)
    else if not cap.allowed
    then (enqueue id (min (max 60 cap.retry_after) 3600) w, some daily_cap)
    else if full
    then returned (stop_for_warming env p id p.overflow_policy w)
    else (w, none)

-- phase 2
unfoldable pub pace : Env → Payload → ℕ → World → Paced
pace env p id w =
    let (buckets, rate) =
      acquire env.attempts
        (build_send_buckets env.rate_global_per_minute env.rate_per_domain_per_minute p.domain
          (some p.send_rate))
        w.buckets in
    after_pacing env p id rate
      (is_under_daily_cap env.redis_reachable w.counters env.day env.left_of_day p.pool
        env.per_ip_daily_cap)
      (leb p.warming_cap (global_sent_today env.redis_reachable w.counters env.day))
      (record w { buckets = buckets })

-- phase 3, if phase 2 has not returned
unfoldable pub after_pace : Env → Payload → ℕ → Paced → World × SendOutcome
after_pace env p id (w, some outcome) = (w, outcome)
after_pace env p id (w, none) = transmit env p id w

-- under the lock, after phase 1
unfoldable pub proceed : Env → ℕ → Checked → World → World × SendOutcome
proceed env id (stop outcome) w = (w, outcome)
proceed env id (go p) w = after_pace env p id (pace env p id w)

unfoldable pub remove_id : ℕ → List ℕ → List ℕ
remove_id i [] = []
remove_id i (j ∷ js) = let rest = remove_id i js in if j == i then rest else j ∷ rest

unfoldable pub release : ℕ → World → World
release id w = record w { locks = remove_id id w.locks }

-- the lock, and phase 1 under it; `none` where another task holds the lock
unfoldable pub take_up : Env → ℕ → World → World × Option Checked
take_up env id w =
    let (db', checked) = validate env.now id w.db in
    if any (λ i. i == id) w.locks
    then (w, none)
    else (record w { db = db'; locks = id ∷ w.locks }, some checked)

-- the rest of the task, and the `finally` that deletes the lock
unfoldable pub carry_out : Env → ℕ → World × Option Checked → World × SendOutcome
carry_out env id (w, none) = (w, locked)
carry_out env id (w, some checked) =
    let (w', outcome) = proceed env id checked w in (release id w', outcome)

unfoldable pub send_one : Env → ℕ → World → World × SendOutcome
send_one env id w = carry_out env id (take_up env id w)
