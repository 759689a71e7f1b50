-- ===== src/RateLimit.antt =====
-- app/services/rate_limit.py: the token buckets and the daily counters.
--
-- The floats of the source are exact fractions here: time is whole microseconds, and `unit` parts
-- make one token, so that a bucket of n tokens a minute gains n parts in a microsecond.
pub mod Settle
pub mod Window
pub mod DailyCap
use emailmarketing.Base.{
  ◌==◌, ℕ, zero, suc, ◌+◌, ◌-◌, ◌≤◌, ◌<◌, ◌≡◌, refl, Bool, true, false, ◌&&◌, ◌||◌, not, Option,
  none, some, List, [], ◌∷◌, arith, inl, inr, if◌then◌else◌, Bool-cases, Option-cases, leb, ltb,
  max, min, or_default, ◌*◌, ◌++◌, ◌/◌,
}
use emailmarketing.Text.{Text, codes}
use emailmarketing.Dict.{get, set, incr, counter}

abbrev pub unit : ℕ
unit = 60000000

abbrev pub second : ℕ
second = 1000000

-- `capacity` is the rate in tokens, and `refill_per_sec` a sixtieth of it.
pub record Bucket : Type 0 where
  pub key : Text
  pub per_minute : ℕ

abbrev pub capacity : Bucket → ℕ
capacity b = b.per_minute * unit

-- the hash under a bucket's key, and when `expire` lets it go
pub record Entry : Type 0 where
  pub tokens : ℕ
  pub ts : ℕ
  pub expires_at : ℕ

abbrev pub Store : Type 0
Store = List (Text × Entry)

pub record AcquireResult : Type 0 where
  pub allowed : Bool
  pub retry_after : ℕ

abbrev pub live : ℕ → Option Entry → Option Entry
live now none = none
live now (some e) = if ltb now e.expires_at then some e else none

-- `pipe.hmget(b.key, "tokens", "ts")`
unfoldable pub hmget : ℕ → Text → Store → Option Entry
hmget now key store = live now (get key store)

-- the tokens of a bucket at `now`; the truncated difference is `max(0.0, now - ts)`
unfoldable pub refill : ℕ → Bucket → Option Entry → ℕ
refill now b none = capacity b
refill now b (some e) = min (capacity b) (e.tokens + (now - e.ts) * b.per_minute)

unfoldable pub available : ℕ → Store → Bucket → ℕ
available now store b = refill now b (hmget now b.key store)

unfoldable pub all_allowed : ℕ → Store → List Bucket → Bool
all_allowed now store [] = true
all_allowed now store (b ∷ bs) = leb unit (available now store b) && all_allowed now store bs

-- the wait until every bucket has a token, rounded up to a microsecond
unfoldable pub longest_wait : ℕ → Store → List Bucket → ℕ
longest_wait now store [] = 0
longest_wait now store (b ∷ bs) =
    let rest = longest_wait now store bs in
    let tokens = available now store b in
    if ltb tokens unit then max ((unit - tokens + (b.per_minute - 1)) / b.per_minute) rest else rest

-- `int(b.capacity / b.refill_per_sec) + 60`, in seconds
abbrev pub ttl : Bucket → ℕ
ttl b = capacity b / b.per_minute / second + 60

-- the queued writes of the transaction; the tokens were computed from the store as it was read
unfoldable pub write_back : ℕ → Bool → Store → List Bucket → Store → Store
write_back now allowed read [] store = store
write_back now allowed read (b ∷ bs) store =
    let tokens = available now read b in
    write_back now allowed read bs (
      set b.key
        (record {
          tokens = if allowed then tokens - unit else tokens;
          ts = now;
          expires_at = now + ttl b * second;
        })
        store)

-- one attempt whose `execute` is not refused
unfoldable pub settle : ℕ → List Bucket → Store → Store × AcquireResult
settle now buckets store =
    let allowed = all_allowed now store buckets in
    (
      write_back now allowed store buckets store,
      record { allowed = allowed; retry_after = longest_wait now store buckets },
    )

-- What the environment does to an attempt: its clock, and the store as another worker has left it
-- if that worker wrote a watched key first.
pub record Attempt : Type 0 where
  pub now : ℕ
  pub touched : Option Store

-- the loop over `max_watch_retries`; the attempts are numbered by the rounds left
unfoldable pub acquire_rounds : ℕ → (ℕ → Attempt) → List Bucket → Store → Store × AcquireResult
acquire_rounds zero attempts buckets store =
    (store, record { allowed = false; retry_after = second })
acquire_rounds (suc n) attempts buckets store = elim (attempts n).touched [
  | none ↦ settle (attempts n).now buckets store
  | some other ↦ acquire_rounds n attempts buckets other
]

abbrev pub max_watch_retries : ℕ
max_watch_retries = 25

unfoldable pub acquire : (ℕ → Attempt) → List Bucket → Store → Store × AcquireResult
acquire attempts [] store = (store, record { allowed = true; retry_after = 0 })
acquire attempts (b ∷ bs) store = acquire_rounds max_watch_retries attempts (b ∷ bs) store

unfoldable pub per_minute_bucket : Text → ℕ → Bucket
per_minute_bucket key per_minute = record { key = key; per_minute = max 1 per_minute }

abbrev pub global_key : Text
global_key = codes "rl:global"

abbrev pub domain_key : Text → Text
domain_key domain = codes "rl:dom:" ++ domain

-- The rates of the settings are arguments; `none` and 0 fall back to the setting.
unfoldable pub build_send_buckets : ℕ → ℕ → Text → Option ℕ → List Bucket
unfolding per_minute_bucket
build_send_buckets rate_global rate_per_domain domain global_per_minute =
    let given = or_default global_per_minute 0 in
    per_minute_bucket global_key (if given == 0 then rate_global else given)
    ∷ per_minute_bucket (domain_key domain) rate_per_domain
    ∷ []
