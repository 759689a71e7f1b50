-- ===== src/RateLimit/DailyCap.antt =====
-- The daily counters: the cap of one pool, and the total that warming looks at.
-- The day of a key is an argument, as the clock gives it. A counter's expiry lies after the end of
-- its day, when its key is read no more, and is left out.
pub mod Laws
use emailmarketing.Base.{ℕ, Bool, true, false, List, if◌then◌else◌, leb, max, ◌++◌}
use emailmarketing.Text.{Text, codes}
use emailmarketing.Dict.{counter, incr}

pub record DailyCapResult : Type 0 where
  pub allowed : Bool
  pub used : ℕ
  pub cap : ℕ
  pub retry_after : ℕ

abbrev pub daily_key : Text → Text → Text
daily_key day ip_pool = codes "ipcap:" ++ (ip_pool ++ (codes ":" ++ day))

abbrev pub global_day_key : Text → Text
global_day_key day = codes "warmsent:" ++ day

-- `max(60, …)`, at a number of seconds left of the day
unfoldable pub seconds_until_midnight : ℕ → ℕ
seconds_until_midnight left = max 60 left

-- A Redis that cannot be reached counts as 0; `reachable` is what the environment says.
unfoldable pub daily_cap_usage : Bool → List (Text × ℕ) → Text → Text → ℕ
daily_cap_usage reachable counters day ip_pool =
    if reachable then counter (daily_key day ip_pool) counters else 0

unfoldable pub is_under_daily_cap : Bool → List (Text × ℕ) → Text → ℕ → Text → ℕ → DailyCapResult
unfolding daily_cap_usage seconds_until_midnight
is_under_daily_cap reachable counters day left ip_pool cap =
    let used = daily_cap_usage reachable counters day ip_pool in
    if leb cap used
    then record {
      allowed = false;
      used = used;
      cap = cap;
      retry_after = seconds_until_midnight left;
    }
    else record { allowed = true; used = used; cap = cap; retry_after = 0 }

unfoldable pub record_daily_send : Text → Text → List (Text × ℕ) → List (Text × ℕ)
record_daily_send day ip_pool = incr (daily_key day ip_pool)

unfoldable pub global_sent_today : Bool → List (Text × ℕ) → Text → ℕ
global_sent_today reachable counters day =
    if reachable then counter (global_day_key day) counters else 0

unfoldable pub record_global_send : Text → List (Text × ℕ) → List (Text × ℕ)
record_global_send day = incr (global_day_key day)
