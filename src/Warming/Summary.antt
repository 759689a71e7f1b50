-- ===== src/Warming/Summary.antt =====
-- `warming_summary`: what the page of the planner shows of the warming.
use emailmarketing.Warming.{current_daily_cap, total_cap, age_in_days, ramp_value}
use emailmarketing.Models.{Db, IpWarmState}
use emailmarketing.PlannerConfig.{PlannerConfig, get_planner_config}
use emailmarketing.Text.{Text}
use emailmarketing.Base.{
  ℕ, ◌+◌, ◌≡◌, refl, Bool, Option, List, [], ◌∷◌, arith, if◌then◌else◌, ◌/◌, where_, map, ◌∙◌,
}

pub record IpSummary : Type 0 where
  pub ip : Text
  pub pool : Option Text
  pub active : Bool
  pub age_days : ℕ
  pub week : ℕ
  pub daily_cap : ℕ

pub record WarmingSummary : Type 0 where
  pub total_daily_cap : ℕ
  pub ips : List IpSummary
  pub ramp : List ℕ

abbrev pub summary_of : ℕ → PlannerConfig → IpWarmState → IpSummary
summary_of now cfg s =
    let age = age_in_days now s in
    record {
      ip = s.ip;
      pool = s.pool;
      active = s.is_active;
      age_days = age;
      week = age / 7 + 1;
      daily_cap = ramp_value cfg age;
    }

unfoldable pub warming_summary : ℕ → Db → WarmingSummary
warming_summary now db =
    let cfg = get_planner_config db in
    record {
      total_daily_cap = current_daily_cap now db;
      ips = map (summary_of now cfg) db.warm_states;
      ramp = cfg.warming_ramp;
    }

-- the sum of the caps that the page shows for the active addresses
unfoldable pub shown_total : List IpSummary → ℕ
shown_total [] = 0
shown_total (s ∷ ss) = let rest = shown_total ss in if s.active then s.daily_cap + rest else rest

shown_total-map :
    (now : ℕ) (cfg : PlannerConfig) (states : List IpWarmState)
    → shown_total (map (summary_of now cfg) states)
      ≡ total_cap cfg now (where_ (λ (s : IpWarmState). s.is_active) states)
unfolding shown_total total_cap where_
shown_total-map now cfg [] = refl
shown_total-map now cfg (s ∷ states) = ground (arith, shown_total-map now cfg states)

-- The total that gates the sends is the sum of the caps that are shown for the active addresses, if
-- there is an active address.
pub shown_total-warming_summary :
    (now : ℕ) (db : Db) (s : IpWarmState) (states : List IpWarmState)
    → where_ (λ (s : IpWarmState). s.is_active) db.warm_states ≡ s ∷ states
    → shown_total (warming_summary now db).ips ≡ (warming_summary now db).total_daily_cap
unfolding warming_summary current_daily_cap
shown_total-warming_summary now db s states active =
    shown_total-map now (get_planner_config db) db.warm_states
    ∙ (rw (active, current_daily_cap) refl)
