-- ===== src/Warming.antt =====
-- app/services/warming.py: the daily cap that rises with the age of each address of the pool.
pub mod Laws
pub mod Summary
use emailmarketing.Base.{
  ◌==◌, ℕ, zero, suc, ◌+◌, ◌-◌, ◌≤◌, ◌<◌, ◌≡◌, refl, Bool, true, false, ◌&&◌, ◌||◌, not, Option,
  none, some, List, [], ◌∷◌, arith, inl, inr, if◌then◌else◌, Bool-cases, Option-cases, ◌++◌, ◌*◌,
  ◌/◌, any, where_, or_default,
}
use emailmarketing.Text.{Text, ◌==◌ as str_eq}
use emailmarketing.Models.{Db, IpWarmState}
use emailmarketing.Frequency.{seconds_per_day}
use emailmarketing.PlannerConfig.{PlannerConfig, default_ramp, get_planner_config}

-- `ramp[week]`, or the default past its end
unfoldable pub nth_or : List ℕ → ℕ → ℕ → ℕ
nth_or [] i d = d
nth_or (x ∷ xs) zero d = x
nth_or (x ∷ xs) (suc i) d = nth_or xs i d

-- `ramp[-1]`
unfoldable pub last_or : ℕ → List ℕ → ℕ
last_or d [] = d
last_or d (x ∷ xs) = last_or x xs

-- `cfg.get("warming_ramp") or [...]`
unfoldable pub effective_ramp : PlannerConfig → List ℕ
effective_ramp cfg = elim cfg.warming_ramp [ [] ↦ default_ramp | x ∷ xs ↦ x ∷ xs ]

unfoldable pub effective_full : PlannerConfig → ℕ
unfolding effective_ramp last_or
effective_full cfg =
    if cfg.warming_full == 0 then last_or 0 (effective_ramp cfg) else cfg.warming_full

-- An age below 0 counts as 0, as the truncated difference that it is called with does.
unfoldable pub ramp_value : PlannerConfig → ℕ → ℕ
unfolding nth_or effective_full
ramp_value cfg age_days = nth_or (effective_ramp cfg) (age_days / 7) (effective_full cfg)

-- `(now - since).days`
unfoldable pub age_in_days : ℕ → IpWarmState → ℕ
age_in_days now s = (now - s.warmed_since) / seconds_per_day

unfoldable pub total_cap : PlannerConfig → ℕ → List IpWarmState → ℕ
unfolding ramp_value age_in_days
total_cap cfg now [] = 0
total_cap cfg now (s ∷ states) = ramp_value cfg (age_in_days now s) + total_cap cfg now states

unfoldable pub current_daily_cap : ℕ → Db → ℕ
unfolding total_cap
current_daily_cap now db =
    let cfg = get_planner_config db in
    elim (where_ (λ (s : IpWarmState). s.is_active) db.warm_states) [
      | [] ↦ ramp_value cfg 0
      | s ∷ states ↦ total_cap cfg now (s ∷ states)
    ]

unfoldable pub ensure_ip_warm_state : ℕ → Text → Option Text → Option ℕ → Db → Db
ensure_ip_warm_state now ip pool warmed_since db =
    if any (λ (s : IpWarmState). str_eq s.ip ip) db.warm_states then db else record db {
      warm_states =
          db.warm_states
          ++ record {
            ip = ip;
            pool = pool;
            warmed_since = or_default warmed_since now;
            is_active = true;
          }
            ∷ [];
    }
