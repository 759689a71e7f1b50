-- ===== src/PlannerConfig.antt =====
-- app/services/planner_config.py: the policy of the planner, one settings row over its defaults.
use emailmarketing.Base.{
  refl, length, ◌≤◌, ℕ, ◌≡◌, Option, none, some, List, [], ◌∷◌, arith, or_default, take, ◌≤◌,
  length,
}
use emailmarketing.Models.{Db, PlannerSettings, OverflowPolicy, hard_stop}

pub record PlannerConfig : Type 0 where
  pub frequency_interval_days : ℕ
  pub warming_ramp : List ℕ
  pub warming_full : ℕ
  pub send_rate_per_minute : ℕ
  pub overflow_policy : OverflowPolicy

abbrev pub default_ramp : List ℕ
default_ramp = 2000 ∷ 5000 ∷ 7000 ∷ 10000 ∷ []

abbrev pub defaults : PlannerConfig
defaults = record {
  frequency_interval_days = 30;
  warming_ramp = default_ramp;
  warming_full = 10000;
  send_rate_per_minute = 25;
  overflow_policy = hard_stop;
}

-- `_merge`
unfoldable pub merge : Option PlannerSettings → PlannerConfig
merge none = defaults
merge (some v) = record {
  frequency_interval_days = or_default v.frequency_interval_days defaults.frequency_interval_days;
  warming_ramp = or_default v.warming_ramp defaults.warming_ramp;
  warming_full = or_default v.warming_full defaults.warming_full;
  send_rate_per_minute = or_default v.send_rate_per_minute defaults.send_rate_per_minute;
  overflow_policy = or_default v.overflow_policy defaults.overflow_policy;
}

unfoldable pub get_planner_config : Db → PlannerConfig
unfolding merge
get_planner_config db = merge db.planner_settings

-- `if "warming_ramp" in cfg and cfg["warming_ramp"]`, cut to four weeks
unfoldable pub clean_ramp : Option (List ℕ) → Option (List ℕ)
clean_ramp none = none
clean_ramp (some []) = none
clean_ramp (some (x ∷ xs)) = some (take 4 (x ∷ xs))

unfoldable pub clean : PlannerSettings → PlannerSettings
unfolding clean_ramp
clean cfg = record cfg { warming_ramp = clean_ramp cfg.warming_ramp }

-- `{**_merge(row.value), **clean}`
unfoldable pub overlay : PlannerConfig → PlannerSettings → PlannerSettings
overlay old new = record {
  frequency_interval_days =
      some (or_default new.frequency_interval_days old.frequency_interval_days);
  warming_ramp = some (or_default new.warming_ramp old.warming_ramp);
  warming_full = some (or_default new.warming_full old.warming_full);
  send_rate_per_minute = some (or_default new.send_rate_per_minute old.send_rate_per_minute);
  overflow_policy = some (or_default new.overflow_policy old.overflow_policy);
}

unfoldable pub set_planner_config : PlannerSettings → Db → Db
unfolding clean overlay merge
set_planner_config cfg db = record db {
  planner_settings = elim db.planner_settings [
    | none ↦ some (clean cfg)
    | some row ↦ some (overlay (merge (some row)) (clean cfg))
  ];
}

-- a ramp of one to four weeks, or none
abbrev pub IsRamp : Option (List ℕ) → Type 0
IsRamp none = Unit
IsRamp (some weeks) = (1 ≤ length weeks) × (length weeks ≤ 4)

whole_ramp : (ramp : Option (List ℕ)) → IsRamp ramp → clean_ramp ramp ≡ ramp
unfolding clean_ramp
whole_ramp none h = refl
whole_ramp (some []) h = absurd (omega (arith, h.0))
whole_ramp (some (a ∷ [])) h = refl
whole_ramp (some (a ∷ b ∷ [])) h = refl
whole_ramp (some (a ∷ b ∷ c ∷ [])) h = refl
whole_ramp (some (a ∷ b ∷ c ∷ d ∷ [])) h = refl
whole_ramp (some (a ∷ b ∷ c ∷ d ∷ e ∷ rest)) h = absurd (omega (arith, h.1))

-- If the ramp of the form has one to four weeks or is left out, then what was set is what is read
-- back, value by value, and a value that the form leaves out keeps what was read before.
pub get-set_planner_config :
    (cfg : PlannerSettings) (db : Db)
    → IsRamp cfg.warming_ramp
    → let old = get_planner_config db in
      get_planner_config (set_planner_config cfg db) ≡ record {
        frequency_interval_days =
            or_default cfg.frequency_interval_days old.frequency_interval_days;
        warming_ramp = or_default cfg.warming_ramp old.warming_ramp;
        warming_full = or_default cfg.warming_full old.warming_full;
        send_rate_per_minute = or_default cfg.send_rate_per_minute old.send_rate_per_minute;
        overflow_policy = or_default cfg.overflow_policy old.overflow_policy;
      }
unfolding get_planner_config set_planner_config
get-set_planner_config cfg db h = ground (arith, whole_ramp cfg.warming_ramp h)
