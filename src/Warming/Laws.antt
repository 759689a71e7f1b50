-- ===== src/Warming/Laws.antt =====
-- The cap never falls while the pool stays as it is.
use emailmarketing.Base.{ℕ, zero, suc, ◌≤◌, List, [], ◌∷◌, arith, ◌/◌, where_}
use emailmarketing.Models.{Db, IpWarmState}
use emailmarketing.PlannerConfig.{PlannerConfig, get_planner_config}
use emailmarketing.Warming.{
  nth_or, ramp_value, effective_ramp, effective_full, age_in_days, total_cap, current_daily_cap,
}

-- each week at least the week before, and the full volume at least the last
abbrev pub Rises : List ℕ → ℕ → Type 0
Rises [] full = Unit
Rises (x ∷ []) full = x ≤ full
Rises (x ∷ y ∷ xs) full = (x ≤ y) × Rises (y ∷ xs) full

head-le-nth_or :
    (x : ℕ) (xs : List ℕ) (full i : ℕ) → Rises (x ∷ xs) full → x ≤ nth_or (x ∷ xs) i full
unfolding nth_or
head-le-nth_or x xs full zero h = omega arith
head-le-nth_or x [] full (suc i) h = h
head-le-nth_or x (y ∷ xs) full (suc i) h = omega (arith, head-le-nth_or y xs full i h.1)

Rises-tail : (x : ℕ) (xs : List ℕ) (full : ℕ) → Rises (x ∷ xs) full → Rises xs full
Rises-tail x [] full h = tt
Rises-tail x (y ∷ xs) full h = h.1

nth_or_mono :
    (xs : List ℕ) (full i j : ℕ) → Rises xs full → i ≤ j → nth_or xs i full ≤ nth_or xs j full
unfolding nth_or
nth_or_mono [] full i j h le = omega arith
nth_or_mono (x ∷ xs) full zero j h le = head-le-nth_or x xs full j h
nth_or_mono (x ∷ xs) full (suc i) zero h le = absurd (omega arith)
nth_or_mono (x ∷ xs) full (suc i) (suc j) h le =
    nth_or_mono xs full i j (Rises-tail x xs full h) (omega arith)

abbrev pub RampRises : PlannerConfig → Type 0
RampRises cfg = Rises (effective_ramp cfg) (effective_full cfg)

-- Under a ramp that rises, an address that has warmed longer may send at least as much.
pub ramp_value_mono :
    (cfg : PlannerConfig) (a b : ℕ) → RampRises cfg → a ≤ b → ramp_value cfg a ≤ ramp_value cfg b
unfolding ramp_value
ramp_value_mono cfg a b h le =
    nth_or_mono (effective_ramp cfg) (effective_full cfg) (a / 7) (b / 7) h (omega arith)

total_cap_mono :
    (cfg : PlannerConfig) (now later : ℕ) (states : List IpWarmState)
    → RampRises cfg
    → now ≤ later
    → total_cap cfg now states ≤ total_cap cfg later states
unfolding total_cap
total_cap_mono cfg now later [] h le = omega arith
total_cap_mono cfg now later (s ∷ states) h le = omega (
  arith,
  ramp_value_mono cfg (age_in_days now s) (age_in_days later s) h (ages now later s le),
  total_cap_mono cfg now later states h le,
)
  where
    ages : (now later : ℕ) (s : IpWarmState) → now ≤ later → age_in_days now s ≤ age_in_days later s
    ages now later s le = unfold age_in_days in omega arith

-- Under a ramp that rises, the total cap of the same database never falls as time passes.
pub current_daily_cap_mono :
    (now later : ℕ) (db : Db)
    → RampRises (get_planner_config db)
    → now ≤ later
    → current_daily_cap now db ≤ current_daily_cap later db
unfolding current_daily_cap
current_daily_cap_mono now later db h le =
    go (where_ (λ (s : IpWarmState). s.is_active) db.warm_states)
  where
    go :
        (states : List IpWarmState)
        → (elim states [
          | [] ↦ ramp_value (get_planner_config db) 0
          | s ∷ rest ↦ total_cap (get_planner_config db) now (s ∷ rest)
        ])
          ≤ (elim states [
            | [] ↦ ramp_value (get_planner_config db) 0
            | s ∷ rest ↦ total_cap (get_planner_config db) later (s ∷ rest)
          ])
    go [] = omega arith
    go (s ∷ rest) = total_cap_mono (get_planner_config db) now later (s ∷ rest) h le
