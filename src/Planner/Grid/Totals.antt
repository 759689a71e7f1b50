-- ===== src/Planner/Grid/Totals.antt =====
-- The totals of the grid count every placement once.
use emailmarketing.Planner.{is_cell}
use emailmarketing.Planner.Grid.{cards_in, total, CardData, joined, grid}
use emailmarketing.Models.{Db, PlannerPlacement}
use emailmarketing.Base.{
  ℕ, ◌==◌, ◌+◌, ◌≤◌, ◌≡◌, true, ◌&&◌, List, [], ◌∷◌, arith, inl, inr, if◌then◌else◌, Bool-cases,
  ◌++◌, All,
}

unfoldable pub sum_of : List ℕ → ℕ
sum_of [] = 0
sum_of (n ∷ ns) = n + sum_of ns

-- the cards of all placements, in no cell
unfoldable pub all_cards : ℕ → Db → List PlannerPlacement → List CardData
all_cards now db [] = []
all_cards now db (p ∷ ps) = joined now db p ++ all_cards now db ps

total-append : (xs ys : List CardData) → total (xs ++ ys) ≡ total xs + total ys
unfolding total
total-append [] ys = omega arith
total-append (x ∷ xs) ys = omega (arith, total-append xs ys)

-- a value in its cell, and 0 in every other one
abbrev in_place : ℕ → ℕ → ℕ → ℕ → ℕ → ℕ
in_place v a b w d = if a == w && b == d then v else 0

cell_step :
    (now : ℕ) (db : Db) (w d : ℕ) (p : PlannerPlacement) (ps : List PlannerPlacement)
    → total (cards_in now db w d (p ∷ ps))
      ≡ in_place (total (joined now db p)) p.week p.weekday w d + total (cards_in now db w d ps)
unfolding cards_in
cell_step now db w d p ps = elim (Bool-cases (p.week == w && p.weekday == d)) [
  | inl here ↦ rw here (total-append (joined now db p) (cards_in now db w d ps))
  | inr other ↦ rw other (omega arith)
]

abbrev over_weeks : (ℕ → ℕ) → ℕ
over_weeks f = f 1 + f 2 + f 3 + f 4

abbrev over_days : (ℕ → ℕ) → ℕ
over_days f = f 0 + (f 1 + (f 2 + (f 3 + (f 4 + 0))))

one_week :
    (v a b d : ℕ) → 1 ≤ a → a ≤ 4 → over_weeks (λ w. in_place v a b w d) ≡ (if b == d then v else 0)
one_week v a b d h k = elim (Bool-cases (b == d)) [
  | inl here ↦ rw here (ground (arith, h, k))
  | inr other ↦ rw other (ground arith)
]

one_day : (v b : ℕ) → b ≤ 4 → over_days (λ d. if b == d then v else 0) ≡ v
one_day v b h = ground (arith, h)

abbrev shown : ℕ → Db → List PlannerPlacement → ℕ → ℕ
shown now db ps d = over_weeks (λ w. total (cards_in now db w d ps))

-- a placement adds its cards to the total of its day
day_step :
    (now : ℕ) (db : Db) (p : PlannerPlacement) (ps : List PlannerPlacement) (d : ℕ)
    → 1 ≤ p.week
    → p.week ≤ 4
    → shown now db (p ∷ ps) d
      ≡ (if p.weekday == d then total (joined now db p) else 0) + shown now db ps d
day_step now db p ps d h k = omega (
  arith,
  cell_step now db 1 d p ps,
  cell_step now db 2 d p ps,
  cell_step now db 3 d p ps,
  cell_step now db 4 d p ps,
  one_week (total (joined now db p)) p.week p.weekday d h k,
)

in_bounds : (a b : ℕ) → is_cell a b ≡ true → (1 ≤ a) × (a ≤ 4) × (b ≤ 4)
unfolding is_cell
in_bounds a b h = (ground (arith, h), ground (arith, h), ground (arith, h))

total-all_cards :
    (now : ℕ) (db : Db) (p : PlannerPlacement) (ps : List PlannerPlacement)
    → total (all_cards now db (p ∷ ps)) ≡ total (joined now db p) + total (all_cards now db ps)
unfolding all_cards
total-all_cards now db p ps = total-append (joined now db p) (all_cards now db ps)

none_shown : (now : ℕ) (db : Db) → over_days (shown now db []) ≡ total (all_cards now db [])
unfolding cards_in total all_cards
none_shown now db = omega arith

over_days-shown :
    (now : ℕ) (db : Db) (ps : List PlannerPlacement)
    → All (λ (p : PlannerPlacement). is_cell p.week p.weekday ≡ true) ps
    → over_days (shown now db ps) ≡ total (all_cards now db ps)
over_days-shown now db [] h = none_shown now db
over_days-shown now db (p ∷ ps) h =
    let (low, high, days) = in_bounds p.week p.weekday h.0 in
    omega (
      arith,
      day_step now db p ps 0 low high,
      day_step now db p ps 1 low high,
      day_step now db p ps 2 low high,
      day_step now db p ps 3 low high,
      day_step now db p ps 4 low high,
      one_day (total (joined now db p)) p.weekday days,
      total-all_cards now db p ps,
      over_days-shown now db ps h.1,
    )

-- If every placement is in a cell of the grid, then the totals of the five days add up to the
-- eligible contacts of all placements: each placement is counted in one cell and in one day.
pub sum_of-grid :
    (now : ℕ) (db : Db)
    → All (λ (p : PlannerPlacement). is_cell p.week p.weekday ≡ true) db.placements
    → sum_of (grid now db).day_totals ≡ total (all_cards now db db.placements)
unfolding grid sum_of
sum_of-grid now db h = over_days-shown now db db.placements h
