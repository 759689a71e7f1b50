-- ===== src/Planner/Laws.antt =====
-- The cells of a month, and the placements.
use emailmarketing.Planner.{add_placement, place, is_at, is_cell}
use emailmarketing.Models.{Db, PlannerPlacement}
use emailmarketing.Planner.Engine.{Date, position_for_date, weekday, days_before}
use emailmarketing.Base.{
  ℕ, ◌+◌, ◌-◌, ◌≤◌, ◌≡◌, refl, Bool, true, false, Option, none, some, List, [], ◌∷◌, arith, inl,
  inr, Bool-cases, ◌/◌, ◌%◌, find, sym, All, any, ◌∙◌, All-append, Distinct, ap, Distinct-snoc,
}

weekday_lem : (d : Date) → weekday d ≡ (days_before d.year d.month + d.day + 6) % 7
unfolding weekday
weekday_lem d = refl

in_cell :
    (d : Date) (w wd : ℕ)
    → position_for_date d ≡ some (w, wd)
    → ((d.day - 1) / 7 + 1 ≡ w) × (weekday d ≡ wd)
unfolding position_for_date
in_cell d w wd h = ground arith

same_residue :
    (k a b : ℕ)
    → 1 ≤ a
    → 1 ≤ b
    → (a - 1) / 7 ≡ (b - 1) / 7
    → (k + a + 6) % 7 ≡ (k + b + 6) % 7
    → a ≡ b
same_residue k a b ha hb h1 h2 = omega arith

-- A cell of the grid is one day of a month at most: two dates of the same month at the same
-- position are the same day.
pub position_for_date_injective :
    (a b : Date) (w wd : ℕ)
    → a.year ≡ b.year
    → a.month ≡ b.month
    → 1 ≤ a.day
    → 1 ≤ b.day
    → position_for_date a ≡ some (w, wd)
    → position_for_date b ≡ some (w, wd)
    → a.day ≡ b.day
position_for_date_injective a b w wd y m ha hb pa pb =
    let (oa, va) = in_cell a w wd pa in
    let (ob, vb) = in_cell b w wd pb in
    let same : days_before b.year b.month ≡ days_before a.year a.month = rw (y, m) refl in
    same_residue (days_before a.year a.month) a.day b.day ha hb (omega (arith, oa, ob))
      (sym (weekday_lem a) ∙ va ∙ sym vb ∙ weekday_lem b ∙ ap (λ k. (k + b.day + 6) % 7) same)

abbrev pub same_cell : PlannerPlacement → PlannerPlacement → Bool
same_cell a b = is_at b.campaign_id b.week b.weekday a

-- every placement lies on the grid, and no campaign is placed twice in a cell
abbrev pub IsGrid : Db → Type 0
IsGrid db =
    All (λ (p : PlannerPlacement). is_cell p.week p.weekday ≡ true) db.placements
    × Distinct same_cell db.placements

find-none :
    (p : PlannerPlacement → Bool) (xs : List PlannerPlacement) → find p xs ≡ none → any p xs ≡ false
unfolding find
find-none p [] h = refl
find-none p (x ∷ xs) h = ground (arith, find-none p xs)

place-IsGrid :
    (c w wd : ℕ) (o : Option PlannerPlacement) (db : Db)
    → find (is_at c w wd) db.placements ≡ o
    → is_cell w wd ≡ true
    → IsGrid db
    → IsGrid (place c w wd o db).0
unfolding place
place-IsGrid c w wd (some p) db e cell grid = grid
place-IsGrid c w wd none db e cell grid =
    let row : PlannerPlacement = record {
      id = db.next_placement_id;
      campaign_id = c;
      week = w;
      weekday = wd;
    } in
    (
      All-append (λ (p : PlannerPlacement). is_cell p.week p.weekday ≡ true) db.placements
          (row ∷ []) grid.0 (cell, tt),
      Distinct-snoc same_cell db.placements row grid.1 (find-none (is_at c w wd) db.placements e),
    )

-- Adding a placement keeps the grid: a cell outside it is refused, and a campaign that is already
-- in the cell is not placed again.
pub add_placement-IsGrid : (c w wd : ℕ) (db : Db) → IsGrid db → IsGrid (add_placement c w wd db).0
unfolding add_placement
add_placement-IsGrid c w wd db grid = elim (Bool-cases (is_cell w wd)) [
  | inl on ↦ rw on (place-IsGrid c w wd (find (is_at c w wd) db.placements) db refl on grid)
  | inr off ↦ rw off grid
]
