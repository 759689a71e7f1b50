-- ===== src/Planner.antt =====
-- app/services/planner.py: the placements of recurring campaigns on the grid of four weeks.
pub mod Laws
pub mod Engine
pub mod Runs
pub mod Recurring
pub mod Grid
use emailmarketing.Models.{Db, PlannerPlacement}
use emailmarketing.Base.{
  ℕ, zero, suc, ◌==◌, ◌+◌, ◌-◌, ◌≤◌, ◌<◌, ◌≡◌, refl, Bool, true, false, ◌&&◌, ◌||◌, not, Option,
  none, some, List, [], ◌∷◌, arith, inl, inr, if◌then◌else◌, Bool-cases, Option-cases, ◌++◌, ◌*◌,
  ◌/◌, leb, any, find, where_, update_where,
}

unfoldable pub is_cell : ℕ → ℕ → Bool
is_cell week weekday = leb 1 week && leb week 4 && leb weekday 4

abbrev pub is_at : ℕ → ℕ → ℕ → PlannerPlacement → Bool
is_at campaign week weekday p =
    p.campaign_id == campaign && (p.week == week && p.weekday == weekday)

unfoldable pub place : ℕ → ℕ → ℕ → Option PlannerPlacement → Db → Db × Option ℕ
place campaign week weekday (some p) db = (db, some p.id)
place campaign week weekday none db = (
  record db {
    placements =
        db.placements
        ++ record {
          id = db.next_placement_id;
          campaign_id = campaign;
          week = week;
          weekday = weekday;
        }
          ∷ [];
    next_placement_id = db.next_placement_id + 1;
  },
  some db.next_placement_id,
)

unfoldable pub add_placement : ℕ → ℕ → ℕ → Db → Db × Option ℕ
add_placement campaign week weekday db =
    if is_cell week weekday
    then place campaign week weekday (find (is_at campaign week weekday) db.placements) db
    else (db, none)

unfoldable pub delete_placement : ℕ → Db → Db
delete_placement id db = record db {
  placements = where_ (λ (p : PlannerPlacement). not (p.id == id)) db.placements;
}

-- The second part is `res.rowcount > 0`.
unfoldable pub remove_placement : ℕ → Db → Db × Bool
remove_placement id db =
    (delete_placement id db, any (λ (p : PlannerPlacement). p.id == id) db.placements)

unfoldable pub move_found : ℕ → ℕ → ℕ → Option PlannerPlacement → Db → Db × Bool
move_found id week weekday none db = (db, false)
move_found id week weekday (some p) db =
    if any (λ (q : PlannerPlacement). is_at p.campaign_id week weekday q && not (q.id == id))
      db.placements
    then (delete_placement id db, true)
    else (
      record db {
        placements =
            update_where (λ (q : PlannerPlacement). q.id == id)
              (λ (q : PlannerPlacement). record q { week = week; weekday = weekday }) db.placements;
      },
      true,
    )

unfoldable pub move_placement : ℕ → ℕ → ℕ → Db → Db × Bool
move_placement id week weekday db =
    if is_cell week weekday
    then move_found id week weekday (find (λ (p : PlannerPlacement). p.id == id) db.placements) db
    else (db, false)
