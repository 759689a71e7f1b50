-- ===== src/Planner/Grid.antt =====
-- app/services/planner.py: the grid of four weeks, and its totals. The placements are read by cell,
-- so that the order of the query does not matter. A campaign that a placement names is there, by the
-- foreign key; where it were not, the join has no row.
pub mod Totals
use emailmarketing.Planner.Recurring.{own_lists, eligible_count}
use emailmarketing.PlannerConfig.{get_planner_config}
use emailmarketing.Warming.{current_daily_cap}
use emailmarketing.Sending.SendOne.Validate.{pool_or}
use emailmarketing.Models.{
  Db, Template, PlannerPlacement, get_contact_list, Campaign, get_campaign, get_template,
}
use emailmarketing.Text.{Text, codes}
use emailmarketing.Base.{
  ℕ, zero, suc, ◌==◌, ◌+◌, ◌-◌, ◌≤◌, ◌<◌, ◌≡◌, refl, Bool, true, false, ◌&&◌, ◌||◌, not, Option,
  none, some, List, [], ◌∷◌, arith, inl, inr, if◌then◌else◌, Bool-cases, Option-cases, ◌++◌, ◌*◌,
  ◌/◌, ◌%◌,
}

abbrev pub palette : List Text
palette =
    codes "#2563eb"
    ∷ codes "#16a34a"
    ∷ codes "#db2777"
    ∷ codes "#ea580c"
    ∷ codes "#7c3aed"
    ∷ codes "#0891b2"
    ∷ codes "#ca8a04"
    ∷ codes "#dc2626"
    ∷ codes "#4f46e5"
    ∷ codes "#0d9488"
    ∷ []

unfoldable pub nth_text : List Text → ℕ → Text
nth_text [] i = []
nth_text (t ∷ ts) zero = t
nth_text (t ∷ ts) (suc i) = nth_text ts i

unfoldable pub color_for : ℕ → Text
color_for campaign_id = nth_text palette (campaign_id % 10)

pub record CardData : Type 0 where
  pub placement_id : ℕ
  pub campaign_id : ℕ
  pub name : Text
  pub template_name : Option Text
  pub list_names : List Text
  pub send_time : Option Text
  pub send_timezone : Option Text
  pub eligible : ℕ
  pub color : Text

-- the names of the lists that the campaign is joined with
unfoldable pub names_of : List ℕ → Db → List Text
names_of [] db = []
names_of (l ∷ ls) db =
    let rest = names_of ls db in
    elim (get_contact_list db l) [ none ↦ rest | some cl ↦ cl.name ∷ rest ]

abbrev pub name_of : Option Template → Option Text
name_of none = none
name_of (some t) = some t.name

-- none for a campaign without a template
unfoldable pub template_name_of : Option ℕ → Db → Option Text
template_name_of none db = none
template_name_of (some id) db =
    if id == 0 then none else some (pool_or (name_of (get_template db id)) (codes "—"))

unfoldable pub card : ℕ → Db → PlannerPlacement → Campaign → CardData
card now db placement camp = record {
  placement_id = placement.id;
  campaign_id = camp.id;
  name = camp.name;
  template_name = template_name_of camp.template_id db;
  list_names = names_of (own_lists camp.id db) db;
  send_time = camp.send_time;
  send_timezone = camp.send_timezone;
  eligible = eligible_count now camp.id (get_planner_config db).frequency_interval_days db;
  color = color_for camp.id;
}

-- one row of the join, or none
unfoldable pub joined : ℕ → Db → PlannerPlacement → List CardData
joined now db p = elim (get_campaign db p.campaign_id) [
  | none ↦ []
  | some camp ↦ card now db p camp ∷ []
]

unfoldable pub cards_in : ℕ → Db → ℕ → ℕ → List PlannerPlacement → List CardData
cards_in now db week weekday [] = []
cards_in now db week weekday (p ∷ ps) =
    let rest = cards_in now db week weekday ps in
    if p.week == week && p.weekday == weekday then joined now db p ++ rest else rest

unfoldable pub total : List CardData → ℕ
total [] = 0
total (c ∷ cs) = c.eligible + total cs

pub record Cell : Type 0 where
  pub week : ℕ
  pub weekday : ℕ
  pub cards : List CardData

abbrev pub cell : ℕ → Db → ℕ → ℕ → Cell
cell now db week weekday = record {
  week = week;
  weekday = weekday;
  cards = cards_in now db week weekday db.placements;
}

abbrev pub week_row : ℕ → Db → ℕ → List Cell
week_row now db week =
    cell now db week 0
    ∷ cell now db week 1
    ∷ cell now db week 2
    ∷ cell now db week 3
    ∷ cell now db week 4
    ∷ []

pub record Grid : Type 0 where
  pub matrix : List (List Cell)
  pub day_totals : List ℕ
  pub daily_cap : ℕ
  pub interval : ℕ

-- `sum(matrix[w][wd]["total"] for w in range(4))`
abbrev pub day_total : ℕ → Db → ℕ → ℕ
day_total now db wd =
    total (cell now db 1 wd).cards
    + total (cell now db 2 wd).cards
    + total (cell now db 3 wd).cards
    + total (cell now db 4 wd).cards

unfoldable pub grid : ℕ → Db → Grid
grid now db = record {
  matrix = week_row now db 1 ∷ week_row now db 2 ∷ week_row now db 3 ∷ week_row now db 4 ∷ [];
  day_totals =
      day_total now db 0
      ∷ day_total now db 1
      ∷ day_total now db 2
      ∷ day_total now db 3
      ∷ day_total now db 4
      ∷ [];
  daily_cap = current_daily_cap now db;
  interval = (get_planner_config db).frequency_interval_days;
}
