-- ===== src/Planner/Engine.antt =====
-- app/services/planner_engine.py: the cell of a date, and the runs that it creates. The package
-- zoneinfo is a parameter: a zone gives the UTC time of a local date, hour and minute, and the zone
-- of the settings also the local date of a time. `int` is read on plain decimal digits.
use emailmarketing.CampaignLists.{campaign_list_ids}
use emailmarketing.Campaigns.{add_campaign, bare_campaign}
use emailmarketing.Sending.SendOne.Validate.{pool_or}
use emailmarketing.Models.{
  CampaignList, Db, PlannerPlacement, Campaign, get_campaign, CampaignStatus,
}
use emailmarketing.Text.{Text, is_empty, strip, codes}
use emailmarketing.Base.{
  ℕ, zero, suc, ◌==◌, ◌+◌, ◌-◌, Bool, false, ◌&&◌, ◌||◌, not, Option, none, some, List, [], ◌∷◌,
  if◌then◌else◌, ◌++◌, ◌*◌, ◌/◌, leb, ltb, ◌%◌, any, where_, or_default,
}

pub record Date : Type 0 where
  pub year : ℕ
  pub month : ℕ
  pub day : ℕ

abbrev pub same_date : Date → Date → Bool
same_date a b = a.year == b.year && (a.month == b.month && a.day == b.day)

abbrev pub is_leap : ℕ → Bool
is_leap y = y % 4 == 0 && (not (y % 100 == 0) || y % 400 == 0)

abbrev pub month_lengths : Bool → List ℕ
month_lengths leap =
    31 ∷ (if leap then 29 else 28) ∷ 31 ∷ 30 ∷ 31 ∷ 30 ∷ 31 ∷ 31 ∷ 30 ∷ 31 ∷ 30 ∷ 31 ∷ []

unfoldable pub sum_first : ℕ → List ℕ → ℕ
sum_first zero xs = 0
sum_first (suc n) [] = 0
sum_first (suc n) (x ∷ xs) = x + sum_first n xs

-- the days before the first of the month, from the first of January of the year 1
unfoldable pub days_before : ℕ → ℕ → ℕ
days_before year month =
    let y = year - 1 in
    (y * 365 + y / 4 + y / 400 + sum_first (month - 1) (month_lengths (is_leap year))) - y / 100

-- `d.weekday()`, 0 for Monday
unfoldable pub weekday : Date → ℕ
weekday d = (days_before d.year d.month + d.day + 6) % 7

unfoldable pub position_for_date : Date → Option (ℕ × ℕ)
position_for_date d =
    let wd = weekday d in
    let occurrence = (d.day - 1) / 7 + 1 in
    if ltb 4 wd then none else if ltb 4 occurrence then none else some (occurrence, wd)

-- `text.split(":")`
unfoldable pub split_colon : Text → List Text
split_colon [] = [] ∷ []
split_colon (c ∷ s) =
    let rest = split_colon s in
    if c == b':' then [] ∷ rest else elim rest [ [] ↦ (c ∷ []) ∷ [] | w ∷ ws ↦ (c ∷ w) ∷ ws ]

unfoldable pub read_digits : ℕ → Text → Option ℕ
read_digits n [] = some n
read_digits n (c ∷ s) =
    let rest = read_digits (n * 10 + (c - b'0')) s in
    if leb b'0' c && leb c b'9' then rest else none

-- `int(text)`, or none where it raises
unfoldable pub read_int : Text → Option ℕ
read_int s = let t = strip s in if is_empty t then none else read_digits 0 t

unfoldable pub both : Option ℕ → Option ℕ → ℕ × ℕ
both (some h) (some m) = (h, m)
both (some h) none = (9, 0)
both none m = (9, 0)

unfoldable pub hour_and_minute : List Text → ℕ × ℕ
hour_and_minute (h ∷ m ∷ []) = both (read_int h) (read_int m)
hour_and_minute _ = (9, 0)

abbrev pub Zone : Type 0
Zone = Date → ℕ → ℕ → ℕ

pub record Zones : Type 0 where
  -- `ZoneInfo(name)`, or none where it raises
  pub zone_info : Text → Option Zone
  pub app_zone : Zone
  -- the date of a time in the zone of the settings
  pub app_date : ℕ → Date

-- the zone of a campaign, or that of the settings
unfoldable pub zone_of : Zones → Option Text → Zone
zone_of zones none = zones.app_zone
zone_of zones (some name) =
    if is_empty name then zones.app_zone else or_default (zones.zone_info name) zones.app_zone

-- none where `time(hh, mm)` raises
unfoldable pub run_datetime_utc : Zones → Date → Option Text → Option Text → Option ℕ
run_datetime_utc zones local_date send_time send_tz =
    let (hh, mm) = hour_and_minute (split_colon (pool_or send_time (codes "09:00"))) in
    if ltb hh 24 && ltb mm 60 then some (zone_of zones send_tz local_date hh mm) else none

abbrev pub hours : ℕ → ℕ
hours n = n * 3600

abbrev pub in_window : Zones → Date → ℕ → Bool
in_window zones local_date t =
    let start = zones.app_zone local_date 0 0 in
    leb start (t + hours 18) && leb t (start + hours 42)

-- whether a run is for the date
unfoldable pub is_for : Zones → Date → Option ℕ → Bool
is_for zones local_date none = false
is_for zones local_date (some t) =
    in_window zones local_date t && same_date (zones.app_date t) local_date

unfoldable pub is_child : ℕ → Option ℕ → Bool
is_child recurring none = false
is_child recurring (some parent) = parent == recurring

unfoldable pub run_exists_for : Zones → ℕ → Date → Db → Bool
run_exists_for zones recurring local_date db =
    any
      (λ (c : Campaign).
        is_child recurring c.parent_campaign_id && is_for zones local_date c.scheduled_at)
      db.campaigns

pub data RunResult : Type 0 where
  no_run raised : RunResult
  run : ℕ → RunResult

-- `f"{rec.name} — {local_date.isoformat()}"`; the formatted date is an argument
unfoldable pub run_of : Text → Campaign → ℕ → ℕ → Campaign
run_of date_text rec id send_dt = record (bare_campaign id CampaignStatus.scheduled) {
  name = rec.name ++ (codes " — " ++ date_text);
  subject = rec.subject;
  from_name = rec.from_name;
  from_email = rec.from_email;
  reply_to = rec.reply_to;
  template_id = rec.template_id;
  ip_pool = rec.ip_pool;
  send_time = rec.send_time;
  send_timezone = rec.send_timezone;
  parent_campaign_id = some rec.id;
  scheduled_at = some send_dt;
}

unfoldable pub list_rows : ℕ → List ℕ → List CampaignList
list_rows run_id [] = []
list_rows run_id (l ∷ ls) = record { campaign_id = run_id; list_id = l } ∷ list_rows run_id ls

-- `session.add(run)`, and the lists of the recurring campaign
unfoldable pub create_run : Text → Campaign → Option ℕ → Db → Db × RunResult
create_run date_text rec none db = (db, raised)
create_run date_text rec (some send_dt) db = (
  record (add_campaign (run_of date_text rec db.next_campaign_id send_dt) db) {
    campaign_lists =
        db.campaign_lists ++ list_rows db.next_campaign_id (campaign_list_ids rec.id db);
  },
  run db.next_campaign_id,
)

unfoldable pub ensure_found :
    Zones → (Date → Text) → ℕ → Date → Option Campaign → Db → Db × RunResult
ensure_found zones iso recurring local_date none db = (db, no_run)
ensure_found zones iso recurring local_date (some rec) db =
    if not rec.is_planner
    then (db, no_run)
    else if run_exists_for zones recurring local_date db
    then (db, no_run)
    else create_run (iso local_date) rec
        (run_datetime_utc zones local_date rec.send_time rec.send_timezone) db

unfoldable pub ensure_run : Zones → (Date → Text) → ℕ → Date → Db → Db × RunResult
ensure_run zones iso recurring local_date db =
    ensure_found zones iso recurring local_date (get_campaign db recurring) db

abbrev pub prepend : ℕ → Option (List ℕ) → Option (List ℕ)
prepend id none = none
prepend id (some ids) = some (id ∷ ids)

-- the list comprehension of `dispatch_planner`; none where a call raises, which ends it
unfoldable pub ensure_all : Zones → (Date → Text) → Date → List ℕ → Db → Db × Option (List ℕ)
ensure_all zones iso local_date [] db = (db, some [])
ensure_all zones iso local_date (cid ∷ cids) db =
    let (db', result) = ensure_run zones iso cid local_date db in
    let (db'', created) = ensure_all zones iso local_date cids db' in
    elim result [
      | no_run ↦ (db'', created)
      | raised ↦ (db', none)
      | run id ↦ (db'', prepend id created)
    ]

unfoldable pub placed_campaigns : List PlannerPlacement → List ℕ
placed_campaigns [] = []
placed_campaigns (p ∷ ps) = p.campaign_id ∷ placed_campaigns ps

unfoldable pub dispatch_at :
    Zones → (Date → Text) → Date → Option (ℕ × ℕ) → Db → Db × Option (List ℕ)
dispatch_at zones iso local_date none db = (db, some [])
dispatch_at zones iso local_date (some (week, wd)) db =
    ensure_all zones iso local_date
      (placed_campaigns
        (where_ (λ (p : PlannerPlacement). p.week == week && p.weekday == wd) db.placements))
      db

unfoldable pub dispatch_planner : Zones → (Date → Text) → Date → Db → Db × Option (List ℕ)
dispatch_planner zones iso local_date db =
    dispatch_at zones iso local_date (position_for_date local_date) db
