-- ===== src/Examples/Lifecycle.antt =====
-- Campaigns, the scheduler and the planner.
use emailmarketing.Planner.Runs.{ensure_run_again}
use emailmarketing.Sending.SendOne.Validate.{pool_or}
use emailmarketing.Sending.Ledger.{pending_count}
use emailmarketing.Scheduler.Laws.{finalize_and_repump_lem, completed_in, pending_of_all}
use emailmarketing.Campaigns.Laws.{Sendable, resume-pause, schedule-Sendable}
use emailmarketing.Counters.{update_campaign_row}
use emailmarketing.Examples.Data.{campaign, fresh, world}
use emailmarketing.Text.{codes, is_empty, strip, lstrip, rstrip, is_space}
use emailmarketing.Planner.Engine.{
  Date, Zones, position_for_date, run_exists_for, is_child, weekday, days_before, run_datetime_utc,
  sum_first, hour_and_minute, split_colon, both, read_int, read_digits, zone_of, ensure_run, run,
  is_for, no_run,
}
use emailmarketing.Scheduler.{finalize_and_repump, is_stalled, is_live_key}
use emailmarketing.Models.{Campaign, Db, CampaignStatus, get_campaign}
use emailmarketing.Campaigns.{pause, schedule, set_scheduled, resume}
use emailmarketing.Base.{
  ◌+◌, ◌≡◌, refl, true, false, none, some, [], ◌∷◌, if◌then◌else◌, ◌*◌, ◌/◌, find, All,
  update_where, ◌⊎◌, ◌≢◌, any,
}

schedule-Sendable_example :
    let (db', errors) = schedule (λ t. some t) (codes "x.io" ∷ []) 2000000 campaign fresh in
    ((errors ≡ [])
      × Sendable (codes "x.io" ∷ []) campaign fresh
      × (db' ≡ set_scheduled 2000000 campaign fresh))
    ⊎ ((errors ≢ []) × (db' ≡ fresh))
schedule-Sendable_example =
    schedule-Sendable (λ t. some t) (codes "x.io" ∷ []) 2000000 campaign fresh

abbrev waiting : Campaign
waiting = record campaign { status = CampaignStatus.scheduled; scheduled_at = some 9000000 }

abbrev waiting_db : Db
waiting_db = record fresh { campaigns = waiting ∷ [] }

resume-pause_example :
    let paused_row = record waiting { status = CampaignStatus.paused } in
    let (db', resumed) = resume paused_row (pause waiting waiting_db).0 in
    (resumed ≡ true)
    × (get_campaign db' 7 ≡ some (record waiting { status = CampaignStatus.sending }))
unfolding pause update_campaign_row find update_where
resume-pause_example =
    resume-pause waiting (record waiting { status = CampaignStatus.paused }) waiting_db refl refl
      refl

finalize_and_repump_lem_example :
    let p = finalize_and_repump 1000000 (λ cid. none) [] world.db in
    (p.db ≡ completed_in p.finalized world.db)
    × (p.queue ≡ pending_of_all p.repumped world.db)
    × All (λ cid. pending_count world.db cid ≡ 0) p.finalized
    × All
        (λ cid. (is_stalled 1000000 none ≡ true) × (any (is_live_key 1000000 cid) [] ≡ false))
        p.repumped
finalize_and_repump_lem_example = finalize_and_repump_lem 1000000 (λ cid. none) [] world.db

abbrev monday : Date
monday = record { year = 2026; month = 1; day = 5 }

monday_cell : position_for_date monday ≡ some (1, 0)
unfolding position_for_date weekday days_before sum_first
monday_cell = refl

abbrev zones : Zones
zones = record {
  zone_info = λ name. none;
  app_zone = λ d h m. d.day * 86400 + h * 3600 + m * 60;
  app_date = λ t. record { year = 2026; month = 1; day = t / 86400 };
}

abbrev recurring : Campaign
recurring = record campaign { is_planner = true; status = CampaignStatus.planner }

abbrev planner_db : Db
planner_db = record fresh { campaigns = recurring ∷ []; next_campaign_id = 8 }

ensure_run_again_example :
    let (db', first) = ensure_run zones (λ d. []) 7 monday planner_db in
    (first ≡ run 8)
    × ((ensure_run zones (λ d. []) 7 monday db').1
        ≡ (if is_for zones monday (some 464400) then no_run else run db'.next_campaign_id))
unfolding run_exists_for is_child find run_datetime_utc hour_and_minute split_colon pool_or is_empty
    both read_int read_digits strip lstrip rstrip is_space zone_of
ensure_run_again_example =
    ensure_run_again zones (λ d. []) 7 monday recurring 464400 planner_db refl refl refl refl
