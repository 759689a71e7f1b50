-- ===== src/Planner/Runs.antt =====
-- The runs of one recurring campaign and date.
use emailmarketing.Text.{Text}
use emailmarketing.Models.{Campaign, Db, get_campaign}
use emailmarketing.Planner.Engine.{
  Zones, Date, ensure_found, ensure_run, run_exists_for, create_run, no_run, run_of, is_child,
  run_datetime_utc, is_for, run,
}
use emailmarketing.Base.{
  ℕ, ◌==◌, ◌≡◌, refl, Bool, true, false, ◌&&◌, ◌||◌, some, List, [], ◌∷◌, arith, if◌then◌else◌,
  ◌++◌, find, any-append, ◌∙◌, ==_refl, ==→eq, find-holds,
}

find-append :
    (p : Campaign → Bool) (xs ys : List Campaign) (c : Campaign)
    → find p xs ≡ some c
    → find p (xs ++ ys) ≡ some c
unfolding find
find-append p [] ys c h = cc
find-append p (x ∷ xs) ys c h = ground (arith, find-append p xs ys c)

module _ (zones : Zones) (iso : Date → Text) (recurring : ℕ) (d : Date) where
  run_exists-add :
      (rec : Campaign) (t : ℕ) (db : Db)
      → rec.id ≡ recurring
      → run_exists_for zones recurring d db ≡ false
      → run_exists_for zones recurring d (create_run (iso d) rec (some t) db).0
        ≡ is_for zones d (some t)
  unfolding run_exists_for create_run run_of is_child
  run_exists-add rec t db same none_yet =
      any-append
        (λ (c : Campaign). is_child recurring c.parent_campaign_id && is_for zones d c.scheduled_at)
        db.campaigns (run_of (iso d) rec db.next_campaign_id t ∷ [])
      ∙ rw (none_yet, same, ==_refl) (or_false (is_for zones d (some t)))
    where
      or_false : (b : Bool) → (b || false) ≡ b
      or_false true = refl
      or_false false = refl

  ensure_found_lem :
      (rec : Campaign) (db : Db)
      → rec.is_planner ≡ true
      → ensure_found zones iso recurring d (some rec) db ≡ (
          if run_exists_for zones recurring d db
          then (db, no_run)
          else create_run (iso d) rec (run_datetime_utc zones d rec.send_time rec.send_timezone) db)
  unfolding ensure_found
  ensure_found_lem rec db planner = rw planner refl

  still_found :
      (rec : Campaign) (t : ℕ) (db : Db)
      → get_campaign db recurring ≡ some rec
      → get_campaign (create_run (iso d) rec (some t) db).0 recurring ≡ some rec
  unfolding create_run
  still_found rec t db found =
      find-append (λ (c : Campaign). c.id == recurring) db.campaigns
        (run_of (iso d) rec db.next_campaign_id t ∷ []) rec found

  -- The planner task runs every hour. When it has created the run of a date, the next call creates
  -- none if the time of that run falls on the same date in the zone of the settings, near its
  -- start; and otherwise, as a finding, creates another run for the same date.
  pub ensure_run_again :
      (rec : Campaign) (t : ℕ) (db : Db)
      → get_campaign db recurring ≡ some rec
      → rec.is_planner ≡ true
      → run_exists_for zones recurring d db ≡ false
      → run_datetime_utc zones d rec.send_time rec.send_timezone ≡ some t
      → let (db', first) = ensure_run zones iso recurring d db in
        (first ≡ run db.next_campaign_id)
        × ((ensure_run zones iso recurring d db').1
            ≡ (if is_for zones d (some t) then no_run else run db'.next_campaign_id))
  unfolding ensure_run
  ensure_run_again rec t db found planner none_yet at_t =
      rw (found, ensure_found_lem rec db planner, none_yet, at_t)
        (
          unfold create_run in refl,
          rw
              (
                still_found rec t db found,
                ensure_found_lem rec (create_run (iso d) rec (some t) db).0 planner,
                run_exists-add rec t db
                    (==→eq rec.id recurring
                      (find-holds (λ (c : Campaign). c.id == recurring) db.campaigns rec found))
                    none_yet,
                at_t,
              )
              (by_date (is_for zones d (some t)) rec t (create_run (iso d) rec (some t) db).0),
        )
    where
      by_date :
          (b : Bool) (rec : Campaign) (t : ℕ) (db' : Db)
          → (if b then (db', no_run) else create_run (iso d) rec (some t) db').1
            ≡ (if b then no_run else run db'.next_campaign_id)
      by_date true rec t db' = refl
      by_date false rec t db' = unfold create_run in refl
