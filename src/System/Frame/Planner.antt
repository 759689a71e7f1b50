-- ===== src/System/Frame/Planner.antt =====
-- The planner and the warming: their edits keep the frame.
use emailmarketing.Web.Planner.{restart_warming}
use emailmarketing.Text.{Text}
use emailmarketing.CampaignLists.{set_campaign_lists}
use emailmarketing.Counters.{update_campaign_row}
use emailmarketing.Models.{Campaign, Db, PlannerPlacement, get_campaign}
use emailmarketing.Warming.{ensure_ip_warm_state}
use emailmarketing.Planner.Engine.{
  create_run, dispatch_at, ensure_all, ensure_found, Zones, Date, ensure_run, run_datetime_utc,
}
use emailmarketing.Planner.Recurring.{
  create_recurring, update_recurring_found, RecurringFields, replace_lists, apply_recurring,
}
use emailmarketing.Planner.{
  add_placement, move_found, move_placement, place, delete_placement, is_at,
}
use emailmarketing.Base.{
  ℕ, ◌==◌, ◌≡◌, refl, Option, none, some, List, [], ◌∷◌, arith, inl, inr, Bool-cases, find,
}
use emailmarketing.Planner.Engine.{RunResult, no_run, raised, run}
use emailmarketing.System.Frame.{Frame, frame_then, same}

place-Frame : (c w d : ℕ) (o : Option PlannerPlacement) (db : Db) → Frame db (place c w d o db).0
unfolding place
place-Frame c w d none db = same
place-Frame c w d (some p) db = same

pub add_placement-Frame : (c w d : ℕ) (db : Db) → Frame db (add_placement c w d db).0
unfolding add_placement
add_placement-Frame c w d db =
    let h = place-Frame c w d (find (is_at c w d) db.placements) db in
    (ground (arith, h.0), ground (arith, h.1), ground (arith, h.2))

move_found-Frame :
    (id w d : ℕ) (o : Option PlannerPlacement) (db : Db) → Frame db (move_found id w d o db).0
unfolding move_found delete_placement
move_found-Frame id w d none db = same
move_found-Frame id w d (some p) db = (ground arith, ground arith, ground arith)

pub move_placement-Frame : (id w d : ℕ) (db : Db) → Frame db (move_placement id w d db).0
unfolding move_placement
move_placement-Frame id w d db =
    let h =
      move_found-Frame id w d (find (λ (p : PlannerPlacement). p.id == id) db.placements) db in
    (ground (arith, h.0), ground (arith, h.1), ground (arith, h.2))

pub create_recurring-Frame :
    (ls : List ℕ) (fs : RecurringFields) (db : Db) → Frame db (create_recurring ls fs db).0
unfolding create_recurring set_campaign_lists
create_recurring-Frame ls fs db = same

pub update_recurring-Frame :
    (id : ℕ) (ls : Option (List ℕ)) (fs : RecurringFields) (o : Option Campaign) (db : Db)
    → Frame db (update_recurring_found id ls fs o db).0
unfolding update_recurring_found
update_recurring-Frame id ls fs none db = same
update_recurring-Frame id ls fs (some c) db = elim (Bool-cases c.is_planner) [
  | inl is ↦ rw is (replaced ls)
  | inr other ↦ rw other same
]
  where
    replaced :
        (o : Option (List ℕ))
        → Frame db (replace_lists id o (update_campaign_row c.id (apply_recurring fs) db))
    replaced none = unfold replace_lists update_campaign_row in same
    replaced (some ids) = unfold replace_lists update_campaign_row set_campaign_lists in same

create_run-Frame :
    (t : Text) (c : Campaign) (o : Option ℕ) (db : Db) → Frame db (create_run t c o db).0
unfolding create_run
create_run-Frame t c none db = same
create_run-Frame t c (some at_time) db = same

ensure-Frame :
    (z : Zones) (iso : Date → Text) (id : ℕ) (d : Date) (o : Option Campaign) (db : Db)
    → Frame db (ensure_found z iso id d o db).0
unfolding ensure_found
ensure-Frame z iso id d none db = same
ensure-Frame z iso id d (some c) db =
    let h = create_run-Frame (iso d) c (run_datetime_utc z d c.send_time c.send_timezone) db in
    (ground (arith, h.0), ground (arith, h.1), ground (arith, h.2))

ensure_all-Frame :
    (z : Zones) (iso : Date → Text) (d : Date) (ids : List ℕ) (db : Db)
    → Frame db (ensure_all z iso d ids db).0
unfolding ensure_all
ensure_all-Frame z iso d [] db = same
ensure_all-Frame z iso d (id ∷ ids) db =
    by_result (ensure_run z iso id d db).1 refl
      (frame_then one (ensure_all-Frame z iso d ids (ensure_run z iso id d db).0))
  where
    one : Frame db (ensure_run z iso id d db).0
    one = unfold ensure_run in ensure-Frame z iso id d (get_campaign db id) db

    by_result :
        (r : RunResult)
        → (ensure_run z iso id d db).1 ≡ r
        → Frame db (ensure_all z iso d ids (ensure_run z iso id d db).0).0
        → Frame db (ensure_all z iso d (id ∷ ids) db).0
    by_result no_run e rest = rw (e, ensure_all) rest
    by_result raised e rest = rw (e, ensure_all) one
    by_result (run i) e rest = rw (e, ensure_all) rest

pub dispatch-Frame :
    (z : Zones) (iso : Date → Text) (d : Date) (o : Option (ℕ × ℕ)) (db : Db)
    → Frame db (dispatch_at z iso d o db).0
unfolding dispatch_at
dispatch-Frame z iso d none db = same
dispatch-Frame z iso d (some (w, wd)) db = ensure_all-Frame z iso d _ db

pub warm-Frame :
    (now : ℕ) (ip : Text) (pool : Option Text) (since : Option ℕ) (db : Db)
    → Frame db (ensure_ip_warm_state now ip pool since db)
unfolding ensure_ip_warm_state
warm-Frame now ip pool since db = (ground arith, ground arith, ground arith)

pub restart-Frame :
    (ip : Text) (since : Option ℕ) (db : Db) → Frame db (restart_warming ip since db)
unfolding restart_warming
restart-Frame ip none db = same
restart-Frame ip (some since) db = same
