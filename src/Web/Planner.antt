-- ===== src/Web/Planner.antt =====
-- app/web/planner.py: the handlers that change the planner, up to their commit, and whether they
-- enqueue a run of `run_planner`.
use emailmarketing.Warming.{ensure_ip_warm_state}
use emailmarketing.Sending.SendOne.Message.{non_empty}
use emailmarketing.Planner.{add_placement, move_placement, remove_placement}
use emailmarketing.Planner.Recurring.{
  RecurringFields, create_recurring, delete_recurring, update_recurring,
}
use emailmarketing.Models.{Db, IpWarmState}
use emailmarketing.Text.{◌==◌ as str_eq, Text, strip}
use emailmarketing.Base.{
  ℕ, Bool, true, false, not, Option, none, some, List, update_where, where_, is_some,
}

pub record PlannerReply : Type 0 where
  pub ok : Bool
  pub placement_id : Option ℕ
  pub runs_planner : Bool

unfoldable pub add_placement_page : ℕ → ℕ → ℕ → Db → Db × PlannerReply
add_placement_page campaign_id week weekday db =
    let (db', pid) = add_placement campaign_id week weekday db in
    (db', record { ok = is_some pid; placement_id = pid; runs_planner = true })

unfoldable pub move_placement_page : ℕ → ℕ → ℕ → Db → Db × PlannerReply
move_placement_page placement_id week weekday db =
    let (db', moved) = move_placement placement_id week weekday db in
    (db', record { ok = moved; placement_id = none; runs_planner = true })

unfoldable pub delete_placement_page : ℕ → Db → Db × PlannerReply
delete_placement_page placement_id db =
    let (db', removed) = remove_placement placement_id db in
    (db', record { ok = removed; placement_id = none; runs_planner = false })

abbrev pub with_pool : RecurringFields → RecurringFields
with_pool fields = record fields {
  base = record fields.base { ip_pool = non_empty fields.base.ip_pool };
}

unfoldable pub create_recurring_page : List ℕ → RecurringFields → Db → Db
create_recurring_page list_ids fields db = (create_recurring list_ids (with_pool fields) db).0

-- the form's lists replace the old ones, also where it has none
unfoldable pub update_recurring_page : ℕ → List ℕ → RecurringFields → Db → Db
update_recurring_page campaign_id list_ids fields db =
    (update_recurring campaign_id (some list_ids) (with_pool fields) db).0

unfoldable pub delete_recurring_page : ℕ → Db → Db
delete_recurring_page campaign_id db = (delete_recurring campaign_id db).0

-- `state.warmed_since = since`, where the form has a date that `fromisoformat` reads
unfoldable pub restart_warming : Text → Option ℕ → Db → Db
restart_warming ip none db = db
restart_warming ip (some since) db = record db {
  warm_states =
      update_where (λ (s : IpWarmState). str_eq s.ip ip)
        (λ (s : IpWarmState). record s { warmed_since = since }) db.warm_states;
}

unfoldable pub set_warming_ip : ℕ → Text → Text → Option ℕ → Db → Db
set_warming_ip now ip pool since db =
    restart_warming (strip ip) since
      (ensure_ip_warm_state now (strip ip) (non_empty (some (strip pool))) since db)

unfoldable pub delete_warming_ip : Text → Db → Db
delete_warming_ip ip db = record db {
  warm_states = where_ (λ (s : IpWarmState). not (str_eq s.ip ip)) db.warm_states;
}
