-- ===== src/Examples/Policies.antt =====
-- Pacing, warming, frequency, settings, templates, tokens and addresses.
use emailmarketing.Warming.Laws.{current_daily_cap_mono}
use emailmarketing.Merge.Laws.{Infix, render-has_unsubscribe}
use emailmarketing.RateLimit.Settle.{settle_all_or_none, lacks}
use emailmarketing.Examples.Data.{template, ann}
use emailmarketing.Normalize.{normalize_email}
use emailmarketing.Tokens.{
  read_unsubscribe_token, make_unsubscribe_token, read-make_unsubscribe_token,
}
use emailmarketing.Text.{codes, lstrip, is_empty, is_space, mem}
use emailmarketing.Merge.{
  find_tags, has_unsubscribe, render, scan, match_tag, doubled, ident, after_ident, is_ident, tags,
  build_context,
}
use emailmarketing.PlannerConfig.{
  get_planner_config, merge, set_planner_config, get-set_planner_config,
}
use emailmarketing.Models.{Db, PlannerSettings, empty_db}
use emailmarketing.Warming.{effective_ramp, effective_full, current_daily_cap}
use emailmarketing.Dict.{get}
use emailmarketing.RateLimit.Window.{Call, allowed_count, allowed_in_window}
use emailmarketing.RateLimit.{Bucket, settle, second, available, unit, capacity}
use emailmarketing.Text.{◌==◌ as str_eq}
use emailmarketing.Base.{
  ◌+◌, ◌-◌, ◌≤◌, ◌≡◌, refl, true, none, some, List, [], ◌∷◌, arith, inl, if◌then◌else◌, ◌*◌,
  or_default, not,
}

abbrev bucket : Bucket
bucket = record { key = codes "rl:global"; per_minute = 2 }

abbrev calls : List Call
calls =
    record { now = second; buckets = bucket ∷ [] }
    ∷ record { now = 2 * second; buckets = bucket ∷ [] }
    ∷ []

allowed_in_window_example :
    allowed_count calls [] * unit ≤ capacity bucket + (60 * second - 0) * bucket.per_minute
unfolding get
allowed_in_window_example =
    allowed_in_window bucket 0 (60 * second) calls [] (λ e h. cc)
      (omega arith, (refl, tt), inl refl, (omega arith, (refl, tt), inl refl, omega arith))

settle_all_or_none_example :
    let (store', result) = settle second (bucket ∷ []) [] in
    (available second [] bucket
      ≡ available second store' bucket + (if lacks second [] (bucket ∷ []) then 0 else unit))
    × (result.allowed ≡ not (lacks second [] (bucket ∷ [])))
settle_all_or_none_example = settle_all_or_none second bucket (bucket ∷ []) [] (refl, tt) (inl refl)

abbrev warming : Db
warming = record empty_db {
  warm_states =
      record { ip = codes "10.0.0.1"; pool = none; warmed_since = 0; is_active = true } ∷ [];
}

current_daily_cap_mono_example : current_daily_cap 1000 warming ≤ current_daily_cap 900000 warming
unfolding effective_ramp effective_full get_planner_config merge
current_daily_cap_mono_example =
    current_daily_cap_mono 1000 900000 warming
      (omega arith, (omega arith, (omega arith, omega arith))) (omega arith)

abbrev form : PlannerSettings
form = record {
  frequency_interval_days = some 10;
  warming_ramp = some (1 ∷ 2 ∷ 3 ∷ 4 ∷ []);
  warming_full = none;
  send_rate_per_minute = some 5;
  overflow_policy = none;
}

get-set_planner_config_example :
    let old = get_planner_config empty_db in
    get_planner_config (set_planner_config form empty_db) ≡ record {
      frequency_interval_days = or_default form.frequency_interval_days old.frequency_interval_days;
      warming_ramp = or_default form.warming_ramp old.warming_ramp;
      warming_full = or_default form.warming_full old.warming_full;
      send_rate_per_minute = or_default form.send_rate_per_minute old.send_rate_per_minute;
      overflow_policy = or_default form.overflow_policy old.overflow_policy;
    }
get-set_planner_config_example = get-set_planner_config form empty_db (omega arith, omega arith)

render-has_unsubscribe_example :
    Infix (codes "https://x.io/u/1") (
      render
        (λ t. t)
        template.body
        (build_context ann none none (codes "https://x.io/u/1") [])
        true)
unfolding has_unsubscribe find_tags scan match_tag doubled ident after_ident lstrip is_empty
    is_ident is_space tags mem str_eq
render-has_unsubscribe_example =
    render-has_unsubscribe (λ t. t) template.body ann none none (codes "https://x.io/u/1") [] true
      refl

read-make_unsubscribe_token_example :
    read_unsubscribe_token
      (λ t. t)
      (λ t. some t)
      (make_unsubscribe_token (λ t. t) (λ t. some t) (codes " Ann@X.io"))
    ≡ normalize_email (some (codes " Ann@X.io"))
read-make_unsubscribe_token_example =
    read-make_unsubscribe_token (λ t. t) (λ t. some t) (λ t. refl) (codes " Ann@X.io")
