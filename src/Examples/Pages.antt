-- ===== src/Examples/Pages.antt =====
-- What the pages announce, the verification of lists, and the outer interfaces.
use emailmarketing.Sending.SendOne.Message.{non_empty}
use emailmarketing.Api.Status.{
  campaign_status, require_api_key, guarded, reply_of, campaign_status-opens,
}
use emailmarketing.Planner.Grid.{grid, total}
use emailmarketing.Planner.Grid.Totals.{sum_of, all_cards, sum_of-grid}
use emailmarketing.Planner.{is_cell}
use emailmarketing.Verify.Cache.{IsFaithful}
use emailmarketing.Verify.Batch.{results_of, direct_result, verify_batch-direct_result}
use emailmarketing.Planner.Recurring.Laws.{eligible_count-created}
use emailmarketing.Webhook.Parse.Laws.{parse_event-Carries}
use emailmarketing.Campaigns.Presend.Laws.{presend_summary-created}
use emailmarketing.PlannerConfig.{get_planner_config}
use emailmarketing.Campaigns.Presend.{presend_summary}
use emailmarketing.Planner.Recurring.{eligible_count}
use emailmarketing.Webhook.{PostalWebhookEvent}
use emailmarketing.Normalize.{normalize_email, validate_syntax, checked}
use emailmarketing.Sending.Materialize.{add_rows}
use emailmarketing.Sending.Materialize.Created.{created_of}
use emailmarketing.CampaignLists.{list_ids}
use emailmarketing.Web.{pause_campaign, change_found}
use emailmarketing.Api.Keys.{KeyTable, verify_api_key, verify_nonempty, request_key, ApiKey, opens}
use emailmarketing.Examples.Data.{token, ann, campaign, fresh}
use emailmarketing.Text.{
  Text, codes, is_empty, strip, lower, lower_char, lstrip, rstrip, is_space, contains,
}
use emailmarketing.Dict.{get}
use emailmarketing.Sending.Materialize.Loop.{contact_ids}
use emailmarketing.Models.{Campaign, Db, CampaignStatus}
use emailmarketing.Webhook.Parse.{object, string, Members, member, no_members, lookup, parse_event}
use emailmarketing.Web.Laws.{pausing, request, request_failed}
use emailmarketing.Verify.{Resolver, records, Caches, verify_batch, cached_in}
use emailmarketing.Import.{accepted}
use emailmarketing.Text.{◌==◌ as str_eq}
use emailmarketing.Base.{◌≡◌, refl, true, false, none, some, [], ◌∷◌, inr, find, where_, map}

abbrev recurring : Campaign
recurring = record campaign { is_planner = true; status = CampaignStatus.planner }

abbrev planner_run : Campaign
planner_run = record campaign { id = 8; parent_campaign_id = some 7; list_id = none }

abbrev planner_db : Db
planner_db = record fresh {
  campaigns = recurring ∷ planner_run ∷ [];
  campaign_lists = record { campaign_id = 7; list_id = 1 } ∷ [];
}

eligible_count-created_example :
    created_of (add_rows 1000000 planner_run (1 ∷ []) planner_db).1
    ≡ eligible_count 1000000 7 (get_planner_config planner_db).frequency_interval_days planner_db
unfolding contact_ids list_ids where_
eligible_count-created_example =
    eligible_count-created 1000000 planner_run 7 1 [] planner_db (refl, (refl, tt)) refl refl refl

presend_summary-created_example :
    created_of (add_rows 1000000 campaign (1 ∷ []) fresh).1
    ≡ (presend_summary (λ t. some t) (codes "x.io" ∷ []) 100 campaign fresh).recipients
unfolding contact_ids
presend_summary-created_example =
    presend_summary-created (λ t. some t) (codes "x.io" ∷ []) 100 1000000 campaign 1 fresh
      (refl, (refl, tt)) refl refl refl

abbrev resolver : Resolver
resolver = record { mx = λ d. records 1; a = λ d. records 0 }

abbrev cold : Caches
cold = record { mem = []; redis = some [] }

verify_batch-direct_result_example :
    (results_of
        (λ t. some t)
        resolver
        (verify_batch (λ t. some t) (λ t. codes "bad") resolver (ann ∷ codes "no" ∷ []) cold).1
      ≡ map (direct_result (λ t. some t) resolver) (ann ∷ codes "no" ∷ []))
    × IsFaithful resolver
        (verify_batch (λ t. some t) (λ t. codes "bad") resolver (ann ∷ codes "no" ∷ []) cold).0
unfolding get cached_in normalize_email strip lower lower_char lstrip rstrip is_space is_empty
    contains accepted validate_syntax checked
verify_batch-direct_result_example =
    verify_batch-direct_result (λ t. some t) resolver (λ t. codes "bad") (ann ∷ codes "no" ∷ [])
      cold ((λ d s e. cc), (λ d v e. cc)) ((λ ok. (ann, refl, refl, refl)), ((λ ok. cc), tt))

abbrev keys : KeyTable
keys = record {
  rows =
      record {
        id = 1;
        name = codes "a";
        key_hash = codes "k";
        is_active = true;
        last_used_at = none;
      }
      ∷ record {
        id = 2;
        name = codes "b";
        key_hash = codes "k";
        is_active = true;
        last_used_at = none;
      }
      ∷ [];
  next_id = 3;
}

-- a bounce names the original message only
abbrev message_of : Text → Members
message_of t = member (codes "token") (string t) no_members

abbrev payload_members : Members
payload_members = member (codes "original_message") (object (message_of token)) no_members

abbrev bounce_body : Members
bounce_body =
    member (codes "event") (string (codes "MessageBounced"))
      (member (codes "payload") (object payload_members) no_members)

parse_event-Carries_example :
    (event : PostalWebhookEvent) × (parse_event (λ j. []) (λ t. none) 1000000 bounce_body
      ≡ some event)
    × (event.message_token ≡ some token)
unfolding lookup is_empty str_eq
parse_event-Carries_example =
    parse_event-Carries (λ j. []) (λ t. none) 1000000 bounce_body token
      (record {
        payload = payload_members;
        message = message_of token;
        key = codes "original_message";
        in_body = refl;
        in_payload = refl;
        in_message = refl;
        is_text = refl;
        by_key = inr (refl, refl);
      })

request_failed_example : (request pausing 9 fresh).0 ≡ fresh
unfolding request pause_campaign change_found find
request_failed_example = request_failed pausing 9 fresh refl

abbrev placed_db : Db
placed_db = record planner_db {
  placements =
      record { id = 1; campaign_id = 7; week = 2; weekday = 0 }
      ∷ record { id = 2; campaign_id = 7; week = 4; weekday = 4 }
      ∷ [];
}

sum_of-grid_example :
    sum_of (grid 1000000 placed_db).day_totals
    ≡ total (all_cards 1000000 placed_db placed_db.placements)
unfolding is_cell
sum_of-grid_example = sum_of-grid 1000000 placed_db (refl, (refl, tt))

campaign_status-opens_example :
    (plaintext : Text) × (k : ApiKey) × (request_key (some (codes "k")) [] ≡ some plaintext)
    × (is_empty plaintext ≡ false)
    × (find (opens (λ t. t) plaintext) keys.rows ≡ some k)
    × (opens (λ t. t) plaintext k ≡ true)
unfolding campaign_status require_api_key request_key non_empty verify_api_key verify_nonempty
    guarded reply_of is_empty find str_eq
campaign_status-opens_example =
    campaign_status-opens (λ t. t) 1000000 (some (codes "k")) [] 7 fresh keys (λ e. cc)
