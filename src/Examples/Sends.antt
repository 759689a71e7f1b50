-- ===== src/Examples/Sends.antt =====
-- The sending of one recipient, and materialization.
use emailmarketing.Sending.Materialize.Counters.{is_processed, recount_counts_processed}
use emailmarketing.Sending.SendOne.Safety.{Sends, send_one-Sends}
use emailmarketing.Sending.Materialize.Loop.{exclusion}
use emailmarketing.Sending.Ledger.{pending_count}
use emailmarketing.Counters.{update_campaign_row}
use emailmarketing.Sending.Materialize.Exclusion.{IsAllowed, add_rows-IsAllowed}
use emailmarketing.Examples.Data.{campaign, env, fresh, world, with_row, token}
use emailmarketing.Models.{Campaign, RecipientStatus}
use emailmarketing.Sending.Materialize.Rerun.{add_rows_twice}
use emailmarketing.Sending.Materialize.{add_rows, recount, materialize_campaign, materialized}
use emailmarketing.Sending.Materialize.Unique.{UniqueRows, materialize-UniqueRows}
use emailmarketing.Sending.SendOne.{send_one}
use emailmarketing.Base.{◌+◌, ◌≡◌, refl, some, [], ◌∷◌, All, count_where, ◌⊎◌, find, update_where}

send_one-Sends_example :
    ((send_one env 1 world).0.outbox ≡ world.outbox) ⊎ Sends env 1 world (send_one env 1 world).0
send_one-Sends_example = send_one-Sends env 1 world

add_rows-IsAllowed_example :
    All
      (IsAllowed fresh campaign (exclusion 1000000 fresh campaign))
      (add_rows 1000000 campaign (1 ∷ []) fresh).0.recipients
add_rows-IsAllowed_example = add_rows-IsAllowed 1000000 campaign (1 ∷ []) fresh tt

materialize-UniqueRows_example : UniqueRows (materialize_campaign 1000000 7 fresh).0
materialize-UniqueRows_example = materialize-UniqueRows 1000000 7 fresh tt

add_rows_twice_example :
    let db' = (add_rows 1000000 campaign (1 ∷ []) fresh).0 in
    ((add_rows 1000060 campaign (1 ∷ []) db').0.recipients ≡ db'.recipients)
    × ((add_rows 1000060 campaign (1 ∷ []) db').1 ≡ materialized 0 0 0)
add_rows_twice_example = add_rows_twice 1000000 1000060 campaign campaign (1 ∷ []) fresh refl

-- one row was sent and none is pending, and the campaign is found with one skipped row
abbrev resumed : Campaign
resumed = record campaign { total_recipients = 1; skipped_count = 1; queued_count = 0 }

recount_counts_processed_example :
    (resumed.skipped_count
      ≡ count_where (is_processed 7) (with_row RecipientStatus.sent (some token)).recipients)
    × (resumed.queued_count ≡ pending_count (with_row RecipientStatus.sent (some token)) 7)
    × (resumed.total_recipients ≡ resumed.queued_count + resumed.skipped_count)
unfolding recount update_campaign_row pending_count count_where find update_where
recount_counts_processed_example =
    recount_counts_processed 7 (with_row RecipientStatus.sent (some token)) resumed refl
