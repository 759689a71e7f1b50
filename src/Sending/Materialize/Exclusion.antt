-- ===== src/Sending/Materialize/Exclusion.antt =====
-- Who is left out: suppressed addresses, and contacts inside the frequency interval.
use emailmarketing.Sending.Materialize.{add_rows, recount, is_target}
use emailmarketing.CampaignLists.{contains_id}
use emailmarketing.Base.{
  ℕ, ◌≡◌, Bool, false, some, List, [], ◌∷◌, arith, inl, inr, Bool-cases, All, ap, All-append, sym,
  where_, ◌∙◌,
}
use emailmarketing.Models.{Db, Contact, Campaign, CampaignRecipient, RecipientStatus}
use emailmarketing.Suppression.{has_suppression}
use emailmarketing.Sending.Materialize.Loop.{
  Loop, start, new_row, status_for, visit, run_loop, exclusion,
}
use emailmarketing.Sending.Materialize.Unique.{row_of, visit_old, visit_new}

module _ (db : Db) (campaign : Campaign) (excluded : ℕ → Bool) where
  -- A pending row of the campaign is for an address that is not suppressed, and for a contact that
  -- the frequency rule does not exclude.
  abbrev pub IsAllowed : CampaignRecipient → Type 0
  IsAllowed r =
      r.campaign_id ≡ campaign.id
      → r.status ≡ RecipientStatus.pending
      → (has_suppression db r.email_snapshot ≡ false)
        × ((k : ℕ) → r.contact_id ≡ some k → excluded k ≡ false)

  new_row-IsAllowed :
      (id : ℕ) (c : Contact)
      → IsAllowed (new_row campaign id c (status_for (has_suppression db c.email) (excluded c.id)))
  unfolding new_row status_for
  new_row-IsAllowed id c same pending =
      (ground arith, λ k e. ap excluded (sym (unwrap k e)) ∙ ground arith)
    where
      unwrap : (k : ℕ) → some c.id ≡ some k → c.id ≡ k
      unwrap k e = cc

  visit-IsAllowed :
      (c : Contact) (l : Loop)
      → All IsAllowed l.recipients
      → All IsAllowed (visit db campaign excluded c l).recipients
  visit-IsAllowed c l h = elim (Bool-cases (contains_id c.id l.existing_ids)) [
    | inl old ↦ rw (visit_old db campaign excluded c l old) h
    | inr new ↦ rw (visit_new db campaign excluded c l new).1 (
        All-append IsAllowed l.recipients (row_of db campaign excluded c l ∷ []) h
          (new_row-IsAllowed l.next_id c, tt))
  ]

  run_loop-IsAllowed :
      (cs : List Contact) (l : Loop)
      → All IsAllowed l.recipients
      → All IsAllowed (run_loop db campaign excluded cs l).recipients
  unfolding run_loop
  run_loop-IsAllowed [] l h = h
  run_loop-IsAllowed (c ∷ cs) l h =
      run_loop-IsAllowed cs (visit db campaign excluded c l) (visit-IsAllowed c l h)

-- The first enforcement of the suppression list. If the pending rows that the campaign has are for
-- allowed addresses and contacts, as those of an empty ledger are, then so are the pending rows
-- after materialization: no suppressed address and no contact inside its frequency interval gets a
-- pending row.
pub add_rows-IsAllowed :
    (now : ℕ) (campaign : Campaign) (ids : List ℕ) (db : Db)
    → All (IsAllowed db campaign (exclusion now db campaign)) db.recipients
    → All
        (IsAllowed db campaign (exclusion now db campaign))
        (add_rows now campaign ids db).0.recipients
unfolding add_rows recount start
add_rows-IsAllowed now campaign ids db h =
    run_loop-IsAllowed db campaign (exclusion now db campaign) (where_ (is_target ids) db.contacts)
      (start db campaign.id) h
