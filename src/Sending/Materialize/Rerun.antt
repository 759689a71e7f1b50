-- ===== src/Sending/Materialize/Rerun.antt =====
-- A repeated materialization, as on resume.
use emailmarketing.Base.{
  ℕ, ◌≡◌, refl, Bool, true, List, [], ◌∷◌, arith, inl, inr, Bool-cases, All, where_, All-weaken,
  sym, ◌∙◌,
}
use emailmarketing.Models.{Db, Contact, Campaign, CampaignRecipient}
use emailmarketing.CampaignLists.{contains_id}
use emailmarketing.Sending.Materialize.{add_rows, is_target, recount, materialized}
use emailmarketing.Sending.Materialize.Loop.{Loop, start, contact_ids, visit, run_loop, exclusion}
use emailmarketing.Sending.Materialize.Unique.{visit_old, visit_new, run_loop-Tracks, start-Tracks}

-- Every one of the contacts has a row in the ledger of the campaign.
abbrev pub Covered : ℕ → List CampaignRecipient → List Contact → Type 0
Covered campaign_id rs cs =
    All (λ (c : Contact). contains_id c.id (contact_ids campaign_id rs) ≡ true) cs

module _ (db : Db) (campaign : Campaign) (excluded : ℕ → Bool) where
  visit_adds :
      (c : Contact) (l : Loop)
      → contains_id c.id (visit db campaign excluded c l).existing_ids ≡ true
  visit_adds c l = elim (Bool-cases (contains_id c.id l.existing_ids)) [
    | inl old ↦ rw (visit_old db campaign excluded c l old) old
    | inr new ↦ rw (visit_new db campaign excluded c l new).0 (unfold contains_id in ground arith)
  ]

  visit_keeps :
      (c : Contact) (k : ℕ) (l : Loop)
      → contains_id k l.existing_ids ≡ true
      → contains_id k (visit db campaign excluded c l).existing_ids ≡ true
  visit_keeps c k l h = elim (Bool-cases (contains_id c.id l.existing_ids)) [
    | inl old ↦ rw (visit_old db campaign excluded c l old) h
    | inr new ↦ rw (visit_new db campaign excluded c l new).0 (consed h)
  ]
    where
      consed : contains_id k l.existing_ids ≡ true → contains_id k (c.id ∷ l.existing_ids) ≡ true
      consed g = unfold contains_id in ground arith

  run_loop_keeps :
      (cs : List Contact) (k : ℕ) (l : Loop)
      → contains_id k l.existing_ids ≡ true
      → contains_id k (run_loop db campaign excluded cs l).existing_ids ≡ true
  unfolding run_loop
  run_loop_keeps [] k l h = h
  run_loop_keeps (c ∷ cs) k l h =
      run_loop_keeps cs k (visit db campaign excluded c l) (visit_keeps c k l h)

  run_loop-All :
      (cs : List Contact) (l : Loop)
      → All
          (λ (c : Contact).
            contains_id c.id (run_loop db campaign excluded cs l).existing_ids ≡ true)
          cs
  unfolding run_loop
  run_loop-All [] l = tt
  run_loop-All (c ∷ cs) l = (
    run_loop_keeps cs c.id (visit db campaign excluded c l) (visit_adds c l),
    run_loop-All cs (visit db campaign excluded c l),
  )

  -- where every contact has its row, the loop does nothing
  run_loop_idle :
      (cs : List Contact) (l : Loop)
      → All (λ (c : Contact). contains_id c.id l.existing_ids ≡ true) cs
      → run_loop db campaign excluded cs l ≡ l
  unfolding run_loop
  run_loop_idle [] l h = refl
  run_loop_idle (c ∷ cs) l h = rw (visit_old db campaign excluded c l h.0) (run_loop_idle cs l h.1)

-- After materialization every active contact of the pooled lists has a row in the ledger.
pub add_rows-Covered :
    (now : ℕ) (campaign : Campaign) (ids : List ℕ) (db : Db)
    → Covered campaign.id
        (add_rows now campaign ids db).0.recipients
        (where_ (is_target ids) db.contacts)
unfolding add_rows recount
add_rows-Covered now campaign ids db =
    let targets = where_ (is_target ids) db.contacts in
    let ex = exclusion now db campaign in
    let l = run_loop db campaign ex targets (start db campaign.id) in
    All-weaken (λ (c : Contact). contains_id c.id l.existing_ids ≡ true)
      (λ (c : Contact). contains_id c.id (contact_ids campaign.id l.recipients) ≡ true)
      (λ c h.
        sym (
          run_loop-Tracks db campaign ex targets (start db campaign.id) (start-Tracks db campaign)
            c.id)
        ∙ h)
      targets (run_loop-All db campaign ex targets (start db campaign.id))

-- A run over a ledger that has every target adds no row, and reports that it created none.
idle_rows :
    (now : ℕ) (campaign : Campaign) (ids : List ℕ) (db : Db)
    → Covered campaign.id db.recipients (where_ (is_target ids) db.contacts)
    → ((add_rows now campaign ids db).0.recipients ≡ db.recipients)
      × ((add_rows now campaign ids db).1 ≡ materialized 0 0 0)
unfolding add_rows recount start
idle_rows now campaign ids db h =
    let e =
      run_loop_idle db campaign (exclusion now db campaign) (where_ (is_target ids) db.contacts)
        (start db campaign.id) h in
    rw e (refl, refl)

contacts-add_rows :
    (now : ℕ) (campaign : Campaign) (ids : List ℕ) (db : Db)
    → (add_rows now campaign ids db).0.contacts ≡ db.contacts
unfolding add_rows recount
contacts-add_rows now campaign ids db = refl

-- A second materialization over the same contacts and lists, at any later time and whatever the
-- campaign's other fields are by then, changes no row of the ledger and creates none.
pub add_rows_twice :
    (now later : ℕ) (campaign again : Campaign) (ids : List ℕ) (db : Db)
    → again.id ≡ campaign.id
    → let db' = (add_rows now campaign ids db).0 in
      ((add_rows later again ids db').0.recipients ≡ db'.recipients)
      × ((add_rows later again ids db').1 ≡ materialized 0 0 0)
add_rows_twice now later campaign again ids db same =
    let db' = (add_rows now campaign ids db).0 in
    idle_rows later again ids db'
      (rw (same, contacts-add_rows now campaign ids db) (add_rows-Covered now campaign ids db))
