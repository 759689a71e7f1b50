-- ===== src/Scheduler/Laws.antt =====
-- What is dispatched, finalized and pumped again.
use emailmarketing.Counters.{update_campaign_row}
use emailmarketing.Sending.Ledger.{pending_count, is_sending, is_pending_of, pending_ids, row_ids}
use emailmarketing.Models.{Db, Campaign, get_campaign, is_campaign, CampaignStatus}
use emailmarketing.Scheduler.{
  campaign_ids, dispatch_due_campaigns, Pump, is_due, is_live_key, start_sending, is_stalled,
  finalize, finalize_and_repump, repump, tend_all, tend,
}
use emailmarketing.Base.{
  ℕ, ◌==◌, ◌≡◌, refl, true, false, ◌&&◌, not, Option, List, [], ◌∷◌, arith, inl, inr, Bool-cases,
  where_, any, update_where, All, All-append, ==→eq, subst, count_where, ap, ◌++◌, any-append, sym,
  ◌∙◌,
}

ids_due :
    (now later : ℕ) (cs : List Campaign)
    → campaign_ids (where_ (is_due later) (update_where (is_due now) start_sending cs))
      ≡ campaign_ids (where_ (λ c. is_due later c && not (is_due now c)) cs)
unfolding campaign_ids where_ update_where
ids_due now later [] = refl
ids_due now later (c ∷ cs) = ground (arith, ids_due now later cs, started later c)
  where
    started : (t : ℕ) (c : Campaign) → is_due t (start_sending c) ≡ false
    started t c = unfold is_due in refl

-- A later run of the dispatch takes up exactly the campaigns that were scheduled for a time since
-- the earlier run: none is dispatched twice, and at the same time none at all.
pub dispatch_due_campaigns_again :
    (now later : ℕ) (db : Db)
    → (dispatch_due_campaigns later (dispatch_due_campaigns now db).0).1
      ≡ campaign_ids (where_ (λ c. is_due later c && not (is_due now c)) db.campaigns)
unfolding dispatch_due_campaigns
dispatch_due_campaigns_again now later db = ids_due now later db.campaigns

abbrev pub complete : Campaign → Campaign
complete c = record c { status = CampaignStatus.completed }

-- the database in which just these campaigns are completed
unfoldable pub completed_in : List ℕ → Db → Db
completed_in ids db = record db {
  campaigns = update_where (λ (c : Campaign). any (λ i. i == c.id) ids) complete db.campaigns;
}

-- the pending recipients of these campaigns, in their order
unfoldable pub pending_of_all : List ℕ → Db → List ℕ
pending_of_all [] db = []
pending_of_all (cid ∷ cids) db = pending_ids cid db ++ pending_of_all cids db

complete_one :
    (cid : ℕ) (ids : List ℕ) (cs : List Campaign)
    → update_where
        (λ (c : Campaign). c.id == cid)
        complete
        (update_where (λ (c : Campaign). any (λ i. i == c.id) ids) complete cs)
      ≡ update_where (λ (c : Campaign). any (λ i. i == c.id) (ids ++ cid ∷ [])) complete cs
unfolding update_where
complete_one cid ids [] = refl
complete_one cid ids (c ∷ cs) =
    ground (arith, complete_one cid ids cs, any-append (λ i. i == c.id) ids (cid ∷ []))

complete_none :
    (cs : List Campaign) → update_where (λ (c : Campaign). any (λ i. i == c.id) []) complete cs ≡ cs
unfolding update_where
complete_none [] = refl
complete_none (c ∷ cs) = ap (λ ds. c ∷ ds) (complete_none cs)

completed_more :
    (cid : ℕ) (ids : List ℕ) (d db : Db)
    → d ≡ completed_in ids db
    → update_campaign_row cid complete d ≡ completed_in (ids ++ cid ∷ []) db
unfolding update_campaign_row completed_in
completed_more cid ids d db e =
    ap (update_campaign_row cid complete) e ∙ with_campaigns _ _ (complete_one cid ids db.campaigns)
  where
    with_campaigns :
        (cs ds : List Campaign)
        → cs ≡ ds
        → let a : Db = record db { campaigns = cs } in
          let b : Db = record db { campaigns = ds } in a ≡ b
    with_campaigns cs ds e = rw e refl

complete_nothing : (db : Db) → db ≡ completed_in [] db
unfolding completed_in
complete_nothing db = rw (complete_none db.campaigns) refl

append_nil : (xs : List ℕ) → xs ≡ xs ++ []
append_nil [] = refl
append_nil (x ∷ xs) = ap (λ ys. x ∷ ys) (append_nil xs)

append_assoc : (xs ys zs : List ℕ) → (xs ++ ys) ++ zs ≡ xs ++ (ys ++ zs)
append_assoc [] ys zs = refl
append_assoc (x ∷ xs) ys zs = ap (λ ws. x ∷ ws) (append_assoc xs ys zs)

pending_of_all-snoc :
    (cids : List ℕ) (cid : ℕ) (db : Db)
    → pending_of_all (cids ++ cid ∷ []) db ≡ pending_of_all cids db ++ pending_ids cid db
unfolding pending_of_all
pending_of_all-snoc [] cid db = sym (append_nil (pending_ids cid db))
pending_of_all-snoc (c ∷ cids) cid db =
    ap (λ rest. pending_ids c db ++ rest) (pending_of_all-snoc cids cid db)
    ∙ sym (append_assoc (pending_ids c db) (pending_of_all cids db) (pending_ids cid db))

-- what a run has done so far, from the database and the keys that it started with
pub record Justified (now : ℕ) (last : ℕ → Option ℕ) (keys : List (ℕ × ℕ)) (db : Db) (p : Pump)
    : Type 0 where
  pub same_rows : p.db.recipients ≡ db.recipients
  pub completes : p.db ≡ completed_in p.finalized db
  pub pumps : p.queue ≡ pending_of_all p.repumped db
  pub keeps :
      (cid : ℕ) → any (is_live_key now cid) p.keys ≡ false → any (is_live_key now cid) keys ≡ false
  pub no_pending : All (λ cid. pending_count db cid ≡ 0) p.finalized
  pub was_stalled :
      All
        (λ cid. (is_stalled now (last cid) ≡ true) × (any (is_live_key now cid) keys ≡ false))
        p.repumped

module _ (now : ℕ) (last : ℕ → Option ℕ) (keys : List (ℕ × ℕ)) (db : Db) where
  finalize-Justified :
      (cid : ℕ) (p : Pump)
      → Justified now last keys db p
      → pending_count p.db cid ≡ 0
      → Justified now last keys db (finalize cid p)
  unfolding finalize update_campaign_row pending_count completed_in
  finalize-Justified cid p j none_left = elim (Bool-cases (is_sending (get_campaign p.db cid))) [
    | inr idle ↦ rw idle j
    | inl running ↦ rw running (record {
      same_rows = j.same_rows;
      completes = completed_more cid p.finalized p.db db j.completes;
      pumps = j.pumps;
      keeps = j.keeps;
      no_pending =
          All-append (λ i. pending_count db i ≡ 0) p.finalized (cid ∷ []) j.no_pending
            (subst (λ rs. count_where (is_pending_of cid) rs ≡ 0) j.same_rows none_left, tt);
      was_stalled = j.was_stalled;
    })
  ]

  repump-Justified :
      (cid : ℕ) (p : Pump)
      → Justified now last keys db p
      → is_stalled now (last cid) ≡ true
      → Justified now last keys db (repump now cid p)
  unfolding repump pending_ids
  repump-Justified cid p j stalled = elim (Bool-cases (any (is_live_key now cid) p.keys)) [
    | inl held ↦ rw held j
    | inr free ↦ rw free (record {
      same_rows = j.same_rows;
      completes = j.completes;
      pumps =
          ap (λ q. q ++ pending_ids cid p.db) j.pumps
          ∙ ap (λ rs. pending_of_all p.repumped db ++ row_ids (where_ (is_pending_of cid) rs))
              j.same_rows
          ∙ sym (pending_of_all-snoc p.repumped cid db);
      keeps = λ i h. j.keeps i (ground arith);
      no_pending = j.no_pending;
      was_stalled =
          All-append
            (λ i. (is_stalled now (last i) ≡ true) × (any (is_live_key now i) keys ≡ false))
            p.repumped (cid ∷ []) j.was_stalled ((stalled, j.keeps cid free), tt);
    })
  ]

  tend_all-Justified :
      (cids : List ℕ) (p : Pump)
      → Justified now last keys db p
      → Justified now last keys db (tend_all now last cids p)
  unfolding tend_all tend
  tend_all-Justified [] p j = j
  tend_all-Justified (cid ∷ cids) p j =
      tend_all-Justified cids (tend now last cid p) (tended cid p j)
    where
      tended :
          (cid : ℕ) (p : Pump)
          → Justified now last keys db p
          → Justified now last keys db (tend now last cid p)
      tended cid p j = elim (Bool-cases (pending_count p.db cid == 0)) [
        | inl done ↦ rw (done, tend) (finalize-Justified cid p j (==→eq _ 0 done))
        | inr left ↦ elim (Bool-cases (is_stalled now (last cid))) [
          | inl stalled ↦ rw (left, stalled, tend) (repump-Justified cid p j stalled)
          | inr busy ↦ rw (left, busy, tend) j
        ]
      ]

-- One run changes nothing in the database but that it completes the campaigns that it reports as
-- finalized, and it enqueues exactly the pending recipients of those that it reports as pumped
-- again. A campaign is finalized only if it has no pending row, and pumped again only if it has
-- stalled and no key of an earlier run is live.
pub finalize_and_repump_lem :
    (now : ℕ) (last : ℕ → Option ℕ) (keys : List (ℕ × ℕ)) (db : Db)
    → let p = finalize_and_repump now last keys db in
      (p.db ≡ completed_in p.finalized db)
      × (p.queue ≡ pending_of_all p.repumped db)
      × All (λ cid. pending_count db cid ≡ 0) p.finalized
      × All
          (λ cid. (is_stalled now (last cid) ≡ true) × (any (is_live_key now cid) keys ≡ false))
          p.repumped
unfolding finalize_and_repump completed_in pending_of_all
finalize_and_repump_lem now last keys db =
    let j =
      tend_all-Justified now last keys db
        (campaign_ids
          (where_ (λ (c : Campaign). is_campaign c.status CampaignStatus.sending) db.campaigns))
        (record { db = db; keys = keys; queue = []; finalized = []; repumped = [] })
        (record {
          same_rows = refl;
          completes =
              ap {B = Db} (λ cs. record db { campaigns = cs }) (sym (complete_none db.campaigns));
          pumps = refl;
          keeps = λ i h. h;
          no_pending = tt;
          was_stalled = tt;
        }) in
    (j.completes, j.pumps, j.no_pending, j.was_stalled)
