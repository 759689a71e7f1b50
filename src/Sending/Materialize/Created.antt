-- ===== src/Sending/Materialize/Created.antt =====
-- How many recipients a first materialization creates, and what the pages announce beforehand.
use emailmarketing.Suppression.{has_suppression}
use emailmarketing.Sending.Materialize.{Report, materialized}
use emailmarketing.Sending.Materialize.Loop.{start, contact_ids, run_loop, visit, Loop, one_if}
use emailmarketing.CampaignLists.{contains_id}
use emailmarketing.Models.{Contact, Db, Campaign}
use emailmarketing.Base.{
  ℕ, ◌==◌, ◌+◌, ◌≡◌, refl, Bool, false, ◌&&◌, not, List, [], ◌∷◌, arith, any, Distinct-where, subst,
  sym, count-where,
}
use emailmarketing.Base.{count_where, where_, Distinct, All}

abbrev pub same_key : Contact → Contact → Bool
same_key a b = a.id == b.id

-- the primary key of `contacts`
abbrev pub KeyedContacts : Db → Type 0
KeyedContacts db = Distinct same_key db.contacts

module _ (db : Db) (campaign : Campaign) (excluded : ℕ → Bool) where
  -- neither suppressed nor excluded
  abbrev pub is_wanted : Contact → Bool
  is_wanted c = not (has_suppression db c.email) && not (excluded c.id)

  abbrev IsNew : List ℕ → Contact → Type 0
  IsNew ids c = contains_id c.id ids ≡ false

  still-IsNew :
      (k : Contact) (ids : List ℕ) (cs : List Contact)
      → any (same_key k) cs ≡ false
      → All (IsNew ids) cs
      → All (IsNew (k.id ∷ ids)) cs
  unfolding contains_id
  still-IsNew k ids [] d h = tt
  still-IsNew k ids (c ∷ cs) d h =
      (ground (arith, d, h.0), still-IsNew k ids cs (ground (arith, d)) h.1)

  created-visit :
      (c : Contact) (l : Loop)
      → IsNew l.existing_ids c
      → (visit db campaign excluded c l).created ≡ l.created + one_if (is_wanted c)
  unfolding visit
  created-visit c l h = rw h refl

  existing-visit :
      (c : Contact) (l : Loop)
      → IsNew l.existing_ids c
      → (visit db campaign excluded c l).existing_ids ≡ c.id ∷ l.existing_ids
  unfolding visit
  existing-visit c l h = rw h refl

  pub created-run_loop :
      (cs : List Contact) (l : Loop)
      → Distinct same_key cs
      → All (IsNew l.existing_ids) cs
      → (run_loop db campaign excluded cs l).created ≡ l.created + count_where is_wanted cs
  unfolding run_loop count_where
  created-run_loop [] l d h = omega arith
  created-run_loop (c ∷ cs) l d h =
      let rest = created-run_loop cs (visit db campaign excluded c l) d.1 (
        subst (λ ids. All (IsNew ids) cs) (sym (existing-visit c l h.0))
          (still-IsNew c l.existing_ids cs d.0 h.1)) in
      omega (arith, rest, created-visit c l h.0)

All-IsNew : (cs : List Contact) → All (λ (c : Contact). contains_id c.id [] ≡ false) cs
unfolding contains_id
All-IsNew [] = tt
All-IsNew (c ∷ cs) = (refl, All-IsNew cs)

-- what a first run of the loop creates
pub created_first :
    (db : Db) (campaign : Campaign) (excluded : ℕ → Bool) (q : Contact → Bool)
    → KeyedContacts db
    → contact_ids campaign.id db.recipients ≡ []
    → (run_loop db campaign excluded (where_ q db.contacts) (start db campaign.id)).created
      ≡ count_where (λ c. q c && is_wanted db campaign excluded c) db.contacts
unfolding start
created_first db campaign excluded q keyed first = omega (
  arith,
  created-run_loop db campaign excluded (where_ q db.contacts) (start db campaign.id)
      (Distinct-where same_key q db.contacts keyed)
      (subst (λ ids. All (λ (c : Contact). contains_id c.id ids ≡ false) (where_ q db.contacts))
        (sym first) (All-IsNew (where_ q db.contacts))),
  count-where (is_wanted db campaign excluded) q db.contacts,
)

-- the number of rows that a report says were created
abbrev pub created_of : Report → ℕ
created_of (materialized created skipped freq_skipped) = created
created_of _ = 0
