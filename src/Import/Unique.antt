-- ===== src/Import/Unique.antt =====
-- The addresses of the contacts stay distinct.
use emailmarketing.ConfigStore.{is_free_provider}
use emailmarketing.Import.Columns.{Mapping}
use emailmarketing.Normalize.{Validator, domain_of}
use emailmarketing.Text.Laws.{eq_iff}
use emailmarketing.Import.{
  Raises, finish_import, contact_emails, Batch, flush_one, insert_contact, those_in, Pending,
  new_contact, apply_fate, flush_batch, flush_loop, import_into_list, pending_emails, ImportCounts,
  append_pending, flush_rest, import_file, import_rows, Fate, Importing, finalize_import,
  import_row, suppressed_emails, batch_size, no_counts,
}
use emailmarketing.Models.{Contact, Db}
use emailmarketing.Import.{invalid, duplicate_file, free_provider, keep}
use emailmarketing.Base.{
  none, some, ℕ, ◌+◌, ◌≡◌, refl, Bool, true, ◌&&◌, ◌||◌, Option, List, [], ◌∷◌, arith, inl, inr,
  Bool-cases, ◌++◌, Distinct, any, where_, Distinct-snoc, ◌∙◌, sym, ap, All, leb, or_default,
  length, some,
}
use emailmarketing.Text.{◌==◌, Text, mem}

-- UNIQUE(email) on `contacts`
abbrev pub same_address_of : Contact → Contact → Bool
same_address_of a b = a.email == b.email

abbrev pub UniqueContacts : Db → Type 0
UniqueContacts db = Distinct same_address_of db.contacts

any-mem :
    (e : Text) (cs : List Contact)
    → any (λ (c : Contact). c.email == e) cs ≡ mem e (contact_emails cs)
unfolding contact_emails mem
any-mem e [] = refl
any-mem e (c ∷ cs) = ground (arith, any-mem e cs)

pub mem-those_in :
    (e : Text) (emails column : List Text)
    → mem e emails ≡ true
    → mem e (those_in emails column) ≡ mem e column
unfolding mem where_
mem-those_in e emails [] h = refl
mem-those_in e emails (x ∷ xs) h = elim (Bool-cases (x == e)) [
  | inl same ↦
      let kept : mem x emails ≡ true = ap (λ t. mem t emails) ((eq_iff x e).0 same) ∙ h in
      rw (kept, same) refl
  | inr differ ↦ elim (Bool-cases (mem x emails)) [
    | inl kept ↦ rw (kept, differ) (mem-those_in e emails xs h)
    | inr dropped ↦ rw (dropped, differ) (mem-those_in e emails xs h)
  ]
]

-- on the addresses of the batch, the set of the loop has those of the contacts so far
abbrev pub Knows : List Text → Batch → Type 0
Knows emails b =
    (e : Text) → mem e emails ≡ true → mem e b.existing ≡ mem e (contact_emails b.db.contacts)

mem-snoc :
    (e : Text) (cs : List Contact) (c : Contact)
    → mem e (contact_emails (cs ++ c ∷ [])) ≡ (c.email == e || mem e (contact_emails cs))
unfolding contact_emails mem
mem-snoc e [] c = refl
mem-snoc e (d ∷ cs) c = ground (arith, mem-snoc e cs c)

cons_agrees :
    (x e : Text) (xs ys : List Text) → mem e xs ≡ mem e ys → mem e (x ∷ xs) ≡ (x == e || mem e ys)
unfolding mem
cons_agrees x e xs ys h = ap (λ v. x == e || v) h

module _ (list_id : ℕ) (suppressed emails : List Text) where
  flush_one-UniqueContacts :
      (p : Pending) (b : Batch)
      → mem p.email emails ≡ true
      → Knows emails b
      → UniqueContacts b.db
      → Knows emails (flush_one list_id suppressed p b)
        × UniqueContacts (flush_one list_id suppressed p b).db
  unfolding flush_one insert_contact
  flush_one-UniqueContacts p b here knows unique = elim (Bool-cases (mem p.email suppressed)) [
    | inl out ↦ rw out (knows, unique)
    | inr free ↦ elim (Bool-cases (mem p.email b.existing)) [
      | inl old ↦ rw (free, old) (knows, unique)
      | inr new ↦
          rw (free, new)
            (
              (λ e h.
                  cons_agrees p.email e b.existing (contact_emails b.db.contacts) (knows e h)
                  ∙ sym (mem-snoc e b.db.contacts (new_contact list_id b.db p))),
              Distinct-snoc same_address_of b.db.contacts (new_contact list_id b.db p) unique
                  (any-mem p.email b.db.contacts ∙ sym (knows p.email here) ∙ new),
            )
    ]
  ]

  flush_loop-UniqueContacts :
      (ps : List Pending) (b : Batch)
      → All (λ (p : Pending). mem p.email emails ≡ true) ps
      → Knows emails b
      → UniqueContacts b.db
      → UniqueContacts (flush_loop list_id suppressed ps b).db
  unfolding flush_loop
  flush_loop-UniqueContacts [] b here knows unique = unique
  flush_loop-UniqueContacts (p ∷ ps) b here knows unique =
      let (knows', unique') = flush_one-UniqueContacts p b here.0 knows unique in
      flush_loop-UniqueContacts ps (flush_one list_id suppressed p b) here.1 knows' unique'

pub own_emails :
    (ps : List Pending) (emails : List Text)
    → ((e : Text) → mem e (pending_emails ps) ≡ true → mem e emails ≡ true)
    → All (λ (p : Pending). mem p.email emails ≡ true) ps
unfolding pending_emails mem
own_emails [] emails h = tt
own_emails (p ∷ ps) emails h = (
  h p.email (ground (arith, eq_iff p.email p.email)),
  own_emails ps emails (λ e m. h e (ground arith)),
)

flush_batch-UniqueContacts :
    (list_id : ℕ) (ps : List Pending) (db : Db) (counts : ImportCounts)
    → UniqueContacts db
    → UniqueContacts (flush_batch list_id ps db counts).0
unfolding flush_batch
flush_batch-UniqueContacts list_id ps db counts unique =
    let emails = pending_emails ps in
    flush_loop-UniqueContacts list_id (those_in emails (suppressed_emails db.suppressions)) emails
      ps
      (record { db = db; existing = those_in emails (contact_emails db.contacts); counts = counts })
      (own_emails ps emails (λ e m. m))
      (λ e h. mem-those_in e emails (contact_emails db.contacts) h) unique

apply_fate-UniqueContacts :
    (raises : Raises) (list_id : ℕ) (fate : Fate) (s : Importing)
    → UniqueContacts s.db
    → UniqueContacts (apply_fate raises list_id fate s).db
unfolding apply_fate append_pending
apply_fate-UniqueContacts raises list_id invalid s unique = unique
apply_fate-UniqueContacts raises list_id duplicate_file s unique = unique
apply_fate-UniqueContacts raises list_id (free_provider email) s unique = unique
apply_fate-UniqueContacts raises list_id (keep p) s unique =
    elim (Bool-cases (leb batch_size (length (s.pending ++ p ∷ [])))) [
      | inr room ↦ rw room unique
      | inl full ↦ elim (Bool-cases (raises s.db (s.pending ++ p ∷ []))) [
        | inl raised ↦ rw (full, raised) unique
        | inr done ↦
            rw (full, done)
              (flush_batch-UniqueContacts list_id (s.pending ++ p ∷ []) s.db s.counts unique)
      ]
    ]

module _ (validator : Validator) (raises : Raises) (free : Text → Bool) (list_id : ℕ) where
  import_rows-UniqueContacts :
      (colnames : List Text) (colmap : Mapping) (rows : List (List Text)) (s : Importing)
      → UniqueContacts s.db
      → UniqueContacts (import_rows validator raises free list_id colnames colmap rows s).db
  unfolding import_rows import_row
  import_rows-UniqueContacts colnames colmap [] s h = h
  import_rows-UniqueContacts colnames colmap (raw ∷ rows) s h =
      import_rows-UniqueContacts colnames colmap rows _ (
        apply_fate-UniqueContacts raises list_id _
          (record s { counts = record s.counts { total_rows = s.counts.total_rows + 1 } }) h)

  flush_rest-UniqueContacts :
      (s : Importing)
      → UniqueContacts s.db
      → UniqueContacts (flush_rest validator raises free list_id s).0
  unfolding flush_rest
  flush_rest-UniqueContacts s h = by_pending s.pending refl
    where
      by_pending :
          (ps : List Pending)
          → s.pending ≡ ps
          → UniqueContacts (flush_rest validator raises free list_id s).0
      by_pending [] e = rw (e, flush_rest) h
      by_pending (p ∷ ps) e =
          rw (e, flush_rest)
            (elim (Bool-cases (raises s.db (p ∷ ps))) [
              | inl raised ↦ rw raised h
              | inr done ↦ rw done (flush_batch-UniqueContacts list_id (p ∷ ps) s.db s.counts h)
            ])

-- An import never creates a second contact for an address, whether the address is twice in the
-- file, in two batches, or already on another list.
pub import_into_list-UniqueContacts :
    (validator : Validator) (raises : Raises) (enabled : Bool) (patterns : List Text) (list_id : ℕ)
    (rows : List (List Text)) (override : Option Mapping) (filter : Option Bool) (db : Db)
    → UniqueContacts db
    → UniqueContacts
        (import_into_list validator raises enabled patterns list_id rows override filter db).0
unfolding import_into_list import_file finish_import finalize_import
import_into_list-UniqueContacts validator raises enabled patterns list_id [] override filter db h =
    h
import_into_list-UniqueContacts validator raises enabled patterns list_id (first ∷ rest) override
      filter db h =
    let free : Text → Bool =
      λ email. or_default filter enabled && is_free_provider (domain_of email) patterns in
    finished (flush_rest validator raises free list_id _) (
      flush_rest-UniqueContacts validator raises free list_id _ (
        import_rows-UniqueContacts validator raises free list_id _ _ _
          (record { db = db; seen = []; pending = []; counts = no_counts }) h))
  where
    finished :
        (r : Db × Option ImportCounts)
        → UniqueContacts r.0
        → UniqueContacts (finish_import list_id r).0
    finished (d, none) h = h
    finished (d, some counts) h = h
