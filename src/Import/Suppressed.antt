-- ===== src/Import/Suppressed.antt =====
-- An import adds no suppressed address.
use emailmarketing.ConfigStore.{is_free_provider}
use emailmarketing.Import.Unique.{own_emails, mem-those_in}
use emailmarketing.Import.Columns.{Mapping}
use emailmarketing.Text.Laws.{eq_iff}
use emailmarketing.Normalize.{Validator, domain_of}
use emailmarketing.Models.{Db, Contact, Suppression}
use emailmarketing.Suppression.{has_suppression}
use emailmarketing.Import.{
  Raises, finish_import, invalid, duplicate_file, free_provider, keep, contact_emails,
  import_into_list, apply_fate, flush_batch, import_file, Importing, Pending, append_pending,
  finalize_import, flush_loop, flush_one, import_rows, suppressed_emails, Batch, Fate, ImportCounts,
  flush_rest, import_row, insert_contact, pending_emails, those_in, batch_size, new_contact,
  no_counts,
}
use emailmarketing.Base.{
  none, some, ℕ, ◌≡◌, refl, Bool, true, false, ◌&&◌, ◌||◌, Option, List, [], ◌∷◌, arith, inl, inr,
  Bool-cases, ◌++◌, ◌⊎◌, All, All-weaken, any, leb, or_default, ◌+◌, All-append, ap, length, ◌∙◌,
  sym, subst, some,
}
use emailmarketing.Text.{◌==◌, Text, mem}

any-suppressed :
    (e : Text) (ss : List Suppression)
    → any (λ (s : Suppression). s.email == e) ss ≡ mem e (suppressed_emails ss)
unfolding suppressed_emails mem
any-suppressed e [] = refl
any-suppressed e (s ∷ ss) = ap (λ b. s.email == e || b) (any-suppressed e ss)

has_suppression-mem :
    (db : Db) (e : Text) → has_suppression db e ≡ mem e (suppressed_emails db.suppressions)
unfolding has_suppression
has_suppression-mem db e = any-suppressed e db.suppressions

module _ (db0 : Db) where
  -- an address that is not suppressed, or that had a contact already
  abbrev pub IsWelcome : Contact → Type 0
  IsWelcome c =
      (has_suppression db0 c.email ≡ false) ⊎ (mem c.email (contact_emails db0.contacts) ≡ true)

  abbrev pub Clean : Db → Type 0
  Clean db = (db.suppressions ≡ db0.suppressions) × All IsWelcome db.contacts

  module _ (list_id : ℕ) (emails : List Text) where
    flush_one-Clean :
        (p : Pending) (b : Batch)
        → mem p.email emails ≡ true
        → Clean b.db
        → Clean (flush_one list_id (those_in emails (suppressed_emails db0.suppressions)) p b).db
    unfolding flush_one insert_contact
    flush_one-Clean p b here clean =
        elim (Bool-cases (mem p.email (those_in emails (suppressed_emails db0.suppressions)))) [
          | inl out ↦ rw out clean
          | inr free ↦ elim (Bool-cases (mem p.email b.existing)) [
            | inl old ↦ rw (free, old) clean
            | inr new ↦
                rw (free, new)
                  (
                    clean.0,
                    All-append IsWelcome b.db.contacts (new_contact list_id b.db p ∷ []) clean.1 (
                      inl (
                          has_suppression-mem db0 p.email
                          ∙ sym (
                              mem-those_in p.email emails (suppressed_emails db0.suppressions) here)
                          ∙ free),
                      tt,
                    ),
                  )
          ]
        ]

    flush_loop-Clean :
        (ps : List Pending) (b : Batch)
        → All (λ (p : Pending). mem p.email emails ≡ true) ps
        → Clean b.db
        → Clean (flush_loop list_id (those_in emails (suppressed_emails db0.suppressions)) ps b).db
    unfolding flush_loop
    flush_loop-Clean [] b here clean = clean
    flush_loop-Clean (p ∷ ps) b here clean =
        flush_loop-Clean ps
          (flush_one list_id (those_in emails (suppressed_emails db0.suppressions)) p b) here.1
          (flush_one-Clean p b here.0 clean)

  flush_batch-Clean :
      (list_id : ℕ) (ps : List Pending) (db : Db) (counts : ImportCounts)
      → Clean db
      → Clean (flush_batch list_id ps db counts).0
  unfolding flush_batch
  flush_batch-Clean list_id ps db counts clean =
      let b : Batch = record {
        db = db;
        existing = those_in (pending_emails ps) (contact_emails db.contacts);
        counts = counts;
      } in
      subst
        (λ column.
          Clean
            (flush_loop list_id (those_in (pending_emails ps) (suppressed_emails column)) ps b).db)
        (sym clean.0)
        (flush_loop-Clean list_id (pending_emails ps) ps b
          (own_emails ps (pending_emails ps) (λ e m. m)) clean)

  apply_fate-Clean :
      (raises : Raises) (list_id : ℕ) (fate : Fate) (s : Importing)
      → Clean s.db
      → Clean (apply_fate raises list_id fate s).db
  unfolding apply_fate append_pending
  apply_fate-Clean raises list_id invalid s clean = clean
  apply_fate-Clean raises list_id duplicate_file s clean = clean
  apply_fate-Clean raises list_id (free_provider email) s clean = clean
  apply_fate-Clean raises list_id (keep p) s clean =
      elim (Bool-cases (leb batch_size (length (s.pending ++ p ∷ [])))) [
        | inr room ↦ rw room clean
        | inl full ↦ elim (Bool-cases (raises s.db (s.pending ++ p ∷ []))) [
          | inl raised ↦ rw (full, raised) clean
          | inr done ↦
              rw (full, done) (flush_batch-Clean list_id (s.pending ++ p ∷ []) s.db s.counts clean)
        ]
      ]

  module _ (validator : Validator) (raises : Raises) (free : Text → Bool) (list_id : ℕ) where
    import_rows-Clean :
        (colnames : List Text) (colmap : Mapping) (rows : List (List Text)) (s : Importing)
        → Clean s.db
        → Clean (import_rows validator raises free list_id colnames colmap rows s).db
    unfolding import_rows import_row
    import_rows-Clean colnames colmap [] s h = h
    import_rows-Clean colnames colmap (raw ∷ rows) s h = import_rows-Clean colnames colmap rows _ (
        apply_fate-Clean raises list_id _
          (record s { counts = record s.counts { total_rows = s.counts.total_rows + 1 } }) h)

    flush_rest-Clean :
        (s : Importing) → Clean s.db → Clean (flush_rest validator raises free list_id s).0
    flush_rest-Clean s h = by_pending s.pending refl
      where
        by_pending :
            (ps : List Pending)
            → s.pending ≡ ps
            → Clean (flush_rest validator raises free list_id s).0
        by_pending [] e = unfold flush_rest in rw e h
        by_pending (p ∷ ps) e =
            unfold flush_rest in
            rw e (elim (Bool-cases (raises s.db (p ∷ ps))) [
              | inl raised ↦ rw raised h
              | inr done ↦ rw done (flush_batch-Clean list_id (p ∷ ps) s.db s.counts h)
            ])

own_contacts :
    (cs : List Contact) (emails : List Text)
    → ((e : Text) → mem e (contact_emails cs) ≡ true → mem e emails ≡ true)
    → All (λ (c : Contact). mem c.email emails ≡ true) cs
unfolding contact_emails mem
own_contacts [] emails h = tt
own_contacts (c ∷ cs) emails h = (
  h c.email (ground (arith, eq_iff c.email c.email)),
  own_contacts cs emails (λ e m. h e (ground arith)),
)

start-Clean : (db : Db) → Clean db db
start-Clean db = (
  refl,
  All-weaken (λ (c : Contact). mem c.email (contact_emails db.contacts) ≡ true) (IsWelcome db)
      (λ c h. inr h) db.contacts (own_contacts db.contacts (contact_emails db.contacts) (λ e m. m)),
)

-- An import adds no contact under a suppressed address: every contact that is there afterwards has
-- an address that was not suppressed, or one that had a contact before.
pub import_into_list-IsWelcome :
    (validator : Validator) (raises : Raises) (enabled : Bool) (patterns : List Text) (list_id : ℕ)
    (rows : List (List Text)) (override : Option Mapping) (filter : Option Bool) (db : Db)
    → All
        (IsWelcome db)
        (import_into_list validator raises enabled patterns list_id rows override filter
          db).0.contacts
unfolding import_into_list import_file finish_import finalize_import
import_into_list-IsWelcome validator raises enabled patterns list_id [] override filter db =
    (start-Clean db).1
import_into_list-IsWelcome validator raises enabled patterns list_id (first ∷ rest) override filter
      db =
    let free : Text → Bool =
      λ email. or_default filter enabled && is_free_provider (domain_of email) patterns in
    finished (flush_rest validator raises free list_id _) (
      flush_rest-Clean db validator raises free list_id _ (
        import_rows-Clean db validator raises free list_id _ _ _
          (record { db = db; seen = []; pending = []; counts = no_counts }) (start-Clean db)))
  where
    finished :
        (r : Db × Option ImportCounts)
        → Clean db r.0
        → All (IsWelcome db) (finish_import list_id r).0.contacts
    finished (d, none) h = h.1
    finished (d, some counts) h = h.1
