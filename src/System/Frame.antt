-- ===== src/System/Frame.antt =====
-- What an edit does not touch, and that the import of a file does not.
pub mod Campaigns
pub mod Planner
use emailmarketing.Import.Columns.{Mapping}
use emailmarketing.Normalize.{Validator}
use emailmarketing.Text.{Text}
use emailmarketing.Import.{
  Raises, finish_import, finalize_import, apply_fate, flush_batch, flush_loop, flush_one,
  flush_rest, import_file, import_rows, Pending, append_pending, import_row, insert_contact, Batch,
  Fate, ImportCounts, Importing, free_provider, keep,
}
use emailmarketing.Import.{Fate, invalid, duplicate_file, free_provider, keep}
use emailmarketing.Models.{Db, CampaignRecipient, Suppression}
use emailmarketing.Base.{
  none, some, ℕ, ◌≡◌, refl, Bool, Option, List, [], ◌∷◌, arith, ◌++◌, ◌∙◌, Bool-cases, some, inl,
  inr,
}

-- the same ledger, its next key, and the same suppressions
abbrev pub Frame : Db → Db → Type 0
Frame db db' =
    (db'.recipients ≡ db.recipients)
    × (db'.next_recipient_id ≡ db.next_recipient_id)
    × (db'.suppressions ≡ db.suppressions)

pub frame_then :
    {x y z : List CampaignRecipient} {i j k : ℕ} {s t u : List Suppression}
    → (y ≡ x) × (j ≡ i) × (t ≡ s)
    → (z ≡ y) × (k ≡ j) × (u ≡ t)
    → (z ≡ x) × (k ≡ i) × (u ≡ s)
frame_then h k = (k.0 ∙ h.0, k.1 ∙ h.1, k.2 ∙ h.2)

flush_one-Frame :
    (l : ℕ) (ss : List Text) (p : Pending) (b : Batch) → Frame b.db (flush_one l ss p b).db
unfolding flush_one insert_contact
flush_one-Frame l ss p b = (ground arith, ground arith, ground arith)

flush_loop-Frame :
    (l : ℕ) (ss : List Text) (ps : List Pending) (b : Batch) → Frame b.db (flush_loop l ss ps b).db
unfolding flush_loop
flush_loop-Frame l ss [] b = (refl, refl, refl)
flush_loop-Frame l ss (p ∷ ps) b =
    frame_then (flush_one-Frame l ss p b) (flush_loop-Frame l ss ps (flush_one l ss p b))

flush_batch-Frame :
    (l : ℕ) (ps : List Pending) (db : Db) (k : ImportCounts) → Frame db (flush_batch l ps db k).0
unfolding flush_batch
flush_batch-Frame l ps db k = flush_loop-Frame l _ ps _

apply_fate-Frame :
    (ra : Raises) (l : ℕ) (f : Fate) (s : Importing) → Frame s.db (apply_fate ra l f s).db
unfolding apply_fate append_pending
apply_fate-Frame ra l invalid s = (refl, refl, refl)
apply_fate-Frame ra l duplicate_file s = (refl, refl, refl)
apply_fate-Frame ra l (free_provider e) s = (refl, refl, refl)
apply_fate-Frame ra l (keep p) s =
    let h = flush_batch-Frame l (s.pending ++ p ∷ []) s.db s.counts in
    (ground (arith, h.0), ground (arith, h.1), ground (arith, h.2))

import_rows-Frame :
    (v : Validator) (ra : Raises) (free : Text → Bool) (l : ℕ) (names : List Text) (m : Mapping)
    (rows : List (List Text)) (s : Importing)
    → Frame s.db (import_rows v ra free l names m rows s).db
unfolding import_rows import_row
import_rows-Frame v ra free l names m [] s = (refl, refl, refl)
import_rows-Frame v ra free l names m (raw ∷ rows) s =
    frame_then (apply_fate-Frame ra l _ _)
      (import_rows-Frame v ra free l names m rows (import_row v ra free l names m raw s))

flush_rest-Frame :
    (v : Validator) (ra : Raises) (free : Text → Bool) (l : ℕ) (s : Importing)
    → Frame s.db (flush_rest v ra free l s).0
unfolding flush_rest
flush_rest-Frame v ra free l s = by_pending s.pending refl
  where
    by_pending : (ps : List Pending) → s.pending ≡ ps → Frame s.db (flush_rest v ra free l s).0
    by_pending [] e = unfold flush_rest in rw e (refl, refl, refl)
    by_pending (p ∷ ps) e =
        unfold flush_rest in
        rw e (elim (Bool-cases (ra s.db (p ∷ ps))) [
          | inl raised ↦ rw raised (refl, refl, refl)
          | inr done ↦ rw done (flush_batch-Frame l (p ∷ ps) s.db s.counts)
        ])

pub import_file-Frame :
    (v : Validator) (ra : Raises) (free : Text → Bool) (l : ℕ) (o : Option Mapping)
    (rows : List (List Text)) (db : Db)
    → Frame db (import_file v ra free l o rows db).0
unfolding import_file
import_file-Frame v ra free l o [] db = (refl, refl, refl)
import_file-Frame v ra free l o (first ∷ rest) db =
    frame_then (import_rows-Frame v ra free l _ _ _ _) (flush_rest-Frame v ra free l _)

pub finish_import-Frame :
    (l : ℕ) (db : Db) (r : Db × Option ImportCounts) → Frame db r.0 → Frame db (finish_import l r).0
unfolding finish_import finalize_import
finish_import-Frame l db (d, none) h = h
finish_import-Frame l db (d, some k) h = h

abbrev pub same :
    {x : List CampaignRecipient} {i : ℕ} {s : List Suppression} → (x ≡ x) × (i ≡ i) × (s ≡ s)
same = (refl, refl, refl)
