-- ===== src/Import.antt =====
-- app/services/csv_import.py: the import of a file into a list. The rows are those that `csv.reader`
-- yields, read to the end; the free-provider setting is an argument. The batches are transactions
-- of their own; which of them raise at their commit is an argument. The texts of the exceptions and
-- the summary column of the list, a copy of the counts, are left out.
pub mod Columns
pub mod Unique
pub mod Suppressed
use emailmarketing.Sending.Materialize.{is_in_lists}
use emailmarketing.ConfigStore.{is_free_provider}
use emailmarketing.Sending.SendOne.Message.{non_empty}
use emailmarketing.Import.Columns.{Mapping, resolve_header, cell, custom_fields, zip_row}
use emailmarketing.Normalize.{SyntaxCheck, Validator, domain_of, validate_syntax}
use emailmarketing.Models.{
  Contact, Db, Suppression, ContactStatus, Fields, ContactList, VerificationResult,
}
use emailmarketing.Text.{Text, is_empty, mem}
use emailmarketing.Base.{
  ℕ, zero, suc, ◌==◌, ◌+◌, ◌-◌, ◌≤◌, ◌<◌, ◌≡◌, refl, Bool, true, false, ◌&&◌, ◌||◌, not, Option,
  none, some, List, [], ◌∷◌, arith, inl, inr, if◌then◌else◌, Bool-cases, Option-cases, ◌++◌, ◌*◌,
  ◌/◌, leb, length, update_where, where_, or_default, count_where, ltb,
}

pub record ImportCounts : Type 0 where
  pub total_rows : ℕ
  pub imported : ℕ
  pub skipped_invalid : ℕ
  pub skipped_duplicate_file : ℕ
  pub skipped_duplicate_global : ℕ
  pub skipped_suppressed : ℕ
  pub skipped_free_provider : ℕ
  pub error_rows : ℕ
  -- the rows of the samples, without the texts of their exceptions
  pub error_samples : List ℕ

abbrev pub no_counts : ImportCounts
no_counts = record {
  total_rows = 0;
  imported = 0;
  skipped_invalid = 0;
  skipped_duplicate_file = 0;
  skipped_duplicate_global = 0;
  skipped_suppressed = 0;
  skipped_free_provider = 0;
  error_rows = 0;
  error_samples = [];
}

pub record Pending : Type 0 where
  pub email : Text
  pub first_name : Option Text
  pub last_name : Option Text
  pub custom : Fields

-- the database and the counts while one batch is flushed
pub record Batch : Type 0 where
  pub db : Db
  pub existing : List Text
  pub counts : ImportCounts

unfoldable pub pending_emails : List Pending → List Text
pending_emails [] = []
pending_emails (p ∷ ps) = p.email ∷ pending_emails ps

unfoldable pub contact_emails : List Contact → List Text
contact_emails [] = []
contact_emails (c ∷ cs) = c.email ∷ contact_emails cs

unfoldable pub suppressed_emails : List Suppression → List Text
suppressed_emails [] = []
suppressed_emails (s ∷ ss) = s.email ∷ suppressed_emails ss

abbrev pub new_contact : ℕ → Db → Pending → Contact
new_contact list_id db p = record {
  id = db.next_contact_id;
  email = p.email;
  first_name = p.first_name;
  last_name = p.last_name;
  custom_fields = p.custom;
  status = ContactStatus.active;
  verification_result = VerificationResult.pending;
  list_id = some list_id;
}

unfoldable pub insert_contact : ℕ → Pending → Batch → Batch
insert_contact list_id p b = record {
  db = record b.db {
    contacts = b.db.contacts ++ new_contact list_id b.db p ∷ [];
    next_contact_id = b.db.next_contact_id + 1;
  };
  existing = p.email ∷ b.existing;
  counts = record b.counts { imported = b.counts.imported + 1 };
}

unfoldable pub flush_one : ℕ → List Text → Pending → Batch → Batch
flush_one list_id suppressed p b =
    if mem p.email suppressed
    then record b {
      counts = record b.counts { skipped_suppressed = b.counts.skipped_suppressed + 1 };
    }
    else if mem p.email b.existing
    then record b {
      counts = record b.counts { skipped_duplicate_global = b.counts.skipped_duplicate_global + 1 };
    }
    else insert_contact list_id p b

unfoldable pub flush_loop : ℕ → List Text → List Pending → Batch → Batch
flush_loop list_id suppressed [] b = b
flush_loop list_id suppressed (p ∷ ps) b =
    flush_loop list_id suppressed ps (flush_one list_id suppressed p b)

-- the addresses of a batch that a table has: `select(…).where(….in_(emails))`
abbrev pub those_in : List Text → List Text → List Text
those_in emails column = where_ (λ e. mem e emails) column

unfoldable pub flush_batch : ℕ → List Pending → Db → ImportCounts → Db × ImportCounts
flush_batch list_id pending db counts =
    let emails = pending_emails pending in
    let b =
      flush_loop list_id (those_in emails (suppressed_emails db.suppressions)) pending (record {
        db = db;
        existing = those_in emails (contact_emails db.contacts);
        counts = counts;
      }) in
    (b.db, b.counts)

-- what becomes of one row of the file
pub data Fate : Type 0 where
  invalid duplicate_file : Fate
  free_provider : Text → Fate
  keep : Pending → Fate

pub record Importing : Type 0 where
  pub db : Db
  pub seen : List Text
  pub pending : List Pending
  pub counts : ImportCounts

abbrev pub batch_size : ℕ
batch_size = 1000

-- whether the commit of a batch raises: a value too long for its column, or an address that another
-- transaction has inserted meanwhile
abbrev pub Raises : Type 0
Raises = Db → List Pending → Bool

-- `except Exception`: at most ten samples
unfoldable pub count_error : ImportCounts → ImportCounts
count_error c = record c {
  error_rows = c.error_rows + 1;
  error_samples =
      if ltb (length c.error_samples) 10
      then c.error_samples ++ c.total_rows ∷ []
      else c.error_samples;
}

-- `pending.append(…)`, and the flush of a full batch. Where it raises, the database is rolled back,
-- while the counts that the loop over the batch has raised and the pending rows stay.
unfoldable pub append_pending : Raises → ℕ → Pending → Importing → Importing
append_pending raises list_id p s =
    let pending = s.pending ++ p ∷ [] in
    let (db, counts) = flush_batch list_id pending s.db s.counts in
    if leb batch_size (length pending)
    then (if raises s.db pending
        then record s { pending = pending; counts = count_error counts }
        else record s { db = db; pending = []; counts = counts })
    else record s { pending = pending }

unfoldable pub apply_fate : Raises → ℕ → Fate → Importing → Importing
apply_fate raises list_id invalid s = record s {
  counts = record s.counts { skipped_invalid = s.counts.skipped_invalid + 1 };
}
apply_fate raises list_id duplicate_file s = record s {
  counts = record s.counts { skipped_duplicate_file = s.counts.skipped_duplicate_file + 1 };
}
apply_fate raises list_id (free_provider email) s = record s {
  seen = email ∷ s.seen;
  counts = record s.counts { skipped_free_provider = s.counts.skipped_free_provider + 1 };
}
apply_fate raises list_id (keep p) s =
    append_pending raises list_id p (record s { seen = p.email ∷ s.seen })

-- the tests of a row, in their order; `free` is the filter where it is on
unfoldable pub fate_of : (Text → Bool) → List Text → Option Text → (Text → Pending) → Fate
fate_of free seen none pend = invalid
fate_of free seen (some email) pend =
    if is_empty email
    then invalid
    else if mem email seen
    then duplicate_file
    else if free email
    then free_provider email
    else keep (pend email)

-- `check.normalized`, where `check.ok`
unfoldable pub accepted : SyntaxCheck → Option Text
accepted check = if check.ok then check.normalized else none

module _ (validator : Validator) (raises : Raises) (free : Text → Bool) (list_id : ℕ) where
  unfoldable pub import_row : List Text → Mapping → List Text → Importing → Importing
  import_row colnames colmap raw s =
      let row = zip_row colnames raw [] in
      let email = accepted (validate_syntax validator (cell colmap.email row)) in
      apply_fate raises list_id (fate_of free s.seen email (pending_of colmap row))
        (record s { counts = record s.counts { total_rows = s.counts.total_rows + 1 } })
    where
      pending_of : Mapping → Fields → Text → Pending
      pending_of colmap row email = record {
        email = email;
        first_name = non_empty (cell colmap.first_name row);
        last_name = non_empty (cell colmap.last_name row);
        custom = custom_fields colmap row;
      }

  unfoldable pub import_rows : List Text → Mapping → List (List Text) → Importing → Importing
  import_rows colnames colmap [] s = s
  import_rows colnames colmap (raw ∷ rows) s =
      import_rows colnames colmap rows (import_row colnames colmap raw s)

  -- the last batch; `none` where it raises, which no handler is around
  unfoldable pub flush_rest : Importing → Db × Option ImportCounts
  flush_rest s = elim s.pending [
    | [] ↦ (s.db, some s.counts)
    | p ∷ ps ↦
        let (db, counts) = flush_batch list_id (p ∷ ps) s.db s.counts in
        if raises s.db (p ∷ ps) then (s.db, none) else (db, some counts)
  ]

  unfoldable pub import_file : Option Mapping → List (List Text) → Db → Db × Option ImportCounts
  import_file override [] db = (db, some no_counts)
  import_file override (first ∷ rest) db =
      let header = resolve_header first override in
      flush_rest (
        import_rows header.colnames header.mapping
          (if header.has_header then rest else first ∷ rest)
          (record { db = db; seen = []; pending = []; counts = no_counts }))

-- `_finalize`: the count of the list's contacts
unfoldable pub finalize_import : ℕ → Db → Db
finalize_import list_id db = record db {
  contact_lists =
      update_where (λ (l : ContactList). l.id == list_id)
        (λ (l : ContactList). record l {
          contact_count =
              count_where (λ (c : Contact). is_in_lists (list_id ∷ []) c.list_id) db.contacts;
        })
        db.contact_lists;
}

unfoldable pub finish_import : ℕ → Db × Option ImportCounts → Db × Option ImportCounts
finish_import list_id (db, none) = (db, none)
finish_import list_id (db, some counts) = (finalize_import list_id db, some counts)

-- `apply_free_filter`, or the setting where it is not given, decides whether the filter is on.
unfoldable pub import_into_list :
    Validator
    → Raises
    → Bool
    → List Text
    → ℕ
    → List (List Text)
    → Option Mapping
    → Option Bool
    → Db
    → Db × Option ImportCounts
import_into_list validator raises enabled patterns list_id rows override apply_free_filter db =
    let apply_free = or_default apply_free_filter enabled in
    finish_import list_id (
      import_file validator raises
        (λ email. apply_free && is_free_provider (domain_of email) patterns) list_id override rows
        db)
