-- ===== src/Verify/Task.antt =====
-- app/tasks/verification.py: the verification of a list. The provider's answers are taken batch by
-- batch, each batch in a transaction of its own. The summary column, which pages poll, is left out.
pub mod Laws
use emailmarketing.Cascades.{is_of_list}
use emailmarketing.Verify.{EmailVerification}
use emailmarketing.Suppression.{Race, Session, begin, suppress}
use emailmarketing.Models.{
  Contact, Db, ListVerificationStatus, VerificationResult, ContactList, get_contact_list,
  SuppressionReason,
}
use emailmarketing.Text.{◌==◌ as str_eq, Text, codes}
use emailmarketing.Base.{
  ℕ, zero, suc, ◌==◌, ◌+◌, Bool, true, false, Option, none, some, List, [], ◌∷◌, if◌then◌else◌,
  ◌++◌, take, update_where, drop, find, length, any,
}

pub record Counts : Type 0 where
  pub valid : ℕ
  pub invalid : ℕ
  pub unknown : ℕ

-- `counts[r.result.value] += 1`; no provider answers `pending`
unfoldable pub count_result : VerificationResult → Counts → Counts
count_result VerificationResult.valid c = record c { valid = c.valid + 1 }
count_result VerificationResult.invalid c = record c { invalid = c.invalid + 1 }
count_result VerificationResult.unknown c = record c { unknown = c.unknown + 1 }
count_result VerificationResult.pending c = c

unfoldable pub set_result : ℕ → VerificationResult → Db → Db
set_result id result db = record db {
  contacts =
      update_where (λ (c : Contact). c.id == id)
        (λ (c : Contact). record c { verification_result = result }) db.contacts;
}

-- `resmap.get(email)`
unfoldable pub result_for : Text → List EmailVerification → Option EmailVerification
result_for email results = find (λ (r : EmailVerification). str_eq r.email email) results

abbrev pub is_invalid : VerificationResult → Bool
is_invalid VerificationResult.invalid = true
is_invalid _ = false

-- the body of the loop for a contact that is there
unfoldable pub record_result :
    Race → ℕ → Text → EmailVerification → Session × Counts → Session × Counts
record_result race id email r (s, counts) =
    let s' = record s { current = set_result id r.result s.current } in
    (
      if is_invalid r.result
          then (suppress race email SuppressionReason.invalid
              (some (codes "verification:" ++ r.reason)) true s').0
          else s',
      count_result r.result counts,
    )

unfoldable pub verify_one :
    Race → List EmailVerification → ℕ × Text → Session × Counts → Session × Counts
verify_one race results (id, email) (s, counts) = elim (result_for email results) [
  | none ↦ (s, counts)
  | some r ↦
      if any (λ (c : Contact). c.id == id) s.current.contacts
      then record_result race id email r (s, counts)
      else (s, counts)
]

-- one batch; `races` gives what happens to the insert for each contact
unfoldable pub verify_rows :
    (ℕ → Race) → List EmailVerification → List (ℕ × Text) → Session × Counts → Session × Counts
verify_rows races results [] acc = acc
verify_rows races results ((id, email) ∷ rows) acc =
    verify_rows races results rows (verify_one (races id) results (id, email) acc)

unfoldable pub set_list_status : ListVerificationStatus → ℕ → Db → Db
set_list_status status list_id db = record db {
  contact_lists =
      update_where (λ (l : ContactList). l.id == list_id)
        (λ (l : ContactList). record l { verification_status = status }) db.contact_lists;
}

unfoldable pub contact_rows : ℕ → List Contact → List (ℕ × Text)
contact_rows list_id [] = []
contact_rows list_id (c ∷ cs) =
    let rest = contact_rows list_id cs in
    if is_of_list list_id c then (c.id, c.email) ∷ rest else rest

unfoldable pub second_parts : List (ℕ × Text) → List Text
second_parts [] = []
second_parts ((id, email) ∷ rows) = email ∷ second_parts rows

-- what the provider does with the addresses of a batch: an answer, or an exception
abbrev pub Provider : Type 0
Provider = List Text → Option (List EmailVerification)

abbrev pub verify_size : ℕ
verify_size = 1000

unfoldable pub after_batch :
    (ℕ → Race)
    → Option (List EmailVerification)
    → List (ℕ × Text)
    → Db × Counts
    → Option (Db × Counts)
after_batch races none rows (db, counts) = none
after_batch races (some results) rows (db, counts) =
    let (s, counts') = verify_rows races results rows (begin db, counts) in
    some (s.current, counts')

-- The loop over the batches: the database as far as it was committed, and whether all were done. Its
-- fuel is the number of rows, as each batch takes at least one.
unfoldable pub verify_batches :
    ℕ → (ℕ → Race) → Provider → List (ℕ × Text) → Db × Counts → (Db × Counts) × Bool
verify_batches zero races provider rows acc = (acc, true)
verify_batches (suc fuel) races provider [] acc = (acc, true)
verify_batches (suc fuel) races provider (row ∷ rows) acc =
    let batch = take verify_size (row ∷ rows) in
    elim (after_batch races (provider (second_parts batch)) batch acc) [
      | none ↦ (acc, false)
      | some acc' ↦ verify_batches fuel races provider (drop verify_size (row ∷ rows)) acc'
    ]

pub data VerifyReport : Type 0 where
  list_not_found provider_failed : VerifyReport
  verified : Counts → VerifyReport

unfoldable pub finish_verify : ℕ → (Db × Counts) × Bool → Db × VerifyReport
finish_verify list_id ((db, counts), true) =
    (set_list_status ListVerificationStatus.ready list_id db, verified counts)
finish_verify list_id ((db, counts), false) =
    (set_list_status ListVerificationStatus.failed list_id db, provider_failed)

unfoldable pub verify_found :
    (ℕ → Race) → Provider → ℕ → Option ContactList → Db → Db × VerifyReport
verify_found races provider list_id none db = (db, list_not_found)
verify_found races provider list_id (some l) db =
    let rows = contact_rows list_id db.contacts in
    finish_verify list_id (
      verify_batches (length rows) races provider rows (
        set_list_status ListVerificationStatus.verifying list_id db,
        record { valid = 0; invalid = 0; unknown = 0 },
      ))

unfoldable pub verify_list : (ℕ → Race) → Provider → ℕ → Db → Db × VerifyReport
verify_list races provider list_id db =
    verify_found races provider list_id (get_contact_list db list_id) db
