-- ===== src/Suppression/Set.antt =====
-- The suppression list as a set that only grows.
use emailmarketing.Normalize.{normalize_email}
use emailmarketing.Suppression.{is_suppressed, suppress, begin}
use emailmarketing.Models.{Db, SuppressionReason}
use emailmarketing.Text.{Text}
use emailmarketing.Base.{◌≡◌, Bool, ◌||◌, Option, none, some, List, [], ◌∷◌, arith, any}
use emailmarketing.Suppression.Laws.{same_address, suppress_exact}

-- one call of `suppress_sync`, in a transaction of its own
pub record SuppressCall : Type 0 where
  pub email : Text
  pub reason : SuppressionReason
  pub detail : Option Text
  pub update_contact : Bool

unfoldable pub suppress_all : List SuppressCall → Db → Db
suppress_all [] db = db
suppress_all (c ∷ cs) db =
    suppress_all cs (suppress none c.email c.reason c.detail c.update_contact (begin db)).0.current

-- the abstract list: the canonical addresses that were added, in no order
abbrev pub was_added : Text → List SuppressCall → Bool
was_added f cs =
    any
      (λ (c : SuppressCall).
        same_address (normalize_email (some c.email)) (normalize_email (some f)))
      cs

-- The table implements a set of canonical addresses that only grows: after any calls that lose no
-- race, an address is suppressed exactly if it was before or one of the calls was for its canonical
-- form, whatever the order, the reasons and the repetitions of the calls.
pub suppress_all_exact :
    (cs : List SuppressCall) (f : Text) (db : Db)
    → is_suppressed (suppress_all cs db) f ≡ (is_suppressed db f || was_added f cs)
unfolding suppress_all
suppress_all_exact [] f db = ground arith
suppress_all_exact (c ∷ cs) f db = ground (
  arith,
  suppress_all_exact cs f
      (suppress none c.email c.reason c.detail c.update_contact (begin db)).0.current,
  suppress_exact c.email f c.reason c.detail c.update_contact (begin db),
)
