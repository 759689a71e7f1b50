-- ===== src/System/Steps/Over.antt =====
-- A recipient that is settled: its row is in a terminal state or gone, and its key is given.
use emailmarketing.System.Steps.Kept.{Kept-reply}
use emailmarketing.Sending.SendOne.Once.{NotPending, persist-NotPending}
use emailmarketing.Sending.SendOne.Validate.{Payload}
use emailmarketing.System.Stable.{Stable}
use emailmarketing.System.Invariants.{same_id, IsKeyed, IsOver, IsKeyed-Stable}
use emailmarketing.Sending.SendOne.{Env, World, accepted, after_reply}
use emailmarketing.Models.{CampaignRecipient, Db, is_recipient, RecipientStatus}
use emailmarketing.Text.{Text}
use emailmarketing.Base.{subst, sym, All, Distinct, find, any, ==→eq}
use emailmarketing.Base.{
  ℕ, ◌==◌, ◌<◌, ◌≡◌, refl, Bool, true, false, none, some, List, [], ◌∷◌, arith, inl, inr,
  Bool-cases,
}

abbrev is_key : ℕ → CampaignRecipient → Bool
is_key id r = r.id == id

-- With distinct keys, the row that is read stands for all rows with the key.
others_over :
    (id : ℕ) (r : CampaignRecipient) (rs : List CampaignRecipient)
    → r.id ≡ id
    → any (same_id r) rs ≡ false
    → All
        (λ (x : CampaignRecipient).
          (x.id == id) ≡ true → is_recipient x.status RecipientStatus.pending ≡ false)
        rs
others_over id r [] e h = tt
others_over id r (x ∷ xs) e h =
    (λ same_key. absurd (ground (arith, e, h, same_key)), others_over id r xs e (ground (arith, h)))

row_over :
    (id : ℕ) (rs : List CampaignRecipient)
    → Distinct same_id rs
    → ((r : CampaignRecipient)
        → find (λ (x : CampaignRecipient). x.id == id) rs ≡ some r
        → is_recipient r.status RecipientStatus.pending ≡ false)
    → All
        (λ (x : CampaignRecipient).
          (x.id == id) ≡ true → is_recipient x.status RecipientStatus.pending ≡ false)
        rs
unfolding find
row_over id [] d h = tt
row_over id (x ∷ xs) d h = elim (Bool-cases (x.id == id)) [
  | inl is ↦ (λ e. h x (rw is refl), others_over id x xs (==→eq x.id id is) d.0)
  | inr other ↦ (λ e. absurd (clash e other), row_over id xs d.1 (λ r e. h r (rw other e)))
]
  where
    clash : {b : Bool} → b ≡ true → b ≡ false → ⊥
    clash x y = cc

-- the row with a key is over where it is read
pub over_read :
    (id : ℕ) (rs : List CampaignRecipient) (r : CampaignRecipient)
    → All
        (λ (x : CampaignRecipient).
          (x.id == id) ≡ true → is_recipient x.status RecipientStatus.pending ≡ false)
        rs
    → find (λ (x : CampaignRecipient). x.id == id) rs ≡ some r
    → is_recipient r.status RecipientStatus.pending ≡ false
unfolding find
over_read id [] r h e = absurd (gone e)
  where
    gone : {A : Type 0} {a : A} → none ≡ some a → ⊥
    gone e = cc
over_read id (x ∷ xs) r h e = elim (Bool-cases (x.id == id)) [
  | inl is ↦
      subst (λ (y : CampaignRecipient). is_recipient y.status RecipientStatus.pending ≡ false)
        (unwrap (rw is at e)) (h.0 is)
  | inr other ↦ over_read id xs r h.1 (rw other at e)
]
  where
    unwrap : {A : Type 0} {a b : A} → some a ≡ some b → a ≡ b
    unwrap e = cc

pub given-Stable : (i : ℕ) → Stable (λ db. i < db.next_recipient_id)
given-Stable i = record {
  framed = λ db db' f h. subst (λ n. i < n) (sym f.1) h;
  changed = λ q f db keep_id settled h. h;
  removed = λ q db h. h;
  appended = λ r db e h. omega (arith, h);
  blocked = λ row db new h. h;
}

pub IsOver-NotPending : (id : ℕ) (db : Db) → IsOver id db → NotPending id db
IsOver-NotPending id db h r found = over_read id db.recipients r h.1 found

-- where the token of a message has been recorded, the recipient is settled
pub recorded-IsOver :
    (env : Env) (p : Payload) (id : ℕ) (token : Text) (w : World)
    → IsKeyed w.db
    → id < w.db.next_recipient_id
    → IsOver id (after_reply env p id (accepted token) w).0.db
recorded-IsOver env p id token w keyed given = (
  Kept-reply (λ db. id < db.next_recipient_id) (given-Stable id) env p id (accepted token) w given,
  row_over id _ (Kept-reply IsKeyed IsKeyed-Stable env p id (accepted token) w keyed).1
      (unfold after_reply in persist-NotPending env p id token w),
)
