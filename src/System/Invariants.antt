-- ===== src/System/Invariants.antt =====
-- Invariants of the whole program: the keys of the ledger, terminal rows, and the suppression list.
use emailmarketing.Suppression.Laws.{UniqueSuppressions, same_email}
use emailmarketing.System.Stable.{Stable}
use emailmarketing.Suppression.{has_suppression}
use emailmarketing.Text.{◌==◌ as str_eq, Text}
use emailmarketing.Models.{CampaignRecipient, Db, is_recipient, RecipientStatus, Suppression}
use emailmarketing.Base.{
  ℕ, ◌==◌, ◌+◌, ◌<◌, ◌≡◌, refl, Bool, true, false, List, [], ◌∷◌, arith, inl, inr, Bool-cases, ◌++◌,
  update_where, All, Distinct, any, ap, subst, sym, All-append, any-append, All-weaken,
  Distinct-snoc, All-update, any-update, All-where, Distinct-where,
}

abbrev pub same_id : CampaignRecipient → CampaignRecipient → Bool
same_id a b = a.id == b.id

-- The keys of the ledger are distinct and below the next one.
abbrev pub IsKeyed : Db → Type 0
IsKeyed db =
    All (λ (r : CampaignRecipient). r.id < db.next_recipient_id) db.recipients
    × Distinct same_id db.recipients

-- The key was given to a row, and the rows that still have it are in a terminal state.
abbrev pub IsOver : ℕ → Db → Type 0
IsOver id db =
    (id < db.next_recipient_id)
    × All
        (λ (r : CampaignRecipient).
          (r.id == id) ≡ true → is_recipient r.status RecipientStatus.pending ≡ false)
        db.recipients

abbrev pub IsBlocked : Text → Db → Type 0
IsBlocked norm db = has_suppression db norm ≡ true

Distinct-update :
    (q : CampaignRecipient → Bool) (f : CampaignRecipient → CampaignRecipient)
    (rs : List CampaignRecipient)
    → ((r : CampaignRecipient) → (f r).id ≡ r.id)
    → Distinct same_id rs
    → Distinct same_id (update_where q f rs)
unfolding update_where
Distinct-update q f [] k h = tt
Distinct-update q f (r ∷ rs) k h = (
  ground (
    arith,
    k r,
    any-update (same_id r) q f rs (λ x. ap (λ n. r.id == n) (k x)),
    any-update (same_id (f r)) q f rs (λ x. ap (λ n. (f r).id == n) (k x)),
  ),
  Distinct-update q f rs k h.1,
)

below_fresh :
    (n : ℕ) (rs : List CampaignRecipient) (r : CampaignRecipient)
    → r.id ≡ n
    → All (λ (x : CampaignRecipient). x.id < n) rs
    → any (λ x. same_id x r) rs ≡ false
below_fresh n [] r e h = refl
below_fresh n (x ∷ xs) r e h = ground (arith, below_fresh n xs r e h.1, h.0)

later_below : (n : ℕ) (r : CampaignRecipient) → r.id < n → r.id < n + 1
later_below n r h = omega arith

pub IsKeyed-Stable : Stable IsKeyed
IsKeyed-Stable = record {
  framed = λ db db' f h. (
    subst (λ n. All (λ (r : CampaignRecipient). r.id < n) db'.recipients) (sym f.1)
        (subst (λ rs. All (λ (r : CampaignRecipient). r.id < db.next_recipient_id) rs) (sym f.0)
          h.0),
    subst (λ rs. Distinct same_id rs) (sym f.0) h.1,
  );
  changed = λ q f db keep_id settled h. (
    All-update (λ (r : CampaignRecipient). r.id < db.next_recipient_id) q f db.recipients
        (λ r k. subst (λ n. n < db.next_recipient_id) (sym (keep_id r)) k) h.0,
    Distinct-update q f db.recipients keep_id h.1,
  );
  removed = λ q db h. (
    All-where (λ (r : CampaignRecipient). r.id < db.next_recipient_id) q db.recipients h.0,
    Distinct-where same_id q db.recipients h.1,
  );
  appended = λ r db e h. (
    All-append (λ (x : CampaignRecipient). x.id < db.next_recipient_id + 1) db.recipients (r ∷ [])
        (All-weaken (λ (x : CampaignRecipient). x.id < db.next_recipient_id)
          (λ (x : CampaignRecipient). x.id < db.next_recipient_id + 1)
          (later_below db.next_recipient_id) db.recipients h.0)
        (omega (arith, e), tt),
    Distinct-snoc same_id db.recipients r h.1
        (below_fresh db.next_recipient_id db.recipients r e h.0),
  );
  blocked = λ row db new h. h;
}

abbrev IsOverRow : ℕ → CampaignRecipient → Type 0
IsOverRow id r = (r.id == id) ≡ true → is_recipient r.status RecipientStatus.pending ≡ false

over_changed :
    (id : ℕ) (r r' : CampaignRecipient)
    → r'.id ≡ r.id
    → (is_recipient r'.status RecipientStatus.pending ≡ true
        → is_recipient r.status RecipientStatus.pending ≡ true)
    → IsOverRow id r
    → IsOverRow id r'
over_changed id r r' e settled h same_key =
    elim (Bool-cases (is_recipient r'.status RecipientStatus.pending)) [
      | inr done ↦ done
      | inl left ↦ absurd (clash (settled left) (h (subst (λ n. (n == id) ≡ true) e same_key)))
    ]
  where
    clash : {b : Bool} → b ≡ true → b ≡ false → ⊥
    clash x y = cc

over_fresh : (id n : ℕ) (r : CampaignRecipient) → id < n → r.id ≡ n → IsOverRow id r
over_fresh id n r h e same_key = absurd (ground (arith, e, h, same_key))

pub IsOver-Stable : (id : ℕ) → Stable (IsOver id)
IsOver-Stable id = record {
  framed = λ db db' f h.
      (subst (λ n. id < n) (sym f.1) h.0, subst (λ rs. All (IsOverRow id) rs) (sym f.0) h.1);
  changed = λ q f db keep_id settled h. (
    h.0,
    All-update (IsOverRow id) q f db.recipients
        (λ r k. over_changed id r (f r) (keep_id r) (settled r) k) h.1,
  );
  removed = λ q db h. (h.0, All-where (IsOverRow id) q db.recipients h.1);
  appended = λ r db e h. (
    omega (arith, h.0),
    All-append (IsOverRow id) db.recipients (r ∷ []) h.1
        (over_fresh id db.next_recipient_id r h.0 e, tt),
  );
  blocked = λ row db new h. h;
}

pub IsBlocked-Stable : (norm : Text) → Stable (IsBlocked norm)
unfolding has_suppression
IsBlocked-Stable norm = record {
  framed = λ db db' f h.
      subst (λ ss. any (λ (s : Suppression). str_eq s.email norm) ss ≡ true) (sym f.2)
        (unfold has_suppression in h);
  changed = λ q f db keep_id settled h. h;
  removed = λ q db h. h;
  appended = λ r db e h. h;
  blocked = λ row db new h. more row db h;
}
  where
    more :
        (row : Suppression) (db : Db)
        → IsBlocked norm db
        → IsBlocked norm (record db { suppressions = db.suppressions ++ row ∷ [] })
    more row db h =
        unfold has_suppression in
        ground
          (arith, any-append (λ (s : Suppression). str_eq s.email norm) db.suppressions (row ∷ []))

-- UNIQUE(email) is never violated.
pub UniqueSuppressions-Stable : Stable UniqueSuppressions
UniqueSuppressions-Stable = record {
  framed = λ db db' f h. subst (λ ss. Distinct same_email ss) (sym f.2) h;
  changed = λ q f db keep_id settled h. h;
  removed = λ q db h. h;
  appended = λ r db e h. h;
  blocked = λ row db new h.
      Distinct-snoc same_email db.suppressions row h (unfold has_suppression in new);
}
