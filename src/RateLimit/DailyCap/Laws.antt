-- ===== src/RateLimit/DailyCap/Laws.antt =====
-- The counters of the pools are separate.
use emailmarketing.Dict.Laws.{counter-incr}
use emailmarketing.Dict.{counter}
use emailmarketing.Text.Laws.{eq_iff}
use emailmarketing.RateLimit.DailyCap.{daily_cap_usage, daily_key, record_daily_send}
use emailmarketing.Base.{
  ℕ, ◌+◌, ◌≡◌, refl, true, false, List, [], ◌∷◌, ◌++◌, arith, inl, inr, if◌then◌else◌, Bool-cases,
  length, length-append, ap, ◌⊎◌, ◌∙◌,
}
use emailmarketing.Text.{Text, ◌==◌, codes}

abbrev tail : Text → Text
tail [] = []
tail (c ∷ s) = s

append-cancel : (p q s : Text) → p ++ s ≡ q ++ s → p ≡ q
append-cancel [] [] s h = refl
append-cancel [] (d ∷ q) s h = absurd (omega (arith, length-append (d ∷ q) s, ap length h))
append-cancel (c ∷ p) [] s h = absurd (omega (arith, length-append (c ∷ p) s, ap length h))
append-cancel (c ∷ p) (d ∷ q) s h =
    let rest = append-cancel p q s (ap tail h) in first c d (p ++ s) (q ++ s) p q h rest
  where
    first : (c d : ℕ) (x y p q : Text) → c ∷ x ≡ d ∷ y → p ≡ q → c ∷ p ≡ d ∷ q
    first c d x y p q h e = cc

same_pool : (day p q : Text) → daily_key day p ≡ daily_key day q → p ≡ q
same_pool day p q h =
    append-cancel p q (codes ":" ++ day) (ap (λ t. tail (tail (tail (tail (tail (tail t)))))) h)

key_eq : (day p q : Text) → (daily_key day p == daily_key day q) ≡ (p == q)
key_eq day p q =
    agree (daily_key day p) (daily_key day q) p q (same_pool day p q) (λ e. ap (daily_key day) e)
  where
    agree : (k l p q : Text) → (k ≡ l → p ≡ q) → (p ≡ q → k ≡ l) → (k == l) ≡ (p == q)
    agree k l p q f g = elim (Bool-cases (p == q)) [
      | inl same ↦ rw same ((eq_iff k l).1 (g ((eq_iff p q).0 same)))
      | inr differ ↦ elim (Bool-cases (k == l)) [
        | inr miss ↦ rw (miss, differ) refl
        | inl hit ↦ ground (arith, (eq_iff p q).1 (f ((eq_iff k l).0 hit)))
      ]
    ]

-- A recorded send uses up one of the day's cap of its own pool, and none of any other pool's.
pub daily_cap_usage-record_daily_send :
    (day p q : Text) (counters : List (Text × ℕ))
    → daily_cap_usage true (record_daily_send day p counters) day q
      ≡ daily_cap_usage true counters day q + (if p == q then 1 else 0)
unfolding daily_cap_usage record_daily_send
daily_cap_usage-record_daily_send day p q counters =
    counter-incr (daily_key day p) (daily_key day q) counters
    ∙ rw (key_eq day p q) (by_pool (Bool-cases (p == q)))
  where
    by_pool :
        ((p == q) ≡ true) ⊎ ((p == q) ≡ false)
        → (if p == q
            then counter (daily_key day p) counters + 1
            else counter (daily_key day q) counters)
          ≡ counter (daily_key day q) counters + (if p == q then 1 else 0)
    by_pool (inl same) = rw (same, (eq_iff p q).0 same) refl
    by_pool (inr differ) = rw differ (omega arith)
