-- ===== src/Verify/Task/Laws.antt =====
-- The fuel of the loop over the batches is enough.
use emailmarketing.Models.{Db}
use emailmarketing.Text.{Text}
use emailmarketing.Suppression.{Race}
use emailmarketing.Verify.Task.{
  verify_batches, Provider, Counts, after_batch, second_parts, verify_size,
}
use emailmarketing.Base.{
  ℕ, zero, suc, ◌≤◌, ◌≡◌, refl, List, [], ◌∷◌, arith, length, drop, take, inl, inr, Option-cases,
}

length-drop : {A : Type 0} (n : ℕ) (xs : List A) → length (drop n xs) ≤ length xs
length-drop zero xs = omega arith
length-drop (suc n) [] = omega arith
length-drop (suc n) (x ∷ xs) = omega (arith, length-drop n xs)

shorter : {A : Type 0} (n : ℕ) (x : A) (xs : List A) → 1 ≤ n → length (drop n (x ∷ xs)) ≤ length xs
shorter zero x xs h = omega (arith, h)
shorter (suc n) x xs h = length-drop n xs

-- Any two amounts of fuel that reach the number of rows give the same outcome: each batch takes at
-- least one row, so that the loop never stops for a lack of fuel.
pub verify_batches_enough :
    (races : ℕ → Race) (provider : Provider) (fuel more : ℕ) (rows : List (ℕ × Text))
    (acc : Db × Counts)
    → length rows ≤ fuel
    → length rows ≤ more
    → verify_batches fuel races provider rows acc ≡ verify_batches more races provider rows acc
unfolding verify_batches
verify_batches_enough races provider zero zero rows acc h k = refl
verify_batches_enough races provider zero (suc more) [] acc h k = refl
verify_batches_enough races provider (suc fuel) zero [] acc h k = refl
verify_batches_enough races provider (suc fuel) (suc more) [] acc h k = refl
verify_batches_enough races provider zero (suc more) (r ∷ rs) acc h k = absurd (omega (arith, h))
verify_batches_enough races provider (suc fuel) zero (r ∷ rs) acc h k = absurd (omega (arith, k))
verify_batches_enough races provider (suc fuel) (suc more) (r ∷ rs) acc h k =
    let batch = take verify_size (r ∷ rs) in
    elim (Option-cases (after_batch races (provider (second_parts batch)) batch acc)) [
      | inl failed ↦ rw (failed, verify_batches) refl
      | inr (acc', e) ↦
          rw (e, verify_batches)
            (verify_batches_enough races provider fuel more (drop verify_size (r ∷ rs)) acc'
              (omega (arith, shorter verify_size r rs (omega arith), h))
              (omega (arith, shorter verify_size r rs (omega arith), k)))
    ]
