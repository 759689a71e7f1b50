-- ===== src/Base/Rows.antt =====
-- What the statements of a table do to a quantifier over its rows, and to a unique column.
use mathlib.Core.Path.{◌≡◌, refl}
use mathlib.Core.Bool.{Bool, false, ◌&&◌}
use mathlib.Core.Logic.{inl, inr}
use mathlib.Core.List.{List, [], ◌∷◌}
use native.Mathlib.Omega.{arith}
use emailmarketing.Base.Tests.{Bool-cases}
use emailmarketing.Base.Lists.{any, All, Distinct}
use emailmarketing.Base.Table.{update_where, where_, count_where}

module _ {ℓ} {A : Type ℓ} where
  pub any-update :
      (p q : A → Bool) (f : A → A) (xs : List A)
      → ((x : A) → p (f x) ≡ p x)
      → any p (update_where q f xs) ≡ any p xs
  unfolding update_where
  any-update p q f [] h = refl
  any-update p q f (x ∷ xs) h = ground (arith, h x, any-update p q f xs h)

  pub any-where : (p q : A → Bool) (xs : List A) → any p xs ≡ false → any p (where_ q xs) ≡ false
  unfolding where_
  any-where p q [] h = refl
  any-where p q (x ∷ xs) h = ground (arith, any-where p q xs)

  pub All-update {κ} :
      (P : A → Type κ) (q : A → Bool) (f : A → A) (xs : List A)
      → ((x : A) → P x → P (f x))
      → All P xs
      → All P (update_where q f xs)
  unfolding update_where
  All-update P q f [] k h = tt
  All-update P q f (x ∷ xs) k h = elim (Bool-cases (q x)) [
    | inl a ↦ rw a (k x h.0, All-update P q f xs k h.1)
    | inr a ↦ rw a (h.0, All-update P q f xs k h.1)
  ]

  pub All-where {κ} : (P : A → Type κ) (q : A → Bool) (xs : List A) → All P xs → All P (where_ q xs)
  unfolding where_
  All-where P q [] h = tt
  All-where P q (x ∷ xs) h = elim (Bool-cases (q x)) [
    | inl a ↦ rw a (h.0, All-where P q xs h.1)
    | inr a ↦ rw a (All-where P q xs h.1)
  ]

  pub Distinct-where :
      (same : A → A → Bool) (q : A → Bool) (xs : List A)
      → Distinct same xs
      → Distinct same (where_ q xs)
  unfolding where_
  Distinct-where same q [] h = tt
  Distinct-where same q (x ∷ xs) h = elim (Bool-cases (q x)) [
    | inl a ↦ rw a (any-where (same x) q xs h.0, Distinct-where same q xs h.1)
    | inr a ↦ rw a (Distinct-where same q xs h.1)
  ]

  pub count-where :
      (p q : A → Bool) (xs : List A)
      → count_where p (where_ q xs) ≡ count_where (λ x. q x && p x) xs
  unfolding where_ count_where
  count-where p q [] = refl
  count-where p q (x ∷ xs) = ground (arith, count-where p q xs)

  pub count-same :
      (p q : A → Bool) (xs : List A) → ((x : A) → p x ≡ q x) → count_where p xs ≡ count_where q xs
  unfolding count_where
  count-same p q [] h = refl
  count-same p q (x ∷ xs) h = ground (arith, h x, count-same p q xs h)
