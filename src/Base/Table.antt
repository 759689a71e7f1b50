-- ===== src/Base/Table.antt =====
-- A database table as the list of its rows, in the order of insertion. Each function is one kind of
-- statement that the services issue.
use Prim.Native.Nat.{ℕ, ◌+◌}
use mathlib.Core.Path.{◌≡◌, refl}
use mathlib.Core.Bool.{Bool, true, ◌&&◌, not}
use mathlib.Core.Option.{Option, none, some}
use mathlib.Core.List.{List, [], ◌∷◌}
use native.Mathlib.Omega.{arith}
use emailmarketing.Base.Tests.{if◌then◌else◌}

module _ {ℓ} {A : Type ℓ} where
  -- The first row that passes: `session.get`, and `session.scalar` on a unique column.
  unfoldable pub find : (A → Bool) → List A → Option A
  find p [] = none
  find p (x ∷ xs) = if p x then some x else find p xs

  -- `select … where`
  unfoldable pub where_ : (A → Bool) → List A → List A
  where_ p [] = []
  where_ p (x ∷ xs) = let rest = where_ p xs in if p x then x ∷ rest else rest

  -- `update … where`
  unfoldable pub update_where : (A → Bool) → (A → A) → List A → List A
  update_where p f [] = []
  update_where p f (x ∷ xs) = (if p x then f x else x) ∷ update_where p f xs

  -- `select count(*) … where`
  unfoldable pub count_where : (A → Bool) → List A → ℕ
  count_where p [] = 0
  count_where p (x ∷ xs) = (if p x then 1 else 0) + count_where p xs

  abbrev pub map_option : (A → A) → Option A → Option A
  map_option f none = none
  map_option f (some a) = some (f a)

  -- a read after an update of the same rows, which keeps the columns that they are found by
  pub find-update_where :
      (p : A → Bool) (f : A → A) (xs : List A)
      → ((x : A) → p (f x) ≡ p x)
      → find p (update_where p f xs) ≡ map_option f (find p xs)
  unfolding find update_where
  find-update_where p f [] keep = refl
  find-update_where p f (x ∷ xs) keep = ground (arith, keep x, find-update_where p f xs keep)

  pub count-split :
      (p q : A → Bool) (xs : List A)
      → count_where p xs ≡ count_where (λ x. p x && q x) xs + count_where (λ x. p x && not (q x)) xs
  unfolding count_where
  count-split p q [] = omega arith
  count-split p q (x ∷ xs) = ground (arith, count-split p q xs)

  pub find-holds : (p : A → Bool) (xs : List A) (x : A) → find p xs ≡ some x → p x ≡ true
  unfolding find
  find-holds p [] x h = cc
  find-holds p (y ∷ xs) x h = ground (arith, find-holds p xs x)
