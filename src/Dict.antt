-- ===== src/Dict.antt =====
-- A dictionary keyed by texts, in insertion order: a Python dict, and the values of one kind in Redis.
pub mod Laws
use emailmarketing.Base.{
  ℕ, zero, suc, ◌+◌, ◌-◌, ◌≤◌, ◌<◌, ◌≡◌, refl, Bool, true, false, ◌&&◌, ◌||◌, not, Option, none,
  some, List, [], ◌∷◌, arith, inl, inr, if◌then◌else◌, Bool-cases, Option-cases, or_default,
}
use emailmarketing.Text.{Text, ◌==◌}

module _ {ℓ} {V : Type ℓ} where
  unfoldable pub get : Text → List (Text × V) → Option V
  get k [] = none
  get k ((j, v) ∷ m) = if j == k then some v else get k m

  unfoldable pub set : Text → V → List (Text × V) → List (Text × V)
  set k v [] = (k, v) ∷ []
  set k v ((j, w) ∷ m) = if j == k then (j, v) ∷ m else (j, w) ∷ set k v m

  unfoldable pub delete : Text → List (Text × V) → List (Text × V)
  delete k [] = []
  delete k ((j, w) ∷ m) = let rest = delete k m in if j == k then rest else (j, w) ∷ rest

-- `int(val) if val else 0`
unfoldable pub counter : Text → List (Text × ℕ) → ℕ
counter k m = or_default (get k m) 0

unfoldable pub incr : Text → List (Text × ℕ) → List (Text × ℕ)
unfolding counter
incr k m = set k (counter k m + 1) m
