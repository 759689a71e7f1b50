-- ===== src/Dict/Laws.antt =====
-- Reading a key after a write or a deletion.
use emailmarketing.Base.{ℕ, ◌+◌, ◌≡◌, refl, none, some, List, [], ◌∷◌, arith, if◌then◌else◌}
use emailmarketing.Text.{Text, ◌==◌}
use emailmarketing.Text.Laws.{eq_iff}
use emailmarketing.Dict.{get, set, delete, counter, incr}

module _ {ℓ} {V : Type ℓ} where
  pub get-set :
      (k j : Text) (v : V) (m : List (Text × V))
      → get j (set k v m) ≡ (if k == j then some v else get j m)
  unfolding get set
  get-set k j v [] = refl
  get-set k j v ((i, w) ∷ m) = ground (arith, eq_iff i k, eq_iff i j, eq_iff k j, get-set k j v m)

  pub get-delete :
      (k j : Text) (m : List (Text × V)) → get j (delete k m) ≡ (if k == j then none else get j m)
  unfolding get delete
  get-delete k j [] = ground arith
  get-delete k j ((i, w) ∷ m) = ground (arith, eq_iff i k, eq_iff i j, eq_iff k j, get-delete k j m)

pub counter-incr :
    (k j : Text) (m : List (Text × ℕ))
    → counter j (incr k m) ≡ (if k == j then counter k m + 1 else counter j m)
unfolding counter incr
counter-incr k j m = ground (arith, get-set k j (counter k m + 1) m, eq_iff k j)
