-- ===== src/System/Steps/Flights.antt =====
-- The tasks that have begun, counted: what one step does to the counts, and to the locks.
use emailmarketing.System.Steps.{Flight, checked, pick, replied, swap_at}
use emailmarketing.Sending.SendOne.Validate.{go, stop}
use emailmarketing.Sending.SendOne.{accepted, permanent, remove_id, transient, unexpected}
use emailmarketing.Base.{
  ℕ, zero, suc, ◌==◌, ◌+◌, ◌≤◌, ◌≡◌, refl, Bool, false, none, some, List, [], ◌∷◌, arith,
  if◌then◌else◌, any, ◌++◌, count_where,
}

-- a task of the recipient
abbrev pub is_of : ℕ → ℕ × Flight → Bool
is_of id x = x.0 == id

-- one that phase 1 has let through and that has not called Postal yet
unfoldable pub is_go : ℕ → ℕ × Flight → Bool
is_go id (j, checked (stop o)) = false
is_go id (j, checked (go p)) = j == id
is_go id (j, replied p reply) = false

-- one that has a message token to record
unfoldable pub is_acked : ℕ → ℕ × Flight → Bool
is_acked id (j, checked c) = false
is_acked id (j, replied p (accepted token)) = j == id
is_acked id (j, replied p transient) = false
is_acked id (j, replied p unexpected) = false
is_acked id (j, replied p (permanent detail)) = false

pub one_kind :
    (id : ℕ) (x : ℕ × Flight)
    → (if is_go id x then 1 else 0) + (if is_acked id x then 1 else 0)
      ≤ (if is_of id x then 1 else 0)
unfolding is_go is_acked
one_kind id (j, checked (stop o)) = ground arith
one_kind id (j, checked (go p)) = ground arith
one_kind id (j, replied p (accepted token)) = ground arith
one_kind id (j, replied p transient) = ground arith
one_kind id (j, replied p unexpected) = ground arith
one_kind id (j, replied p (permanent detail)) = ground arith

pub count-kinds :
    (id : ℕ) (fs : List (ℕ × Flight))
    → count_where (is_go id) fs + count_where (is_acked id) fs ≤ count_where (is_of id) fs
unfolding count_where
count-kinds id [] = omega arith
count-kinds id (x ∷ fs) = omega (arith, one_kind id x, count-kinds id fs)

module _ {A : Type 0} (p : A → Bool) where
  pub count-++ : (xs ys : List A) → count_where p (xs ++ ys) ≡ count_where p xs + count_where p ys
  unfolding count_where
  count-++ [] ys = omega arith
  count-++ (x ∷ xs) ys = omega (arith, count-++ xs ys)

  -- the n-th leaves, and these come in its place
  pub count-swap_at :
      (n : ℕ) (ys xs : List A) (x : A)
      → pick n xs ≡ some x
      → count_where p (swap_at n ys xs) + (if p x then 1 else 0)
        ≡ count_where p xs + count_where p ys
  unfolding pick swap_at count_where
  count-swap_at n ys [] x h = absurd (gone h)
    where
      gone : none ≡ some x → ⊥
      gone e = cc
  count-swap_at zero ys (a ∷ xs) x h = omega (arith, count-++ ys xs, same (unwrap h))
    where
      unwrap : some a ≡ some x → a ≡ x
      unwrap e = cc

      same : a ≡ x → ◌≡◌ {A = ℕ} (if p a then 1 else 0) (if p x then 1 else 0)
      same e = rw e refl
  count-swap_at (suc n) ys (a ∷ xs) x h = omega (arith, count-swap_at n ys xs x h)

-- whether the lock of the recipient is held, as a number
abbrev pub is_id : ℕ → ℕ → Bool
is_id id i = i == id

abbrev pub lock_count : ℕ → List ℕ → ℕ
lock_count id locks = if any (is_id id) locks then 1 else 0

pub lock_count-remove_id : (id : ℕ) (locks : List ℕ) → lock_count id (remove_id id locks) ≡ 0
unfolding remove_id
lock_count-remove_id id [] = refl
lock_count-remove_id id (j ∷ js) = ground (arith, lock_count-remove_id id js)

pub lock_count-remove_other :
    (id k : ℕ) (locks : List ℕ)
    → (k == id) ≡ false
    → lock_count id (remove_id k locks) ≡ lock_count id locks
unfolding remove_id
lock_count-remove_other id k [] h = refl
lock_count-remove_other id k (j ∷ js) h = ground (arith, lock_count-remove_other id k js h)
