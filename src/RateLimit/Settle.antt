-- ===== src/RateLimit/Settle.antt =====
-- One settled attempt: it takes one token from every bucket, or none from any.
use emailmarketing.Base.{
  ℕ, ◌+◌, ◌-◌, ◌≤◌, ◌≡◌, refl, Bool, true, false, some, List, [], ◌∷◌, arith, inl, inr,
  if◌then◌else◌, Distinct, any, ◌*◌, ◌⊎◌, subst, sym, ◌∙◌, ap, ltb, not,
}
use emailmarketing.Text.{Text, ◌==◌}
use emailmarketing.Text.Laws.{eq_iff}
use emailmarketing.Dict.{get, set}
use emailmarketing.Dict.Laws.{get-set}
use emailmarketing.RateLimit.{
  Bucket, Entry, Store, settle, write_back, available, refill, hmget, all_allowed, capacity, unit,
  second, ttl, live,
}

abbrev pub same_key : Bucket → Bucket → Bool
same_key a b = a.key == b.key

abbrev pub IsIn : Bucket → List Bucket → Type 0
IsIn b [] = ⊥
IsIn b (x ∷ xs) = (b ≡ x) ⊎ IsIn b xs

pub available-le-capacity :
    (now : ℕ) (store : Store) (b : Bucket) → available now store b ≤ capacity b
unfolding available hmget refill
available-le-capacity now store b = ground arith

-- the entry that an attempt writes for a bucket
abbrev pub written : ℕ → Bool → Store → Bucket → Entry
written now allowed read b = record {
  tokens = if allowed then available now read b - unit else available now read b;
  ts = now;
  expires_at = now + ttl b * second;
}

get-write_back_other :
    (now : ℕ) (allowed : Bool) (read : Store) (k : Text) (bs : List Bucket) (store : Store)
    → any (λ (b : Bucket). b.key == k) bs ≡ false
    → get k (write_back now allowed read bs store) ≡ get k store
unfolding write_back
get-write_back_other now allowed read k [] store h = refl
get-write_back_other now allowed read k (b ∷ bs) store h = ground (
  arith,
  get-write_back_other now allowed read k bs (set b.key (written now allowed read b) store),
  get-set b.key k (written now allowed read b) store,
)

flip_keys :
    (x : Bucket) (bs : List Bucket)
    → any (same_key x) bs ≡ false
    → any (λ (b : Bucket). b.key == x.key) bs ≡ false
flip_keys x [] h = refl
flip_keys x (b ∷ bs) h = ground (arith, flip_keys x bs, eq_iff x.key b.key, eq_iff b.key x.key)

pub get-write_back :
    (now : ℕ) (allowed : Bool) (read : Store) (b : Bucket) (bs : List Bucket) (store : Store)
    → Distinct same_key bs
    → IsIn b bs
    → get b.key (write_back now allowed read bs store) ≡ some (written now allowed read b)
unfolding write_back
get-write_back now allowed read b [] store d m = absurd m
get-write_back now allowed read b (x ∷ bs) store d (inl e) =
    subst
      (λ (y : Bucket).
        get y.key (write_back now allowed read (x ∷ bs) store) ≡ some (written now allowed read y))
      (sym e)
      (ground (
        arith,
        get-write_back_other now allowed read x.key bs
            (set x.key (written now allowed read x) store),
        flip_keys x bs d.0,
        get-set x.key x.key (written now allowed read x) store,
        eq_iff x.key x.key,
      ))
get-write_back now allowed read b (x ∷ bs) store d (inr m) =
    get-write_back now allowed read b bs (set x.key (written now allowed read x) store) d.1 m

all_allowed-le :
    (now : ℕ) (store : Store) (b : Bucket) (bs : List Bucket)
    → IsIn b bs
    → all_allowed now store bs ≡ true
    → unit ≤ available now store b
unfolding all_allowed
all_allowed-le now store b [] m h = absurd m
all_allowed-le now store b (x ∷ bs) (inl e) h = rw e (ground arith)
all_allowed-le now store b (x ∷ bs) (inr m) h = all_allowed-le now store b bs m (ground arith)

refill_now :
    (now : ℕ) (allowed : Bool) (read : Store) (b : Bucket)
    → refill now b (live now (some (written now allowed read b)))
      ≡ (written now allowed read b).tokens
unfolding refill
refill_now now allowed read b = ground (arith, available-le-capacity now read b)

available-get :
    (now : ℕ) (st : Store) (b : Bucket)
    → available now st b ≡ refill now b (live now (get b.key st))
unfolding available hmget
available-get now st b = refl

available-write_back :
    (now : ℕ) (allowed : Bool) (b : Bucket) (bs : List Bucket) (store : Store)
    → Distinct same_key bs
    → IsIn b bs
    → available now (write_back now allowed store bs store) b ≡ (written now allowed store b).tokens
available-write_back now allowed b bs store d m =
    read_back (write_back now allowed store bs store)
      (get-write_back now allowed store b bs store d m)
  where
    read_back :
        (st : Store)
        → get b.key st ≡ some (written now allowed store b)
        → available now st b ≡ (written now allowed store b).tokens
    read_back st h =
        available-get now st b
        ∙ ap (λ o. refill now b (live now o)) h
        ∙ refill_now now allowed store b

-- by what the attempt answers
pub available-settle :
    (now : ℕ) (b : Bucket) (bs : List Bucket) (store : Store)
    → Distinct same_key bs
    → IsIn b bs
    → let (store', result) = settle now bs store in
      available now store b ≡ available now store' b + (if result.allowed then unit else 0)
unfolding settle
available-settle now b bs store d m = ground (
  arith,
  available-write_back now true b bs store d m,
  available-write_back now false b bs store d m,
  all_allowed-le now store b bs m,
)

-- whether some bucket has less than one token
abbrev pub lacks : ℕ → Store → List Bucket → Bool
lacks now store bs = any (λ (b : Bucket). ltb (available now store b) unit) bs

all_allowed-lacks :
    (now : ℕ) (store : Store) (bs : List Bucket)
    → (settle now bs store).1.allowed ≡ not (lacks now store bs)
unfolding settle all_allowed
all_allowed-lacks now store [] = refl
all_allowed-lacks now store (b ∷ bs) = ground (arith, all_allowed-lacks now store bs)

-- An attempt on buckets with distinct keys that settles takes exactly one token from each of its
-- buckets if none of them has less than one token, and otherwise leaves the tokens of every one of
-- them as they were; its answer says which of the two it was.
pub settle_all_or_none :
    (now : ℕ) (b : Bucket) (bs : List Bucket) (store : Store)
    → Distinct same_key bs
    → IsIn b bs
    → let (store', result) = settle now bs store in
      (available now store b ≡ available now store' b + (if lacks now store bs then 0 else unit))
      × (result.allowed ≡ not (lacks now store bs))
settle_all_or_none now b bs store d m = (
  ground (arith, available-settle now b bs store d m, all_allowed-lacks now store bs),
  all_allowed-lacks now store bs,
)
