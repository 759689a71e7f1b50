-- ===== src/RateLimit/Window.antt =====
-- The bound that pacing is for: how many sends a bucket lets through in any stretch of time.
use emailmarketing.Base.{
  ℕ, zero, suc, ◌+◌, ◌-◌, ◌≤◌, ◌≡◌, refl, false, Option, none, some, List, [], ◌∷◌, arith, inl, inr,
  if◌then◌else◌, Option-cases, Distinct, ◌*◌, ◌⊎◌, ◌∙◌, ap, sym,
}
use emailmarketing.Text.{Text}
use emailmarketing.Dict.{get}
use emailmarketing.RateLimit.{
  Bucket, Entry, Store, Attempt, settle, acquire_rounds, available, refill, hmget, capacity, unit,
  second, live, all_allowed,
}
use emailmarketing.RateLimit.Settle.{
  same_key, IsIn, available-settle, available-le-capacity, get-write_back,
}

-- A key does not expire before its bucket is full again.
abbrev pub ExpiresLate : Text → Store → Type 0
ExpiresLate k store = (e : Entry) → get k store ≡ some e → e.ts + 60 * second ≤ e.expires_at

settle-ExpiresLate :
    (now : ℕ) (b : Bucket) (bs : List Bucket) (store : Store)
    → Distinct same_key bs
    → IsIn b bs
    → ExpiresLate b.key (settle now bs store).0
unfolding settle
settle-ExpiresLate now b bs store d m e h =
    ground (arith, get-write_back now (all_allowed now store bs) store b bs store d m)

mul_mono : (x y r : ℕ) → x ≤ y → x * r ≤ y * r
mul_mono x y r h = grind arith

refill_grows :
    (t now : ℕ) (b : Bucket) (o : Option Entry)
    → ((e : Entry) → o ≡ some e → e.ts + 60 * second ≤ e.expires_at)
    → t ≤ now
    → refill now b (live now o) ≤ refill t b (live t o) + (now - t) * b.per_minute
unfolding refill
refill_grows t now b none late le = ground arith
refill_grows t now b (some e) late le = ground (
  arith,
  late e refl,
  mul_mono (now - e.ts) ((t - e.ts) + (now - t)) b.per_minute (omega arith),
  mul_mono unit ((t - e.ts) + (now - t)) b.per_minute,
)

-- With time a bucket gains no more than its rate allows, whether or not its key expires.
available_grows :
    (t now : ℕ) (store : Store) (b : Bucket)
    → ExpiresLate b.key store
    → t ≤ now
    → available now store b ≤ available t store b + (now - t) * b.per_minute
unfolding available hmget
available_grows t now store b late le = refill_grows t now b (get b.key store) late le

-- a settled call of `acquire`
pub record Call : Type 0 where
  pub now : ℕ
  pub buckets : List Bucket

-- how many of the calls, made one after the other, are allowed
unfoldable pub allowed_count : List Call → Store → ℕ
allowed_count [] store = 0
allowed_count (c ∷ cs) store =
    let (store', result) = settle c.now c.buckets store in
    (if result.allowed then 1 else 0) + allowed_count cs store'

-- The calls lie in order between two times, and each takes from the bucket, under distinct keys.
abbrev pub Between : Bucket → ℕ → ℕ → List Call → Type 0
Between b t end_ [] = t ≤ end_
Between b t end_ (c ∷ cs) =
    (t ≤ c.now) × Distinct same_key c.buckets × IsIn b c.buckets × Between b c.now end_ cs

Between-le : (b : Bucket) (t end_ : ℕ) (cs : List Call) → Between b t end_ cs → t ≤ end_
Between-le b t end_ [] h = h
Between-le b t end_ (c ∷ cs) h = ground (arith, Between-le b c.now end_ cs h.3)

window_from :
    (b : Bucket) (t end_ : ℕ) (cs : List Call) (store : Store)
    → ExpiresLate b.key store
    → Between b t end_ cs
    → allowed_count cs store * unit ≤ available t store b + (end_ - t) * b.per_minute
unfolding allowed_count
window_from b t end_ [] store late h = omega arith
window_from b t end_ (c ∷ cs) store late h =
    let rest = allowed_count cs (settle c.now c.buckets store).0 in
    let step : (c.now - t) * b.per_minute + (end_ - c.now) * b.per_minute
        ≡ (end_ - t) * b.per_minute =
      split (c.now - t) (end_ - c.now) (end_ - t) b.per_minute
        (omega (arith, Between-le b c.now end_ cs h.3)) in
    ground (
      arith,
      step,
      available_grows t c.now store b late h.0,
      available-settle c.now b c.buckets store h.1 h.2,
      window_from b c.now end_ cs (settle c.now c.buckets store).0
          (settle-ExpiresLate c.now b c.buckets store h.1 h.2) h.3,
    )
  where
    split : (x y z r : ℕ) → x + y ≡ z → x * r + y * r ≡ z * r
    split x y z r e = rw (← e) (grind arith)

-- From a store that no key leaves early, however the calls of all workers are ordered in time, and
-- whichever other buckets they take from: in any interval, a bucket lets through no more calls than
-- its capacity and the tokens that its rate adds in the interval.
pub allowed_in_window :
    (b : Bucket) (t end_ : ℕ) (cs : List Call) (store : Store)
    → ExpiresLate b.key store
    → Between b t end_ cs
    → allowed_count cs store * unit ≤ capacity b + (end_ - t) * b.per_minute
allowed_in_window b t end_ cs store late h =
    omega (arith, window_from b t end_ cs store late h, available-le-capacity t store b)

-- the store at the start, or as another worker has left it before one of the attempts
abbrev pub Seen : (ℕ → Attempt) → Store → Store → Type 0
Seen attempts store read = (read ≡ store) ⊎ ((i : ℕ) × ((attempts i).touched ≡ some read))

Seen-next :
    (attempts : ℕ → Attempt) (n : ℕ) (store other read : Store)
    → (attempts n).touched ≡ some other
    → Seen attempts other read
    → Seen attempts store read
Seen-next attempts n store other read broken (inl e) = inr (n, broken ∙ ap some (sym e))
Seen-next attempts n store other read broken (inr later) = inr later

-- However often other workers break up an attempt, the loop of `acquire` either settles exactly
-- once, on a store that one of its attempts has read, or gives up: it is refused with a wait of a
-- second, and the store is what the others have made of it.
pub acquire_rounds_atomic :
    (n : ℕ) (attempts : ℕ → Attempt) (buckets : List Bucket) (store : Store)
    → (read : Store) × Seen attempts store read
      × (((now : ℕ) × (acquire_rounds n attempts buckets store ≡ settle now buckets read))
          ⊎ (acquire_rounds n attempts buckets store
              ≡ (read, record { allowed = false; retry_after = second })))
unfolding acquire_rounds
acquire_rounds_atomic zero attempts buckets store = (store, inl refl, inr refl)
acquire_rounds_atomic (suc n) attempts buckets store = elim (Option-cases (attempts n).touched) [
  | inl quiet ↦ (store, inl refl, inl ((attempts n).now, rw (quiet, acquire_rounds)))
  | inr (other, broken) ↦
      let (read, seen, result) = acquire_rounds_atomic n attempts buckets other in
      (read, Seen-next attempts n store other read broken seen, rw (broken, acquire_rounds) result)
]
