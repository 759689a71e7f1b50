-- ===== src/System/Steps/Once.antt =====
-- What the parts of a send do to the counts of one recipient.
use emailmarketing.System.Steps.Flights.{
  count-++, count-kinds, count-swap_at, is_acked, is_go, is_id, is_of, lock_count,
  lock_count-remove_id, one_kind,
}
use emailmarketing.System.Steps.{
  Flight, Run, handed_note, has_token, kept, pick, swap_at, unheard_note,
}
use emailmarketing.System.Invariants.{IsOver}
use emailmarketing.Sending.SendOne.{World, release}
use emailmarketing.Base.{
  ℕ, ◌==◌, ◌+◌, ◌≤◌, ◌≡◌, refl, Bool, false, Option, none, some, List, arith, if◌then◌else◌, ◌++◌,
  count_where, inl, inr, ◌⊎◌,
}

-- how often the recipient is noted
abbrev pub times : ℕ → List ℕ → ℕ
times id ids = count_where (is_id id) ids

-- Before a token is recorded: each message that was taken is noted as unheard, or its task still
-- has the token to record; and each task that has begun holds the lock, or a lock has expired.
abbrev pub Early : ℕ → Run → Type 0
Early id r =
    (times id r.handed ≤ times id r.unheard + count_where (is_acked id) r.flights)
    × (count_where (is_of id) r.flights ≤ lock_count id r.world.locks + times id r.lapsed)

-- After that no task is let through any more.
abbrev pub Late : ℕ → Run → Type 0
Late id r =
    IsOver id r.world.db
    × (times id r.handed + count_where (is_go id) r.flights
        ≤ 1 + times id r.lapsed + times id r.unheard)

abbrev pub Bounded : ℕ → Run → Type 0
Bounded id r = Early id r ⊎ Late id r

pub lock_le : (id : ℕ) (locks : List ℕ) → lock_count id locks ≤ 1
lock_le id locks = ground arith

pub times-note :
    (id j : ℕ) (w w' : World) → w'.outbox ≡ w.outbox → times id (handed_note j w w') ≡ 0
unfolding handed_note count_where
times-note id j w w' h = rw h (ground arith)

pub times-note_other :
    (id j : ℕ) (w w' : World) → (j == id) ≡ false → times id (handed_note j w w') ≡ 0
unfolding handed_note count_where
times-note_other id j w w' h = ground arith

pub times-note_le : (id j : ℕ) (w w' : World) → times id (handed_note j w w') ≤ 1
unfolding handed_note count_where
times-note_le id j w w' = ground arith

times-unheard :
    (id j : ℕ) (w : World) (a : World × Option Flight)
    → times id (unheard_note j w a) ≡ (if has_token a.1 then 0 else times id (handed_note j w a.0))
unfolding unheard_note count_where
times-unheard id j w (w', o) = ground arith

-- the run after the n-th task, of recipient j, has gone on to a
abbrev pub gone_on : ℕ → ℕ → Run → World × Option Flight → Run
gone_on n j r a = record r {
  world = a.0;
  flights = swap_at n (kept j a.1) r.flights;
  handed = handed_note j r.world a.0 ++ r.handed;
  unheard = unheard_note j r.world a ++ r.unheard;
}

-- the counts after a task has gone on
module _ (id n j : ℕ) (f : Flight) (r : Run) (found : pick n r.flights ≡ some (j, f))
    (a : World × Option Flight) where
  pub times-handed :
      times id (gone_on n j r a).handed ≡ times id (handed_note j r.world a.0) + times id r.handed
  times-handed = count-++ (is_id id) (handed_note j r.world a.0) r.handed

  pub times-gone_unheard :
      times id (gone_on n j r a).unheard
      ≡ (if has_token a.1 then 0 else times id (handed_note j r.world a.0)) + times id r.unheard
  times-gone_unheard = omega (
    arith,
    count-++ (is_id id) (unheard_note j r.world a) r.unheard,
    times-unheard id j r.world a,
  )

  pub flights-gone :
      (p : ℕ × Flight → Bool)
      → count_where p (gone_on n j r a).flights + (if p (j, f) then 1 else 0)
        ≡ count_where p r.flights + count_where p (kept j a.1)
  flights-gone p = count-swap_at p n (kept j a.1) r.flights (j, f) found

-- a task of another recipient
pub other_goes_on :
    (id n j : ℕ) (f : Flight) (r : Run) (a : World × Option Flight)
    → pick n r.flights ≡ some (j, f)
    → (j == id) ≡ false
    → lock_count id a.0.locks ≡ lock_count id r.world.locks
    → (IsOver id r.world.db → IsOver id a.0.db)
    → Bounded id r
    → Bounded id (gone_on n j r a)
other_goes_on id n j f r (w', o) found other locks keeps b = elim b [
  | inl early ↦ inl (
    omega (
      arith,
      early.0,
      times-handed id n j f r found (w', o),
      times-note_other id j r.world w' other,
      times-gone_unheard id n j f r found (w', o),
      flights-gone id n j f r found (w', o) (is_acked id),
      one_kind id (j, f),
      not_mine,
    ),
    omega (
      arith,
      early.1,
      locks,
      flights-gone id n j f r found (w', o) (is_of id),
      none_of o,
      not_mine,
    ),
  )
  | inr late ↦ inr (
    keeps late.0,
    omega (
      arith,
      late.1,
      times-handed id n j f r found (w', o),
      times-note_other id j r.world w' other,
      times-gone_unheard id n j f r found (w', o),
      flights-gone id n j f r found (w', o) (is_go id),
      count-kinds id (kept j o),
      none_of o,
    ),
  )
]
  where
    not_mine : ◌≡◌ {A = ℕ} (if is_of id (j, f) then 1 else 0) 0
    not_mine = rw other refl

    none_of : (o : Option Flight) → count_where (is_of id) (kept j o) ≡ 0
    none_of none = unfold kept count_where in refl
    none_of (some g) = unfold kept count_where in rw other refl

pub lock_count-release : (id : ℕ) (w : World) → lock_count id (release id w).locks ≡ 0
unfolding release
lock_count-release id w = lock_count-remove_id id w.locks

-- the task ends without a token to record, and gives up the lock
pub ends :
    (id n : ℕ) (f : Flight) (r : Run) (w' : World)
    → pick n r.flights ≡ some (id, f)
    → is_acked id (id, f) ≡ false
    → w'.outbox ≡ r.world.outbox
    → lock_count id w'.locks ≡ 0
    → (IsOver id r.world.db → IsOver id w'.db)
    → Bounded id r
    → Bounded id (gone_on n id r (w', none))
ends id n f r w' found silent box locks keeps b = elim b [
  | inl early ↦ inl (
    omega (
      arith,
      early.0,
      times-handed id n id f r found (w', none),
      times-note id id r.world w' box,
      times-gone_unheard id n id f r found (w', none),
      flights-gone id n id f r found (w', none) (is_acked id),
      quiet,
    ),
    omega (
      arith,
      early.1,
      locks,
      lock_le id r.world.locks,
      flights-gone id n id f r found (w', none) (is_of id),
      mine id,
      left (is_of id),
    ),
  )
  | inr late ↦ inr (
    keeps late.0,
    omega (
      arith,
      late.1,
      times-handed id n id f r found (w', none),
      times-note id id r.world w' box,
      times-gone_unheard id n id f r found (w', none),
      flights-gone id n id f r found (w', none) (is_go id),
      left (is_go id),
    ),
  )
]
  where
    quiet : ◌≡◌ {A = ℕ} (if is_acked id (id, f) then 1 else 0) 0
    quiet = rw silent refl

    mine : (i : ℕ) → ◌≡◌ {A = ℕ} (if i == i then 1 else 0) 1
    mine i = ground arith

    left : (p : ℕ × Flight → Bool) → count_where p (kept id none) ≡ 0
    left p = unfold kept count_where in refl

-- the task records a token
pub records :
    (id n : ℕ) (f : Flight) (r : Run) (w' : World)
    → pick n r.flights ≡ some (id, f)
    → w'.outbox ≡ r.world.outbox
    → IsOver id w'.db
    → Bounded id r
    → Bounded id (gone_on n id r (w', none))
records id n f r w' found box over b = inr (over, bound)
  where
    left : (p : ℕ × Flight → Bool) → count_where p (kept id none) ≡ 0
    left p = unfold kept count_where in refl

    bound :
        times id (gone_on n id r (w', none)).handed
          + count_where (is_go id) (gone_on n id r (w', none)).flights
        ≤ 1 + times id r.lapsed + times id (gone_on n id r (w', none)).unheard
    bound = elim b [
      | inl early ↦ omega (
        arith,
        early.0,
        early.1,
        lock_le id r.world.locks,
        count-kinds id r.flights,
        times-handed id n id f r found (w', none),
        times-note id id r.world w' box,
        times-gone_unheard id n id f r found (w', none),
        flights-gone id n id f r found (w', none) (is_go id),
        left (is_go id),
      )
      | inr late ↦ omega (
        arith,
        late.1,
        times-handed id n id f r found (w', none),
        times-note id id r.world w' box,
        times-gone_unheard id n id f r found (w', none),
        flights-gone id n id f r found (w', none) (is_go id),
        left (is_go id),
      )
    ]
