-- ===== src/Sending/SendOne/Cases.antt =====
-- The ways that a cleared recipient can go, as one rule for what holds of the world afterwards.
use emailmarketing.RateLimit.DailyCap.{DailyCapResult}
use emailmarketing.RateLimit.{AcquireResult}
use emailmarketing.Base.{none, some, ℕ, ◌≡◌, refl, Bool, inl, inr, Bool-cases, ap}
use emailmarketing.Counters.{skipped_count}
use emailmarketing.Models.{Db, RecipientStatus, OverflowPolicy, hard_stop, defer}
use emailmarketing.Sending.SendOne.Validate.{Payload, SendOutcome}
use emailmarketing.Sending.SendOne.{
  Paced, returned, World, Env, enqueue, stop_for_warming, after_pacing, pace, settle_pending, mark,
}

-- the two worlds agree on the database, on what was sent, and on the locks
abbrev pub Agrees : World → World → Type 0
Agrees w w' = (w'.db ≡ w.db) × (w'.outbox ≡ w.outbox) × (w'.locks ≡ w.locks)

-- the database after the hard stop of warming
abbrev pub stopped_db : Env → Payload → ℕ → Db → Db
stopped_db env p id db =
    settle_pending (mark RecipientStatus.skipped_cap) skipped_count p.campaign_id id
      (env.before_skip db)

module _ (P : Paced → Type 0) (env : Env) (p : Payload) (id : ℕ) (w : World)
    (deferred : (w' : World) (o : SendOutcome) → Agrees w w' → P (w', some o))
    (stopped : (w' : World) (o : SendOutcome)
      → Agrees (record w { db = stopped_db env p id w.db }) w'
      → P (w', some o))
    (clear : (w' : World) → Agrees w w' → P (w', none)) where
  later : (countdown : ℕ) (w' : World) → Agrees w w' → Agrees w (enqueue id countdown w')
  unfolding enqueue
  later countdown w' h = h

  warmed :
      (o : OverflowPolicy) (w' : World)
      → Agrees w w'
      → P (returned (stop_for_warming env p id o w'))
  unfolding stop_for_warming
  warmed defer w' h = deferred _ _ (later 3600 w' h)
  warmed hard_stop w' h = stopped _ _ (ap (stopped_db env p id) h.0, h.1, h.2)

  after_pacing_cases :
      (rate : AcquireResult) (cap : DailyCapResult) (full : Bool) (w' : World)
      → Agrees w w'
      → P (after_pacing env p id rate cap full w')
  unfolding after_pacing
  after_pacing_cases rate cap full w' h = elim (Bool-cases rate.allowed) [
    | inr a ↦ rw a (deferred _ _ (later _ w' h))
    | inl a ↦ elim (Bool-cases cap.allowed) [
      | inr b ↦ rw (a, b) (deferred _ _ (later _ w' h))
      | inl b ↦ elim (Bool-cases full) [
        | inl c ↦ rw (a, b, c) (warmed p.overflow_policy w' h)
        | inr c ↦ rw (a, b, c) (clear w' h)
      ]
    ]
  ]

  pub pace_cases : P (pace env p id w)
  unfolding pace
  pace_cases = after_pacing_cases _ _ _ _ (refl, refl, refl)
