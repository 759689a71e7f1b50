-- ===== src/System/Steps/Handed.antt =====
-- How often Postal can take a message for one recipient.
use emailmarketing.System.Steps.Once.{
  times, Bounded, gone_on, ends, records, lock_count-release, times-note_le, times-handed,
  times-gone_unheard, flights-gone,
}
use emailmarketing.System.Steps.Over.{recorded-IsOver}
use emailmarketing.System.Steps.Kept.{Kept-advance, db-post, Kept-stopped}
use emailmarketing.System.Steps.Flights.{one_kind, is_acked, is_go, is_of, lock_count, one_kind}
use emailmarketing.System.Steps.{
  Flight, Run, advance_flight, checked, closed, hand_over, handed_note, has_token, kept, pick,
  replied,
}
use emailmarketing.System.{Op}
use emailmarketing.System.Invariants.{IsKeyed, IsOver, IsOver-Stable}
use emailmarketing.Sending.SendOne.Cases.{Agrees, pace_cases}
use emailmarketing.Sending.SendOne.Safety.{outbox-after_reply}
use emailmarketing.Sending.SendOne.Message.{SendMessage}
use emailmarketing.Sending.SendOne.Validate.{Payload, go, stop}
use emailmarketing.Sending.SendOne.{
  Env, PostalReply, World, accepted, permanent, post, release, transient, unexpected,
}
use emailmarketing.Base.{
  ℕ, ◌==◌, ◌+◌, ◌≤◌, ◌<◌, ◌≡◌, refl, Option, some, List, arith, if◌then◌else◌, count_where, inl,
  inr, subst, sym, ap, ◌∙◌,
}

locks-post : (env : Env) (m : SendMessage) (w : World) → (post env m w).locks ≡ w.locks
unfolding post
locks-post env m w = ground arith

-- Postal is called
hands :
    (id n : ℕ) (env : Env) (p : Payload) (m : SendMessage) (r : Run) (w : World)
    → pick n r.flights ≡ some (id, checked (go p))
    → Agrees r.world w
    → Bounded id r
    → Bounded id (gone_on n id r (post env m w, some (replied p (env.postal m))))
hands id n env p m r w found same b = elim b [
  | inl early ↦ inl (
    omega (
      arith,
      early.0,
      times-handed id n id f r found a,
      times-gone_unheard id n id f r found a,
      times-note_le id id r.world a.0,
      flights-gone id n id f r found a (is_acked id),
      one_kind id (id, f),
      is_mine id,
      go_kind,
      token_kind (env.postal m) refl,
    ),
    omega (arith, early.1, locks, flights-gone id n id f r found a (is_of id), is_mine id, of_kept),
  )
  | inr late ↦ inr (
    subst (IsOver id) (sym (db-post env m w ∙ same.0)) late.0,
    omega (
      arith,
      late.1,
      times-handed id n id f r found a,
      times-gone_unheard id n id f r found a,
      times-note_le id id r.world a.0,
      flights-gone id n id f r found a (is_go id),
      go_kind,
      go_kept,
    ),
  )
]
  where
    f : Flight
    f = checked (go p)

    a : World × Option Flight
    a = (post env m w, some (replied p (env.postal m)))

    is_mine : (i : ℕ) → ◌≡◌ {A = ℕ} (if i == i then 1 else 0) 1
    is_mine i = ground arith

    go_kind : ◌≡◌ {A = ℕ} (if is_go id (id, f) then 1 else 0) 1
    go_kind = unfold is_go in is_mine id

    of_kept : count_where (is_of id) (kept id a.1) ≡ 1
    of_kept = unfold kept count_where in omega (arith, is_mine id)

    go_kept : count_where (is_go id) (kept id a.1) ≡ 0
    go_kept = unfold kept count_where is_go in refl

    locks : lock_count id (post env m w).locks ≡ lock_count id r.world.locks
    locks = ap (lock_count id) (locks-post env m w ∙ same.2)

    token_kind :
        (reply : PostalReply)
        → env.postal m ≡ reply
        → times id (handed_note id r.world (post env m w))
          ≤ count_where (is_acked id) (kept id (some (replied p reply)))
            + (if has_token (some (replied p reply))
                then 0
                else times id (handed_note id r.world (post env m w)))
    token_kind (accepted token) e =
        unfold kept count_where is_acked has_token in
        omega (arith, is_mine id, times-note_le id id r.world (post env m w))
    token_kind transient e = unfold kept count_where is_acked has_token in omega arith
    token_kind unexpected e = unfold kept count_where is_acked has_token in omega arith
    token_kind (permanent detail) e = unfold kept count_where is_acked has_token in omega arith

pub goes_on :
    (id n : ℕ) (env : Env) (before : List Op) (f : Flight) (r : Run)
    → pick n r.flights ≡ some (id, f)
    → IsKeyed r.world.db
    → id < r.world.db.next_recipient_id
    → Bounded id r
    → Bounded id (gone_on n id r (advance_flight (closed env before) id f r.world))
goes_on id n env before f r found keyed given b = by_flight f found
  where
    over_kept :
        (f : Flight)
        → IsOver id r.world.db
        → IsOver id (advance_flight (closed env before) id f r.world).0.db
    over_kept f h = Kept-advance (IsOver id) (IsOver-Stable id) env before id f r.world h

    by_flight :
        (f : Flight)
        → pick n r.flights ≡ some (id, f)
        → Bounded id (gone_on n id r (advance_flight (closed env before) id f r.world))
    by_flight (checked (stop o)) found =
        unfold advance_flight in
        ends id n (checked (stop o)) r _ found (unfold is_acked in refl) (unfold release in refl)
          (lock_count-release id r.world) (unfold release in λ h. h) b
    by_flight (replied p (accepted token)) found =
        unfold advance_flight in
        records id n (replied p (accepted token)) r _ found
          (unfold release in outbox-after_reply (closed env before) p id (accepted token) r.world)
          (unfold release in recorded-IsOver (closed env before) p id token r.world keyed given) b
    by_flight (replied p transient) found =
        let over = over_kept (replied p transient) in
        unfold advance_flight in
        ends id n (replied p transient) r _ found (unfold is_acked in refl)
          (unfold release in outbox-after_reply (closed env before) p id transient r.world)
          (lock_count-release id _) (unfold advance_flight in over) b
    by_flight (replied p unexpected) found =
        let over = over_kept (replied p unexpected) in
        unfold advance_flight in
        ends id n (replied p unexpected) r _ found (unfold is_acked in refl)
          (unfold release in outbox-after_reply (closed env before) p id unexpected r.world)
          (lock_count-release id _) (unfold advance_flight in over) b
    by_flight (replied p (permanent detail)) found =
        let over = over_kept (replied p (permanent detail)) in
        unfold advance_flight in
        ends id n (replied p (permanent detail)) r _ found (unfold is_acked in refl)
          (unfold release in outbox-after_reply (closed env before) p id (permanent detail) r.world)
          (lock_count-release id _) (unfold advance_flight in over) b
    by_flight (checked (go p)) found =
        unfold advance_flight in
        pace_cases (λ a. Bounded id (gone_on n id r (hand_over (closed env before) p id a)))
          (closed env before) p id r.world
          (λ w' o s.
            unfold hand_over in
            ends id n (checked (go p)) r _ found (unfold is_acked in refl) (unfold release in s.1)
              (lock_count-release id w') (unfold release in λ h. subst (IsOver id) (sym s.0) h) b)
          (λ w' o s.
            unfold hand_over in
            ends id n (checked (go p)) r _ found (unfold is_acked in refl) (unfold release in s.1)
              (lock_count-release id w')
              (unfold release in
                λ h.
                  subst (IsOver id) (sym s.0)
                    (Kept-stopped (IsOver id) (IsOver-Stable id) env before p id r.world.db h))
              b)
          (λ w' s. unfold hand_over in hands id n (closed env before) p _ r w' found s b)
