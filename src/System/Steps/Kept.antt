-- ===== src/System/Steps/Kept.antt =====
-- The parts of a send are made of the program's transactions, so that they keep what these keep.
use emailmarketing.Suppression.Laws.{UniqueSuppressions}
use emailmarketing.System.Invariants.{IsKeyed, IsKeyed-Stable, UniqueSuppressions-Stable}
use emailmarketing.Sending.SendOne.Cases.{stopped_db, pace_cases}
use emailmarketing.Text.{Text}
use emailmarketing.Sending.SendOne.Message.{SendMessage}
use emailmarketing.Sending.SendOne.Validate.{Payload, stop, go, validate}
use emailmarketing.System.Sends.{Stable-run_op, Stable-run_ops}
use emailmarketing.System.Stable.{Stable}
use emailmarketing.Models.{Db, get_recipient}
use emailmarketing.System.Steps.{
  Step, commit, begin, advance, lapse, Run, run_step, run_steps, closed, Flight, checked, replied,
  advance_flight, hand_over, advance_at, taken_up, pick,
}
use emailmarketing.Base.{
  ℕ, ◌==◌, ◌≡◌, Option, none, some, List, [], ◌∷◌, arith, inl, inr, Bool-cases, Option-cases, any,
  subst, sym, ◌∙◌,
}
use emailmarketing.System.{
  Op, sending_op, persisting, failing, capping, checking, run_op, run_ops, run_sending,
}
use emailmarketing.Sending.SendOne.{
  PostalReply, accepted, transient, unexpected, permanent, Env, after_reply, persist, World, retry,
  enqueue, persist_found, post, release, take_up,
}

pub db-post : (env : Env) (m : SendMessage) (w : World) → (post env m w).db ≡ w.db
unfolding post
db-post env m w = ground arith

module _ (Q : Db → Type 0) (st : Stable Q) where
  Kept-persist :
      (env : Env) (p : Payload) (id : ℕ) (token : Text) (w : World)
      → Q w.db
      → Q (persist env p id token w).0.db
  unfolding persist
  Kept-persist env p id token w h = elim (Option-cases (get_recipient w.db id)) [
    | inl lost ↦ rw (lost, persist) h
    | inr (cr, found) ↦
        rw (found, persist)
          (subst (λ o. Q (persist_found env.now p token o w.db)) found
            (unfold run_op run_sending in
              Stable-run_op Q st (sending_op (persisting env.now p token id)) w.db h))
  ]

  pub Kept-reply :
      (env : Env) (p : Payload) (id : ℕ) (reply : PostalReply) (w : World)
      → Q w.db
      → Q (after_reply env p id reply w).0.db
  unfolding after_reply
  Kept-reply env p id (accepted token) w h = Kept-persist env p id token w h
  Kept-reply env p id transient w h = unfold retry enqueue in subst Q (ground arith) h
  Kept-reply env p id unexpected w h = h
  Kept-reply env p id (permanent detail) w h =
      unfold run_op run_sending in
      Stable-run_op Q st (sending_op (failing detail p.campaign_id id)) w.db h

  pub Kept-stopped :
      (env : Env) (before : List Op) (p : Payload) (id : ℕ) (db : Db)
      → Q db
      → Q (stopped_db (closed env before) p id db)
  Kept-stopped env before p id db h =
      unfold run_op run_sending in
      Stable-run_op Q st (sending_op (capping p.campaign_id id)) (run_ops before db)
        (Stable-run_ops Q st before db h)

  pub Kept-advance :
      (env : Env) (before : List Op) (id : ℕ) (f : Flight) (w : World)
      → Q w.db
      → Q (advance_flight (closed env before) id f w).0.db
  unfolding advance_flight release
  Kept-advance env before id (checked (stop o)) w h = h
  Kept-advance env before id (replied p reply) w h = Kept-reply (closed env before) p id reply w h
  Kept-advance env before id (checked (go p)) w h =
      pace_cases (λ r. Q (hand_over (closed env before) p id r).0.db) (closed env before) p id w
        (λ w' o a. unfold hand_over in subst Q (sym a.0) h)
        (λ w' o a. unfold hand_over in subst Q (sym a.0) (Kept-stopped env before p id w.db h))
        (λ w' a. unfold hand_over in subst Q (sym (db-post (closed env before) _ w' ∙ a.0)) h)

  Kept-advance_at :
      (env : Env) (before : List Op) (n : ℕ) (o : Option (ℕ × Flight)) (r : Run)
      → Q r.world.db
      → Q (advance_at (closed env before) n o r).world.db
  unfolding advance_at
  Kept-advance_at env before n none r h = h
  Kept-advance_at env before n (some (id, f)) r h = Kept-advance env before id f r.world h

  pub Kept-checking : (now id : ℕ) (db : Db) → Q db → Q (validate now id db).0
  Kept-checking now id db h =
      unfold run_op run_sending in Stable-run_op Q st (sending_op (checking now id)) db h

  pub Kept-step : (s : Step) (r : Run) → Q r.world.db → Q (run_step s r).world.db
  unfolding run_step
  Kept-step (commit o) r h = Stable-run_op Q st o r.world.db h
  Kept-step (begin env id) r h =
      unfold take_up taken_up in
      elim (Bool-cases (any (λ i. i == id) r.world.locks)) [
        | inl held ↦ rw held h
        | inr free ↦ rw free (Kept-checking env.now id r.world.db h)
      ]
  Kept-step (advance env before n) r h = Kept-advance_at env before n (pick n r.flights) r h
  Kept-step (lapse id) r h = elim (Bool-cases (any (λ i. i == id) r.world.locks)) [
    | inl held ↦ unfold release in rw held h
    | inr free ↦ rw free h
  ]

  pub Kept-steps : (ss : List Step) (r : Run) → Q r.world.db → Q (run_steps ss r).world.db
  unfolding run_steps
  Kept-steps [] r h = h
  Kept-steps (s ∷ ss) r h = Kept-steps ss (run_step s r) (Kept-step s r h)

-- Whatever the program does, the keys of the ledger stay distinct and below the next key, and the
-- addresses of the suppression list stay distinct: every transaction and every part of a send keeps
-- both, lost races of an insert and deletions included, however the sends are interleaved.
pub run_steps-Unique :
    (ss : List Step) (r : Run)
    → IsKeyed r.world.db
    → UniqueSuppressions r.world.db
    → IsKeyed (run_steps ss r).world.db × UniqueSuppressions (run_steps ss r).world.db
run_steps-Unique ss r keyed unique = (
  Kept-steps IsKeyed IsKeyed-Stable ss r keyed,
  Kept-steps UniqueSuppressions UniqueSuppressions-Stable ss r unique,
)
