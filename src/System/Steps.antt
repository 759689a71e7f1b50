-- ===== src/System/Steps.antt =====
-- Runs of the whole program, with the sends of all workers interleaved: transactions, and the parts
-- of the send tasks (app/tasks/sending.py). Between its parts a task holds no transaction, and any
-- other step can come there, a part of another task for the same recipient included; all that keeps
-- such tasks apart is the lock, which can expire. That a task calls Postal and that it records the
-- answer are parts of their own.
pub mod Parts
pub mod Kept
pub mod Flights
pub mod Silent
pub mod Over
pub mod Once
pub mod Handed
pub mod Limit
use emailmarketing.Sending.SendOne.Message.{SendMessage, build_message}
use emailmarketing.Sending.SendOne.Validate.{Checked, Payload, go, stop}
use emailmarketing.Sending.SendOne.{
  Env, Paced, PostalReply, World, accepted, after_reply, pace, permanent, post, release, take_up,
  transient, unexpected,
}
use emailmarketing.System.{Op, run_op, run_ops}
use emailmarketing.Base.{
  ℕ, zero, suc, ◌==◌, ◌≡◌, refl, Bool, true, false, Option, none, some, List, [], ◌∷◌,
  if◌then◌else◌, ◌++◌, any, length,
}

-- an environment in which the others do nothing but the program's own transactions
abbrev pub closed : Env → List Op → Env
closed env before = record env { before_skip = run_ops before }

-- How far a task has come: phase 1 is done, or Postal has been called.
pub data Flight : Type 0 where
  checked : Checked → Flight
  replied : Payload → PostalReply → Flight

-- the call of Postal, unless phase 2 has returned
unfoldable pub hand_over : Env → Payload → ℕ → Paced → World × Option Flight
hand_over env p id (w, some outcome) = (release id w, none)
hand_over env p id (w, none) =
    let m = build_message env.escape env.unsubscribe_url p in
    (post env m w, some (replied p (env.postal m)))

-- the next part of a task, and how far the task has then come
unfoldable pub advance_flight : Env → ℕ → Flight → World → World × Option Flight
advance_flight env id (checked (stop outcome)) w = (release id w, none)
advance_flight env id (checked (go p)) w = hand_over env p id (pace env p id w)
advance_flight env id (replied p reply) w = (release id (after_reply env p id reply w).0, none)

pub record Run : Type 0 where
  pub world : World
  -- the tasks that have begun, by their recipients
  pub flights : List (ℕ × Flight)
  -- for which recipients Postal has taken a message, and for which of them without a message token
  pub handed : List ℕ
  pub unheard : List ℕ
  -- whose lock has expired while it was held
  pub lapsed : List ℕ

abbrev pub start : World → Run
start w = record { world = w; flights = []; handed = []; unheard = []; lapsed = [] }

-- the recipient, where the outbox has grown
unfoldable pub handed_note : ℕ → World → World → List ℕ
handed_note id w w' = if length w'.outbox == length w.outbox then [] else id ∷ []

unfoldable pub has_token : Option Flight → Bool
has_token none = false
has_token (some (checked c)) = false
has_token (some (replied p (accepted token))) = true
has_token (some (replied p transient)) = false
has_token (some (replied p unexpected)) = false
has_token (some (replied p (permanent detail))) = false

unfoldable pub unheard_note : ℕ → World → World × Option Flight → List ℕ
unheard_note id w (w', o) = if has_token o then [] else handed_note id w w'

unfoldable pub pick : {A : Type 0} → ℕ → List A → Option A
pick n [] = none
pick zero (x ∷ xs) = some x
pick (suc n) (x ∷ xs) = pick n xs

-- the list with these in place of its n-th
unfoldable pub swap_at : {A : Type 0} → ℕ → List A → List A → List A
swap_at n ys [] = []
swap_at zero ys (x ∷ xs) = ys ++ xs
swap_at (suc n) ys (x ∷ xs) = x ∷ swap_at n ys xs

unfoldable pub kept : ℕ → Option Flight → List (ℕ × Flight)
kept id none = []
kept id (some f) = (id, f) ∷ []

unfoldable pub advance_at : Env → ℕ → Option (ℕ × Flight) → Run → Run
advance_at env n none r = r
advance_at env n (some (id, f)) r =
    let advanced = advance_flight env id f r.world in
    record r {
      world = advanced.0;
      flights = swap_at n (kept id advanced.1) r.flights;
      handed = handed_note id r.world advanced.0 ++ r.handed;
      unheard = unheard_note id r.world advanced ++ r.unheard;
    }

unfoldable pub taken_up : ℕ → World × Option Checked → Run → Run
taken_up id (w, none) r = r
taken_up id (w, some c) r = record r { world = w; flights = (id, checked c) ∷ r.flights }

pub data Step : Type 0 where
  commit : Op → Step
  -- a task begins: the lock and phase 1
  begin : Env → ℕ → Step
  -- the n-th task goes on; the transactions are those before a hard stop of warming
  advance : Env → List Op → ℕ → Step
  -- the lock expires, after its 180 seconds
  lapse : ℕ → Step

unfoldable pub run_step : Step → Run → Run
run_step (commit o) r = record r { world = record r.world { db = run_op o r.world.db } }
run_step (begin env id) r = taken_up id (take_up env id r.world) r
run_step (advance env before n) r = advance_at (closed env before) n (pick n r.flights) r
run_step (lapse id) r =
    if any (λ i. i == id) r.world.locks
    then record r { world = release id r.world; lapsed = id ∷ r.lapsed }
    else r

unfoldable pub run_steps : List Step → Run → Run
run_steps [] r = r
run_steps (s ∷ ss) r = run_steps ss (run_step s r)
