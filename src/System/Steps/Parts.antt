-- ===== src/System/Steps/Parts.antt =====
-- The parts of a task, with the transactions of others at the call of Postal, are the whole task.
use emailmarketing.System.Steps.{Flight, advance_flight, checked, hand_over}
use emailmarketing.Sending.SendOne.Validate.{Checked, go, stop}
use emailmarketing.Sending.SendOne.{
  Env, Paced, World, after_pace, carry_out, pace, proceed, release, send_one, take_up, transmit,
}
use emailmarketing.Base.{ℕ, ◌≡◌, refl, Option, none, some}

-- the last part, if there is one
unfoldable pub finish : Env → ℕ → World × Option Flight → World
finish env id (w, none) = w
finish env id (w, some f) = (advance_flight env id f (record w { db = env.during_send w.db })).0

unfoldable pub all_parts : Env → ℕ → World × Option Checked → World
all_parts env id (w, none) = w
all_parts env id (w, some c) = finish env id (advance_flight env id (checked c) w)

carry_out-all_parts :
    (env : Env) (id : ℕ) (t : World × Option Checked) → (carry_out env id t).0 ≡ all_parts env id t
unfolding carry_out all_parts advance_flight proceed finish
carry_out-all_parts env id (w, none) = refl
carry_out-all_parts env id (w, some (stop o)) = refl
carry_out-all_parts env id (w, some (go p)) = paced (pace env p id w)
  where
    paced :
        (r : Paced) → release id (after_pace env p id r).0 ≡ finish env id (hand_over env p id r)
    paced (w', some o) = unfold after_pace hand_over in refl
    paced (w', none) = unfold after_pace hand_over transmit in refl

-- `send_one` is its parts, one after the other.
pub send_one-all_parts :
    (env : Env) (id : ℕ) (w : World) → (send_one env id w).0 ≡ all_parts env id (take_up env id w)
unfolding send_one
send_one-all_parts env id w = carry_out-all_parts env id (take_up env id w)
