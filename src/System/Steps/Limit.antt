-- ===== src/System/Steps/Limit.antt =====
-- Every step keeps the bound on the messages of one recipient.
use emailmarketing.System.Steps.{Run, checked}
use emailmarketing.Sending.SendOne.Validate.{validate}
use emailmarketing.Sending.SendOne.{Env}
use emailmarketing.Base.{ℕ, ◌∷◌}

-- a task that begins on the free lock
abbrev begun : Env → ℕ → Run → Run
begun env j r = record r {
  world = record r.world { db = (validate env.now j r.world.db).0; locks = j ∷ r.world.locks };
  flights = (j, checked (validate env.now j r.world.db).1) ∷ r.flights;
}
