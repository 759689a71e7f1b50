-- ===== src/System/Steps/Silent.antt =====
-- What still goes to an address that is on the suppression list.
use emailmarketing.Normalize.Laws.{normalize_email_idem}
use emailmarketing.Api.{unsubscribe, unsubscribe_found, of_session}
use emailmarketing.Tokens.{
  make_unsubscribe_token, read_unsubscribe_token, read-make_unsubscribe_token,
}
use emailmarketing.Sending.SendOne.Safety.{Cleared, cleared, Grows, outbox-post, outbox-after_reply}
use emailmarketing.Text.{◌==◌ as str_eq, codes}
use emailmarketing.Text.Laws.{==→eq as text_eq}
use emailmarketing.System.Steps.Kept.{Kept-step}
use emailmarketing.Normalize.{normalize_email}
use emailmarketing.System.Invariants.{IsBlocked, IsBlocked-Stable}
use emailmarketing.Sending.SendOne.Validate.{payload, Payload, Checked, stop, go, validate}
use emailmarketing.Models.{Db, SuppressionReason}
use emailmarketing.Sending.SendOne.{Env, World, release, take_up, post}
use emailmarketing.Sending.SendOne.Cases.{pace_cases}
use emailmarketing.System.Steps.Flights.{count-++, count-swap_at}
use emailmarketing.Sending.SendOne.Message.{build_message, SendMessage}
use emailmarketing.Suppression.{is_suppressed_under, is_suppressed, Race, begin as begin_session}
use emailmarketing.Text.{Text}
use emailmarketing.System.Steps.{
  Step, commit, begin, advance, lapse, Run, run_step, run_steps, closed, Flight, checked, replied,
  advance_flight, hand_over, kept, advance_at, pick, taken_up,
}
use emailmarketing.Base.{any, arith, ◌==◌, ◌≤◌, subst, sym, count_where, ◌∙◌}
use emailmarketing.Suppression.Laws.{same_address, suppress-is_suppressed}
use emailmarketing.Base.{
  ℕ, ◌+◌, ◌≡◌, refl, Bool, true, false, Option, none, some, List, [], ◌∷◌, inl, inr, if◌then◌else◌,
  Bool-cases,
}

-- whether a message goes to the canonical address
unfoldable pub is_to : Text → SendMessage → Bool
is_to norm m = same_address (normalize_email (some m.to)) (some norm)

same_suppressed :
    (o : Option Text) (norm : Text) (db : Db)
    → IsBlocked norm db
    → is_suppressed_under db o ≡ false
    → same_address o (some norm) ≡ false
unfolding is_suppressed_under
same_suppressed none norm db h s = refl
same_suppressed (some e) norm db h s = elim (Bool-cases (str_eq e norm)) [
  | inr other ↦ other
  | inl is ↦ absurd (clash (subst (λ x. IsBlocked x db) (sym (text_eq e norm is)) h) s)
]
  where
    clash : {b : Bool} → b ≡ true → b ≡ false → ⊥
    clash x y = cc

Cleared-email :
    (now id : ℕ) (norm : Text) (db : Db) (p : Payload)
    → IsBlocked norm db
    → Cleared now id db p
    → same_address (normalize_email (some p.email)) (some norm) ≡ false
unfolding payload
Cleared-email now id norm db p h c =
    subst (λ (q : Payload). same_address (normalize_email (some q.email)) (some norm) ≡ false)
      (sym c.snapshot)
      (same_suppressed (normalize_email (some c.cr.email_snapshot)) norm db h
        (unfold is_suppressed in c.not_suppressed))

-- a task that phase 1 has let through, and whose message goes to the address
unfoldable pub is_for : Text → ℕ × Flight → Bool
is_for norm (id, checked (stop o)) = false
is_for norm (id, checked (go p)) = same_address (normalize_email (some p.email)) (some norm)
is_for norm (id, replied p reply) = false

-- what Postal has taken for the address, and what can still come
abbrev mail : Text → Run → ℕ
mail norm r = count_where (is_to norm) r.world.outbox + count_where (is_for norm) r.flights

abbrev mail_of : Text → World → List (ℕ × Flight) → ℕ
mail_of norm w fs = count_where (is_to norm) w.outbox + count_where (is_for norm) fs

Grows-mail :
    (norm : Text) (before after : List SendMessage) (m : SendMessage)
    → Grows before m after
    → count_where (is_to norm) after
      ≤ count_where (is_to norm) before + (if is_to norm m then 1 else 0)
unfolding count_where
Grows-mail norm before after m (inl same) = rw same (omega arith)
Grows-mail norm before after m (inr more) =
    rw more (omega (arith, count-++ (is_to norm) before (m ∷ [])))

-- a part of a task takes from what can still come what it adds to what Postal has taken
advance-mail :
    (norm : Text) (env : Env) (id : ℕ) (f : Flight) (w : World)
    → mail_of norm (advance_flight env id f w).0 (kept id (advance_flight env id f w).1)
      ≤ mail_of norm w ((id, f) ∷ [])
unfolding advance_flight release kept count_where is_for
advance-mail norm env id (checked (stop o)) w = omega arith
advance-mail norm env id (replied p reply) w =
    rw (outbox-after_reply env p id reply w) (omega arith)
advance-mail norm env id (checked (go p)) w =
    pace_cases
      (λ r.
        mail_of norm (hand_over env p id r).0 (kept id (hand_over env p id r).1)
        ≤ mail_of norm w ((id, checked (go p)) ∷ []))
      env p id w (λ w' o a. unfold hand_over release in rw a.1 (omega arith))
      (λ w' o a. unfold hand_over release in rw a.1 (omega arith))
      (λ w' a.
        unfold hand_over is_to build_message in
        omega (
          arith,
          Grows-mail norm w.outbox _ (build_message env.escape env.unsubscribe_url p) (
              subst
                (λ o.
                  Grows o (build_message env.escape env.unsubscribe_url p)
                    (post env (build_message env.escape env.unsubscribe_url p) w').outbox)
                a.1 (outbox-post env (build_message env.escape env.unsubscribe_url p) w')),
        ))

advance_at-mail :
    (norm : Text) (env : Env) (n : ℕ) (o : Option (ℕ × Flight)) (r : Run)
    → pick n r.flights ≡ o
    → mail norm (advance_at env n o r) ≤ mail norm r
unfolding advance_at
advance_at-mail norm env n none r h = omega arith
advance_at-mail norm env n (some (id, f)) r h = omega (
  arith,
  advance-mail norm env id f r.world,
  count-swap_at (is_for norm) n (kept id (advance_flight env id f r.world).1) r.flights (id, f) h,
  one norm (id, f),
)
  where
    one :
        (norm : Text) (x : ℕ × Flight)
        → count_where (is_for norm) (x ∷ []) ≡ (if is_for norm x then 1 else 0)
    one norm x = unfold count_where in omega arith

-- phase 1 lets no message through to an address on the list
checked-mail :
    (norm : Text) (now id : ℕ) (db : Db) (c : Checked)
    → IsBlocked norm db
    → (validate now id db).1 ≡ c
    → is_for norm (id, checked c) ≡ false
unfolding is_for
checked-mail norm now id db (stop o) h e = refl
checked-mail norm now id db (go p) h e = Cleared-email now id norm db p h (cleared now id db p e)

begin-mail :
    (norm : Text) (env : Env) (id : ℕ) (r : Run)
    → IsBlocked norm r.world.db
    → mail norm (taken_up id (take_up env id r.world) r) ≤ mail norm r
unfolding take_up taken_up
begin-mail norm env id r h = elim (Bool-cases (any (λ i. i == id) r.world.locks)) [
  | inl held ↦ rw held (omega arith)
  | inr free ↦ rw free (
      unfold count_where in
      omega (
        arith,
        quiet (is_for norm (id, checked (validate env.now id r.world.db).1))
            (checked-mail norm env.now id r.world.db _ h refl),
      ))
]
  where
    quiet : (b : Bool) → b ≡ false → ◌≡◌ {A = ℕ} (if b then 1 else 0) 0
    quiet b e = rw e refl

step-mail :
    (norm : Text) (s : Step) (r : Run)
    → IsBlocked norm r.world.db
    → mail norm (run_step s r) ≤ mail norm r
step-mail norm (commit o) r h = unfold run_step in omega arith
step-mail norm (begin env id) r h = unfold run_step in begin-mail norm env id r h
step-mail norm (advance env before n) r h =
    unfold run_step in advance_at-mail norm (closed env before) n (pick n r.flights) r refl
step-mail norm (lapse id) r h =
    unfold run_step release in
    elim (Bool-cases (any (λ i. i == id) r.world.locks)) [
      | inl held ↦ rw held (omega arith)
      | inr free ↦ rw free (omega arith)
    ]

steps-mail :
    (norm : Text) (ss : List Step) (r : Run)
    → IsBlocked norm r.world.db
    → mail norm (run_steps ss r) ≤ mail norm r
unfolding run_steps
steps-mail norm [] r h = omega arith
steps-mail norm (s ∷ ss) r h = omega (
  arith,
  step-mail norm s r h,
  steps-mail norm ss (run_step s r) (Kept-step (IsBlocked norm) (IsBlocked-Stable norm) s r h),
)

-- Once an address is on the suppression list, only the tasks that phase 1 had let through before
-- can still reach it, each with one message: whatever transactions are committed after that, and
-- whichever tasks begin, go on or lose their lock in whatever order and environments, Postal takes
-- at most as many messages for the address as there are tasks in flight with a message for it.
pub blocked_gets_no_mail :
    (norm : Text) (ss : List Step) (r : Run)
    → IsBlocked norm r.world.db
    → count_where (is_to norm) (run_steps ss r).world.outbox
      ≤ count_where (is_to norm) r.world.outbox + count_where (is_for norm) r.flights
blocked_gets_no_mail norm ss r h = omega (arith, steps-mail norm ss r h)

unsubscribe_found-IsBlocked :
    (dumps : Text → Text) (loads : Text → Option Text) (race : Race) (norm : Text) (db : Db)
    → normalize_email (some norm) ≡ some norm
    → ((other : Db) → race ≡ some other → is_suppressed other norm ≡ true)
    → IsBlocked norm (unsubscribe_found dumps loads race (some norm) db).0
unfolding unsubscribe_found of_session is_suppressed is_suppressed_under
unsubscribe_found-IsBlocked dumps loads race norm db canonical won =
    subst (λ o. is_suppressed_under (unsubscribe_found dumps loads race (some norm) db).0 o ≡ true)
      canonical
      (suppress-is_suppressed race norm SuppressionReason.unsubscribe
        (some (codes "unsubscribe link")) true (begin_session db) won)

-- If the serializer reads back what it has signed, and an insert race at the unsubscribe page is lost
-- only to a transaction that has suppressed the same address, then after the link of an address is
-- used, Postal takes at most as many messages for the address as there were tasks in flight that
-- phase 1 had let through with a message for it, hence none if there were none. This is so whatever
-- transactions are committed after that, and whichever tasks begin, go on or lose their lock.
pub unsubscribed_gets_no_mail :
    (dumps : Text → Text) (loads : Text → Option Text) (race : Race) (email norm : Text)
    (ss : List Step) (r : Run)
    → ((t : Text) → loads (dumps t) ≡ some t)
    → normalize_email (some email) ≡ some norm
    → ((other : Db) → race ≡ some other → is_suppressed other norm ≡ true)
    → let token = make_unsubscribe_token dumps loads email in
      let w = record r.world { db = (unsubscribe dumps loads race token r.world.db).0 } in
      let r' = record r { world = w } in
      count_where (is_to norm) (run_steps ss r').world.outbox
      ≤ count_where (is_to norm) r.world.outbox + count_where (is_for norm) r.flights
unsubscribed_gets_no_mail dumps loads race email norm ss r signed canonical won =
    blocked_gets_no_mail norm ss _
      (blocked (read-make_unsubscribe_token dumps loads signed email ∙ canonical))
  where
    blocked :
        read_unsubscribe_token dumps loads (make_unsubscribe_token dumps loads email) ≡ some norm
        → IsBlocked norm
            (unsubscribe dumps loads race (make_unsubscribe_token dumps loads email) r.world.db).0
    blocked e =
        unfold unsubscribe in
        subst (λ o. IsBlocked norm (unsubscribe_found dumps loads race o r.world.db).0) (sym e)
          (unsubscribe_found-IsBlocked dumps loads race norm r.world.db
            (normalize_email_idem email norm canonical) won)
