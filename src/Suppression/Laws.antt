-- ===== src/Suppression/Laws.antt =====
-- What a suppression guarantees to every later check.
use emailmarketing.Base.{
  ◌≡◌, refl, arith, Bool, true, false, ◌||◌, Option, none, some, List, [], ◌∷◌, any-append, inl,
  inr, Bool-cases, Option-cases, Distinct, Distinct-snoc, update_where, All,
}
use emailmarketing.Text.{Text, ◌==◌}
use emailmarketing.Text.Laws.{eq_iff}
use emailmarketing.Normalize.{normalize_email}
use emailmarketing.Models.{Db, Suppression, SuppressionReason, Contact, is_active}
use emailmarketing.Suppression.{
  Session, Race, has_suppression, is_suppressed_under, is_suppressed, insert_suppression,
  add_if_new, flip_contact, suppress_under, suppress, contact_status_for,
}

abbrev pub same_address : Option Text → Option Text → Bool
same_address none _ = false
same_address _ none = false
same_address (some e) (some f) = e == f

has_suppression-add_if_new :
    (row : Suppression) (s : Session) (norm : Text)
    → has_suppression (add_if_new none row s).0.current norm
      ≡ (has_suppression s.current norm || row.email == norm)
unfolding add_if_new
has_suppression-add_if_new row s norm = ground (
  arith,
  any-append (λ (x : Suppression). x.email == norm) s.current.suppressions (row ∷ []),
  eq_iff row.email norm,
)

has_suppression-flip_contact :
    (e norm : Text) (r : SuppressionReason) (db : Db)
    → has_suppression (flip_contact e r db) norm ≡ has_suppression db norm
unfolding has_suppression flip_contact
has_suppression-flip_contact e norm r db = refl

has_suppression-suppress_under :
    (o : Option Text) (r : SuppressionReason) (d : Option Text) (u : Bool) (s : Session)
    (norm : Text)
    → has_suppression (suppress_under none o r d u s).0.current norm
      ≡ (has_suppression s.current norm || same_address o (some norm))
unfolding suppress_under
has_suppression-suppress_under none r d u s norm = ground arith
has_suppression-suppress_under (some e) r d u s norm =
    let row : Suppression = record { email = e; reason = r; detail = d } in
    ground (
      arith,
      has_suppression-add_if_new row s norm,
      has_suppression-flip_contact e norm r (add_if_new none row s).0.current,
    )

-- Where no other transaction interferes, an address is suppressed after the call exactly if it was
-- before, or has the same canonical form as the address of the call.
pub suppress_exact :
    (e f : Text) (r : SuppressionReason) (d : Option Text) (u : Bool) (s : Session)
    → is_suppressed (suppress none e r d u s).0.current f ≡ (
        is_suppressed s.current f
        || same_address (normalize_email (some e)) (normalize_email (some f)))
unfolding suppress is_suppressed
suppress_exact e f r d u s = elim (Option-cases (normalize_email (some f))) [
  | inl lost ↦ rw lost (ground arith)
  | inr (norm, found) ↦
      rw found (has_suppression-suppress_under (normalize_email (some e)) r d u s norm)
]

raced :
    (race : Race) (e : Text) (r : SuppressionReason) (d : Option Text) (u : Bool) (s : Session)
    → ((other : Db) → race ≡ some other → has_suppression other e ≡ true)
    → has_suppression (suppress_under race (some e) r d u s).0.current e ≡ true
unfolding suppress_under insert_suppression add_if_new
raced none e r d u s won =
    rw (has_suppression-suppress_under (some e) r d u s e) (ground (arith, eq_iff e e))
raced (some other) e r d u s won = ground (
  arith,
  won other refl,
  has_suppression-flip_contact e e r other,
  has_suppression-flip_contact e e r s.current,
)

-- Whether the insert succeeds or loses the race to a transaction that has committed the address,
-- the address of the call is suppressed afterwards.
pub suppress-is_suppressed :
    (race : Race) (e : Text) (r : SuppressionReason) (d : Option Text) (u : Bool) (s : Session)
    → ((other : Db) → race ≡ some other → is_suppressed other e ≡ true)
    → is_suppressed (suppress race e r d u s).0.current e ≡ true
unfolding suppress is_suppressed is_suppressed_under
suppress-is_suppressed race e r d u s won = elim (Option-cases (normalize_email (some e))) [
  | inl lost ↦ rw lost
  | inr (norm, found) ↦ rw found (raced race norm r d u s (rw found at won))
]

-- UNIQUE(email) on `suppressions`
abbrev pub same_email : Suppression → Suppression → Bool
same_email a b = a.email == b.email

abbrev pub UniqueSuppressions : Db → Type 0
UniqueSuppressions db = Distinct same_email db.suppressions

add_if_new-UniqueSuppressions :
    (race : Race) (row : Suppression) (s : Session)
    → UniqueSuppressions s.current
    → ((other : Db) → race ≡ some other → UniqueSuppressions other)
    → UniqueSuppressions (add_if_new race row s).0.current
unfolding add_if_new
add_if_new-UniqueSuppressions race row s h ho =
    elim (Bool-cases (has_suppression s.current row.email)) [
      | inl old ↦ rw old h
      | inr new ↦ rw new (inserted race new ho)
    ]
  where
    inserted :
        (race : Race)
        → has_suppression s.current row.email ≡ false
        → ((other : Db) → race ≡ some other → UniqueSuppressions other)
        → UniqueSuppressions (insert_suppression race row s).0.current
    inserted none new ho = Distinct-snoc same_email s.current.suppressions row h new
    inserted (some other) new ho = ho other refl

under-UniqueSuppressions :
    (race : Race) (o : Option Text) (r : SuppressionReason) (d : Option Text) (u : Bool)
    (s : Session)
    → UniqueSuppressions s.current
    → ((other : Db) → race ≡ some other → UniqueSuppressions other)
    → UniqueSuppressions (suppress_under race o r d u s).0.current
unfolding suppress_under
under-UniqueSuppressions race none r d u s h ho = h
under-UniqueSuppressions race (some e) r d true s h ho =
    add_if_new-UniqueSuppressions race (record { email = e; reason = r; detail = d }) s h ho
under-UniqueSuppressions race (some e) r d false s h ho =
    add_if_new-UniqueSuppressions race (record { email = e; reason = r; detail = d }) s h ho

-- The check before the insert keeps the addresses of the table distinct, with and without a race,
-- provided that the other transaction has kept them so.
pub suppress-UniqueSuppressions :
    (race : Race) (e : Text) (r : SuppressionReason) (d : Option Text) (u : Bool) (s : Session)
    → UniqueSuppressions s.current
    → ((other : Db) → race ≡ some other → UniqueSuppressions other)
    → UniqueSuppressions (suppress race e r d u s).0.current
unfolding suppress
suppress-UniqueSuppressions race e r d u s h ho =
    under-UniqueSuppressions race (normalize_email (some e)) r d u s h ho

-- No contact row with this canonical address is active.
abbrev pub NoActive : Option Text → List Contact → Type 0
NoActive none cs = Unit
NoActive (some e) cs = All (λ (c : Contact). (c.email == e) ≡ true → is_active c.status ≡ false) cs

flip-NoActive :
    (e : Text) (r : SuppressionReason) (cs : List Contact)
    → NoActive (some e) (
        update_where
          (λ (c : Contact). c.email == e)
          (λ (c : Contact). record c { status = contact_status_for r })
          cs)
unfolding update_where contact_status_for
flip-NoActive e r [] = tt
flip-NoActive e r (c ∷ cs) = (λ h. ground arith, flip-NoActive e r cs)

-- A suppression that may update the contact leaves no active contact under the address, whatever
-- the reason and whether or not the address was suppressed before.
pub suppress-NoActive :
    (race : Race) (e : Text) (r : SuppressionReason) (d : Option Text) (s : Session)
    → NoActive (normalize_email (some e)) (suppress race e r d true s).0.current.contacts
unfolding suppress suppress_under flip_contact
suppress-NoActive race e r d s = go (normalize_email (some e))
  where
    go : (o : Option Text) → NoActive o (suppress_under race o r d true s).0.current.contacts
    go none = tt
    go (some norm) =
        flip-NoActive norm r
          (add_if_new race (record { email = norm; reason = r; detail = d }) s).0.current.contacts
