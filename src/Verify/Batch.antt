-- ===== src/Verify/Batch.antt =====
-- A batch against the verification of each address by itself.
use emailmarketing.Verify.Cache.{result_of, Right, IsFaithful, Has, resolve-Has, resolve-Right}
use emailmarketing.Base.{All, All-weaken, map, ap, subst}
use emailmarketing.Import.{accepted}
use emailmarketing.Normalize.{Validator, validate_syntax, domain_of}
use emailmarketing.Dict.{get}
use emailmarketing.Models.{VerificationResult}
use emailmarketing.Verify.{
  Resolver, Caches, resolve_all, Status, needed, EmailVerification, outcome_of, verify_batch,
}
use emailmarketing.Text.{Text, mem, is_empty}
use emailmarketing.Text.Laws.{eq_iff}
use emailmarketing.Base.{
  ◌≡◌, refl, true, false, ◌||◌, not, Option, none, some, List, [], ◌∷◌, arith, inl, inr,
  if◌then◌else◌, Bool-cases, ap, All, All-weaken, map, subst,
}

module _ (validator : Validator) (resolver : Resolver) where
  -- the result of one address by itself
  unfoldable pub direct_result : Text → VerificationResult
  direct_result email =
      if not (validate_syntax validator (some email)).ok
      then VerificationResult.invalid
      else result_of resolver (domain_of email)

  -- An address that passes the syntax check has the domain of its normalized form.
  abbrev pub KeepsDomain : Text → Type 0
  KeepsDomain email =
      (validate_syntax validator (some email)).ok ≡ true
      → (norm : Text) × (accepted (validate_syntax validator (some email)) ≡ some norm)
        × (is_empty norm ≡ false)
        × (domain_of norm ≡ domain_of email)

  mem-needed :
      (email : Text) (emails : List Text)
      → (validate_syntax validator (some email)).ok ≡ true
      → KeepsDomain email
      → mem (domain_of email) (needed validator (email ∷ emails)) ≡ true
  unfolding needed
  mem-needed email emails ok keeps =
      let (norm, found, full, same_domain) = keeps ok in
      subst (λ d. mem d (needed validator (email ∷ emails)) ≡ true) same_domain
        (elim (Bool-cases (is_empty norm || mem (domain_of norm) (needed validator emails))) [
          | inl old ↦ rw (found, needed, old) (ground (arith, old, full))
          | inr new ↦
              rw (found, needed, new)
                (unfold mem in ground (arith, eq_iff (domain_of norm) (domain_of norm)))
        ])

  mem-needed_later :
      (d email : Text) (emails : List Text)
      → mem d (needed validator emails) ≡ true
      → mem d (needed validator (email ∷ emails)) ≡ true
  unfolding needed
  mem-needed_later d email emails h =
      by_check (accepted (validate_syntax validator (some email))) refl
    where
      by_check :
          (o : Option Text)
          → accepted (validate_syntax validator (some email)) ≡ o
          → mem d (needed validator (email ∷ emails)) ≡ true
      by_check none e = rw (e, needed) h
      by_check (some norm) e =
          elim (Bool-cases (is_empty norm || mem (domain_of norm) (needed validator emails))) [
            | inl old ↦ rw (e, needed, old) h
            | inr new ↦ rw (e, needed, new) (unfold mem in ground (arith, h))
          ]

  outcome-Right :
      (error_of : Text → Text) (email : Text) (results : List (Text × Status))
      → ((validate_syntax validator (some email)).ok ≡ true
          → Has resolver results (domain_of email))
      → Right resolver results
      → (outcome_of validator error_of results email).result ≡ direct_result email
  unfolding outcome_of direct_result
  outcome-Right error_of email results has right =
      elim (Bool-cases (validate_syntax validator (some email)).ok) [
        | inr bad ↦ rw (bad, outcome_of) refl
        | inl ok ↦ let (s, e) = has ok in rw (ok, e, outcome_of) (right (domain_of email) s e)
      ]

  -- the results of the addresses, each by itself
  abbrev pub results_of : List EmailVerification → List VerificationResult
  results_of rs = map (λ (r : EmailVerification). r.result) rs

  outcomes-Right :
      (error_of : Text → Text) (emails all : List Text) (results : List (Text × Status))
      → Right resolver results
      → All
          (λ e. (validate_syntax validator (some e)).ok ≡ true → Has resolver results (domain_of e))
          emails
      → results_of (map (outcome_of validator error_of results) emails) ≡ map direct_result emails
  outcomes-Right error_of [] all results right h = refl
  outcomes-Right error_of (e ∷ es) all results right h =
      rw (outcome-Right error_of e results h.0 right)
        (ap (λ rs. direct_result e ∷ rs) (outcomes-Right error_of es all results right h.1))

  All-KeepsDomain :
      (emails : List Text)
      → All KeepsDomain emails
      → All
          (λ e.
            (validate_syntax validator (some e)).ok ≡ true
            → mem (domain_of e) (needed validator emails) ≡ true)
          emails
  All-KeepsDomain [] h = tt
  All-KeepsDomain (e ∷ es) h = (
    λ ok. mem-needed e es ok h.0,
    All-weaken
        (λ d.
          (validate_syntax validator (some d)).ok ≡ true
          → mem (domain_of d) (needed validator es) ≡ true)
        (λ d.
          (validate_syntax validator (some d)).ok ≡ true
          → mem (domain_of d) (needed validator (e ∷ es)) ≡ true)
        (λ d k ok. mem-needed_later (domain_of d) e es (k ok)) es (All-KeepsDomain es h.1),
  )

  -- Resolving each domain of a batch once, behind the cache of the run and that of Redis, gives each
  -- address the result that its own syntax check and the lookup of its own domain give, if the
  -- caches hold nothing else at the start and an address that passes the syntax check keeps its
  -- domain when it is normalized; and the caches hold nothing else afterwards.
  pub verify_batch-direct_result :
      (error_of : Text → Text) (emails : List Text) (caches : Caches)
      → IsFaithful resolver caches
      → All KeepsDomain emails
      → (results_of (verify_batch validator error_of resolver emails caches).1
          ≡ map direct_result emails)
        × IsFaithful resolver (verify_batch validator error_of resolver emails caches).0
  unfolding verify_batch get
  verify_batch-direct_result error_of emails caches faithful keeps =
      let (right, still) =
        resolve-Right resolver (needed validator emails) caches [] faithful
          (λ d s e. absurd (never e)) in
      (
        outcomes-Right error_of emails emails
            (resolve_all resolver (needed validator emails) caches []).1 right
            (All-weaken
              (λ d.
                (validate_syntax validator (some d)).ok ≡ true
                → mem (domain_of d) (needed validator emails) ≡ true)
              (λ d.
                (validate_syntax validator (some d)).ok ≡ true
                → Has resolver (resolve_all resolver (needed validator emails) caches []).1
                    (domain_of d))
              (λ d k ok.
                resolve-Has resolver (needed validator emails) caches [] (domain_of d) (k ok))
              emails (All-KeepsDomain emails keeps)),
        still,
      )
    where
      never : {A : Type 0} {a : A} → none ≡ some a → ⊥
      never e = cc
