-- ===== src/Verify.antt =====
-- app/services/verification/inhouse.py: the status of an address from its syntax and from the DNS of
-- its domain. The resolver is a parameter: what it answers to the MX and the A query of a domain. The
-- lookups of one batch run concurrently on distinct domains, and are made in some order here; the
-- Redis cache holds the texts of the statuses, and a failure to write it is left out.
pub mod Task
pub mod Cache
pub mod Batch
use emailmarketing.Import.{accepted}
use emailmarketing.Dict.{get, set}
use emailmarketing.Normalize.{Validator, domain_of, validate_syntax}
use emailmarketing.Models.{VerificationResult}
use emailmarketing.Text.{Text, codes, is_empty, mem}
use emailmarketing.Base.{
  ℕ, zero, suc, ◌==◌, ◌+◌, ◌-◌, ◌≤◌, ◌<◌, ◌≡◌, refl, Bool, true, false, ◌&&◌, ◌||◌, not, Option,
  none, some, List, [], ◌∷◌, arith, inl, inr, if◌then◌else◌, Bool-cases, Option-cases, ◌++◌, ◌*◌,
  ◌/◌, map, or_default,
}

-- what a query gives: a number of records, no such name or record, a timeout, or another error
pub data DnsAnswer : Type 0 where
  records : ℕ → DnsAnswer
  no_answer : DnsAnswer
  timed_out : DnsAnswer
  failed : Text → DnsAnswer

pub record Resolver : Type 0 where
  pub mx : Text → DnsAnswer
  pub a : Text → DnsAnswer

abbrev pub Status : Type 0
Status = VerificationResult × Text

unfoldable pub a_fallback : DnsAnswer → Status
a_fallback (records n) = (VerificationResult.valid, codes "a_fallback")
a_fallback no_answer = (VerificationResult.invalid, codes "no_mx_no_a")
a_fallback timed_out = (VerificationResult.unknown, codes "dns_timeout")
a_fallback (failed name) = (VerificationResult.unknown, codes "dns_error:" ++ name)

unfoldable pub mx_status : DnsAnswer → DnsAnswer → Status
mx_status (records (suc n)) a = (VerificationResult.valid, codes "mx")
mx_status (records zero) a = a_fallback a
mx_status no_answer a = a_fallback a
mx_status timed_out a = (VerificationResult.unknown, codes "dns_timeout")
mx_status (failed name) a = (VerificationResult.unknown, codes "dns_error:" ++ name)

unfoldable pub check_domain : Resolver → Text → Status
check_domain resolver domain = mx_status (resolver.mx domain) (resolver.a domain)

-- The cache of the run, and the entries `mxcache:<domain>` of Redis; `none` where there is no Redis.
pub record Caches : Type 0 where
  pub mem : List (Text × Status)
  pub redis : Option (List (Text × VerificationResult))

abbrev pub is_unknown : VerificationResult → Bool
is_unknown VerificationResult.unknown = true
is_unknown _ = false

unfoldable pub cached_in :
    Option (List (Text × VerificationResult)) → Text → Option VerificationResult
cached_in none domain = none
cached_in (some redis) domain = get domain redis

unfoldable pub store_in :
    Option (List (Text × VerificationResult))
    → Text
    → VerificationResult
    → Option (List (Text × VerificationResult))
store_in none domain result = none
store_in (some redis) domain result =
    if is_unknown result then some redis else some (set domain result redis)

-- after a miss of both caches
unfoldable pub looked_up : Text → Status → Caches → Caches × Status
looked_up domain status caches = (
  record { mem = set domain status caches.mem; redis = store_in caches.redis domain status.0 },
  status,
)

unfoldable pub missed : Resolver → Text → Option VerificationResult → Caches → Caches × Status
missed resolver domain none caches = looked_up domain (check_domain resolver domain) caches
missed resolver domain (some result) caches =
    (record caches { mem = set domain (result, codes "cache") caches.mem }, (result, codes "cache"))

unfoldable pub domain_status : Resolver → Text → Caches → Caches × Status
domain_status resolver domain caches = elim (get domain caches.mem) [
  | some status ↦ (caches, status)
  | none ↦ missed resolver domain (cached_in caches.redis domain) caches
]

pub record EmailVerification : Type 0 where
  pub email : Text
  pub result : VerificationResult
  pub reason : Text

-- `domains`, the set of the domains that need a lookup
unfoldable pub needed : Validator → List Text → List Text
needed validator [] = []
needed validator (email ∷ emails) =
    let rest = needed validator emails in
    elim (accepted (validate_syntax validator (some email))) [
      | none ↦ rest
      | some norm ↦
          let domain = domain_of norm in
          if is_empty norm || mem domain rest then rest else domain ∷ rest
    ]

unfoldable pub resolve_all :
    Resolver → List Text → Caches → List (Text × Status) → Caches × List (Text × Status)
resolve_all resolver [] caches results = (caches, results)
resolve_all resolver (d ∷ ds) caches results =
    let (caches', status) = domain_status resolver d caches in
    resolve_all resolver ds caches' (set d status results)

abbrev pub unresolved : Status
unresolved = (VerificationResult.unknown, codes "unresolved")

-- The text of a syntax error is that of the package, which `error_of` gives.
unfoldable pub outcome_of :
    Validator → (Text → Text) → List (Text × Status) → Text → EmailVerification
outcome_of validator error_of results email =
    let status = or_default (get (domain_of email) results) unresolved in
    if not (validate_syntax validator (some email)).ok
    then record {
      email = email;
      result = VerificationResult.invalid;
      reason = codes "syntax:" ++ error_of email;
    }
    else record { email = email; result = status.0; reason = status.1 }

unfoldable pub verify_batch :
    Validator → (Text → Text) → Resolver → List Text → Caches → Caches × List EmailVerification
verify_batch validator error_of resolver emails caches =
    let (caches', results) = resolve_all resolver (needed validator emails) caches [] in
    (caches', map (outcome_of validator error_of results) emails)
