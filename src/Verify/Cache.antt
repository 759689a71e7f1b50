-- ===== src/Verify/Cache.antt =====
-- The caches of the verification hold results that a lookup would give.
use emailmarketing.Dict.Laws.{get-set}
use emailmarketing.Dict.{get, set}
use emailmarketing.Models.{VerificationResult}
use emailmarketing.Verify.{
  Resolver, Caches, missed, resolve_all, store_in, Status, cached_in, domain_status, looked_up,
  check_domain, is_unknown,
}
use emailmarketing.Text.{◌==◌ as str_eq, Text, mem, codes}
use emailmarketing.Text.Laws.{==→eq as text_eq}
use emailmarketing.Base.{
  ◌≡◌, refl, true, false, Option, none, some, List, [], ◌∷◌, arith, inl, inr, Bool-cases,
  Option-cases, ap, sym, ◌∙◌,
}

module _ (resolver : Resolver) where
  abbrev pub result_of : Text → VerificationResult
  result_of domain = (check_domain resolver domain).0

  -- what a table of statuses has is what the lookup would give
  abbrev pub Right : List (Text × Status) → Type 0
  Right m = (d : Text) (s : Status) → get d m ≡ some s → s.0 ≡ result_of d

  abbrev pub RightRedis : Option (List (Text × VerificationResult)) → Type 0
  RightRedis r = (d : Text) (v : VerificationResult) → cached_in r d ≡ some v → v ≡ result_of d

  -- Both caches hold results that the lookup would give.
  abbrev pub IsFaithful : Caches → Type 0
  IsFaithful c = Right c.mem × RightRedis c.redis

  unwrap : {A : Type 0} {a b : A} → some a ≡ some b → a ≡ b
  unwrap e = cc

  Right-set :
      (d : Text) (s : Status) (m : List (Text × Status))
      → s.0 ≡ result_of d
      → Right m
      → Right (set d s m)
  Right-set d s m h right j t e = elim (Bool-cases (str_eq d j)) [
    | inl is ↦
        ap (λ (x : Status). x.0) (sym (unwrap (sym (rw is at (get-set d j s m)) ∙ e)))
        ∙ (h ∙ ap result_of (text_eq d j is))
    | inr other ↦ right j t (sym (rw other at (get-set d j s m)) ∙ e)
  ]

  RightRedis-store :
      (d : Text) (v : VerificationResult) (r : Option (List (Text × VerificationResult)))
      → v ≡ result_of d
      → RightRedis r
      → RightRedis (store_in r d v)
  unfolding store_in cached_in
  RightRedis-store d v none h right j w e = right j w e
  RightRedis-store d v (some m) h right j w e = elim (Bool-cases (is_unknown v)) [
    | inl unsure ↦ right j w (rw unsure at e)
    | inr sure ↦ elim (Bool-cases (str_eq d j)) [
      | inl is ↦
          sym (unwrap (sym (rw is at (get-set d j v m)) ∙ rw sure at e))
          ∙ (h ∙ ap result_of (text_eq d j is))
      | inr other ↦ right j w (sym (rw other at (get-set d j v m)) ∙ rw sure at e)
    ]
  ]

  missed_right :
      (d : Text) (o : Option VerificationResult) (c : Caches)
      → IsFaithful c
      → cached_in c.redis d ≡ o
      → ((missed resolver d o c).1.0 ≡ result_of d) × IsFaithful (missed resolver d o c).0
  unfolding missed looked_up
  missed_right d none c h e = (
    refl,
    (
      Right-set d (check_domain resolver d) c.mem refl h.0,
      RightRedis-store d (result_of d) c.redis refl h.1,
    ),
  )
  missed_right d (some v) c h e =
      let right = h.1 d v e in (right, (Right-set d (v, codes "cache") c.mem right h.0, h.1))

  status_right :
      (d : Text) (c : Caches)
      → IsFaithful c
      → ((domain_status resolver d c).1.0 ≡ result_of d) × IsFaithful (domain_status resolver d c).0
  unfolding domain_status
  status_right d c h = elim (Option-cases (get d c.mem)) [
    | inr (s, found) ↦ rw (found, domain_status) (h.0 d s found, h)
    | inl lost ↦ rw (lost, domain_status) (missed_right d (cached_in c.redis d) c h refl)
  ]

  -- the domains that a table of results has
  abbrev pub Has : List (Text × Status) → Text → Type 0
  Has m d = (s : Status) × (get d m ≡ some s)

  Has-set : (d j : Text) (s : Status) (m : List (Text × Status)) → Has m j → Has (set d s m) j
  Has-set d j s m (t, e) = elim (Bool-cases (str_eq d j)) [
    | inl is ↦ (s, rw is at (get-set d j s m))
    | inr other ↦ (t, rw other at (get-set d j s m) ∙ e)
  ]

  resolve_keeps :
      (ds : List Text) (c : Caches) (m : List (Text × Status)) (j : Text)
      → Has m j
      → Has (resolve_all resolver ds c m).1 j
  unfolding resolve_all
  resolve_keeps [] c m j h = h
  resolve_keeps (d ∷ ds) c m j h =
      resolve_keeps ds (domain_status resolver d c).0 (set d (domain_status resolver d c).1 m) j
        (Has-set d j (domain_status resolver d c).1 m h)

  pub resolve-Has :
      (ds : List Text) (c : Caches) (m : List (Text × Status)) (j : Text)
      → mem j ds ≡ true
      → Has (resolve_all resolver ds c m).1 j
  unfolding resolve_all mem
  resolve-Has [] c m j h = absurd (never h)
    where
      never : false ≡ true → ⊥
      never e = cc
  resolve-Has (d ∷ ds) c m j h = elim (Bool-cases (str_eq d j)) [
    | inl is ↦
        resolve_keeps ds (domain_status resolver d c).0 (set d (domain_status resolver d c).1 m) j
          ((domain_status resolver d c).1, rw is at (get-set d j (domain_status resolver d c).1 m))
    | inr other ↦
        resolve-Has ds (domain_status resolver d c).0 (set d (domain_status resolver d c).1 m) j
          (ground (arith, h, other))
  ]

  pub resolve-Right :
      (ds : List Text) (c : Caches) (m : List (Text × Status))
      → IsFaithful c
      → Right m
      → Right (resolve_all resolver ds c m).1 × IsFaithful (resolve_all resolver ds c m).0
  unfolding resolve_all
  resolve-Right [] c m h right = (right, h)
  resolve-Right (d ∷ ds) c m h right =
      let now = status_right d c h in
      resolve-Right ds (domain_status resolver d c).0 (set d (domain_status resolver d c).1 m) now.1
        (Right-set d (domain_status resolver d c).1 m now.0 right)
