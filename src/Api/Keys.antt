-- ===== src/Api/Keys.antt =====
-- app/services/api_keys.py and `require_api_key` of app/deps.py: the keys of the status endpoint.
-- The random text and the SHA-256 of the standard library are parameters.
pub mod Laws
use emailmarketing.Sending.SendOne.Validate.{pool_or}
use emailmarketing.Sending.SendOne.Message.{non_empty}
use emailmarketing.Text.{◌==◌ as str_eq, Text, codes, is_empty, strip}
use emailmarketing.Base.{
  ℕ, zero, suc, ◌==◌, ◌+◌, ◌-◌, ◌≤◌, ◌<◌, ◌≡◌, refl, Bool, true, false, ◌&&◌, ◌||◌, not, Option,
  none, some, List, [], ◌∷◌, arith, inl, inr, if◌then◌else◌, Bool-cases, Option-cases, ◌++◌, ◌*◌,
  ◌/◌, find, update_where, any,
}

pub record ApiKey : Type 0 where
  pub id : ℕ
  pub name : Text
  pub key_hash : Text
  pub is_active : Bool
  pub last_used_at : Option ℕ

pub record KeyTable : Type 0 where
  pub rows : List ApiKey
  pub next_id : ℕ

module _ (hash : Text → Text) where
  -- the second part is the plaintext, shown once
  unfoldable pub create_api_key : Text → Text → KeyTable → KeyTable × Text
  create_api_key name random t =
      let plaintext = codes "emk_" ++ random in
      (
        record {
          rows =
              t.rows
              ++ record {
                id = t.next_id;
                name = pool_or (some (strip name)) (codes "status key");
                key_hash = hash plaintext;
                is_active = true;
                last_used_at = none;
              }
                ∷ [];
          next_id = t.next_id + 1;
        },
        plaintext,
      )

  unfoldable pub revoke_api_key : ℕ → KeyTable → KeyTable × Bool
  revoke_api_key id t = (
    record t {
      rows =
          update_where (λ (k : ApiKey). k.id == id) (λ (k : ApiKey). record k { is_active = false })
            t.rows;
    },
    any (λ (k : ApiKey). k.id == id) t.rows,
  )

  -- `ApiKey.key_hash == _hash(plaintext), ApiKey.is_active`
  abbrev pub opens : Text → ApiKey → Bool
  opens plaintext k = str_eq k.key_hash (hash plaintext) && k.is_active

  unfoldable pub verify_nonempty : ℕ → Text → KeyTable → KeyTable × Option ApiKey
  verify_nonempty now plaintext t = elim (find (opens plaintext) t.rows) [
    | none ↦ (t, none)
    | some k ↦ (
      record t {
        rows =
            update_where (λ (j : ApiKey). j.id == k.id)
              (λ (j : ApiKey). record j { last_used_at = some now }) t.rows;
      },
      some k,
    )
  ]

  unfoldable pub verify_api_key : ℕ → Option Text → KeyTable → KeyTable × Option ApiKey
  verify_api_key now none t = (t, none)
  verify_api_key now (some plaintext) t =
      if is_empty plaintext then (t, none) else verify_nonempty now plaintext t

-- the key of a request: its own header, or what follows "Bearer " in `Authorization`
unfoldable pub drop_prefix : Text → Text → Option Text
drop_prefix [] s = some s
drop_prefix (c ∷ p) [] = none
drop_prefix (c ∷ p) (d ∷ s) = let rest = drop_prefix p s in if c == d then rest else none

unfoldable pub request_key : Option Text → Text → Option Text
request_key header authorization = elim (non_empty header) [
  | some key ↦ some key
  | none ↦ elim (drop_prefix (codes "Bearer ") authorization) [
    | some key ↦ some key
    | none ↦ header
  ]
]
