-- ===== src/Api/Keys/Laws.antt =====
-- A key opens the status endpoint from its creation to its revocation.
use emailmarketing.Sending.SendOne.Validate.{pool_or}
use emailmarketing.Api.Keys.{
  create_api_key, verify_api_key, revoke_api_key, verify_nonempty, ApiKey, KeyTable, opens,
}
use emailmarketing.Base.{
  ℕ, ◌==◌, ◌≡◌, refl, Bool, true, false, Option, none, some, List, [], ◌∷◌, arith, inl, inr,
  Bool-cases, Option-cases, ◌++◌, find, any, update_where, any-append, ◌∙◌, sym,
}
use emailmarketing.Text.{Text, codes, strip, is_empty}
use emailmarketing.Text.Laws.{==_refl as text_refl}

module _ {A : Type 0} where
  find-some : (p : A → Bool) (xs : List A) → any p xs ≡ true → (x : A) × (find p xs ≡ some x)
  unfolding find
  find-some p [] h = cc
  find-some p (x ∷ xs) h = elim (Bool-cases (p x)) [
    | inl yes_ ↦ (x, rw yes_ refl)
    | inr no_ ↦ let (y, e) = find-some p xs (ground (arith, h, no_)) in (y, rw no_ e)
  ]

module _ (hash : Text → Text) where
  revoked_rows :
      (id : ℕ) (rows : List ApiKey) (plaintext : Text) (k : ApiKey)
      → find (opens hash plaintext) (
          update_where
            (λ (k : ApiKey). k.id == id)
            (λ (k : ApiKey). record k { is_active = false })
            rows)
        ≡ some k
      → (k.id == id) ≡ false
  unfolding find update_where
  revoked_rows id [] plaintext k h = cc
  revoked_rows id (r ∷ rows) plaintext k h = elim (Bool-cases (r.id == id)) [
    | inl is ↦ revoked_rows id rows plaintext k (ground (arith, h, is))
    | inr other ↦ ground (arith, h, other, revoked_rows id rows plaintext k)
  ]

  pub row-verify_nonempty :
      (now : ℕ) (plaintext : Text) (t : KeyTable)
      → (verify_nonempty hash now plaintext t).1 ≡ find (opens hash plaintext) t.rows
  unfolding verify_nonempty
  row-verify_nonempty now plaintext t = elim (Option-cases (find (opens hash plaintext) t.rows)) [
    | inl lost ↦ rw (lost, verify_nonempty) refl
    | inr (k, found) ↦ rw (found, verify_nonempty) refl
  ]

  -- A new key that is not empty opens the endpoint: its plaintext is accepted, and by a row that is
  -- active and has its hash.
  pub verify-create_api_key :
      (name random : Text) (now : ℕ) (t : KeyTable)
      → let (t', plaintext) = create_api_key hash name random t in
        (k : ApiKey) × ((verify_api_key hash now (some plaintext) t').1 ≡ some k)
  unfolding create_api_key verify_api_key verify_nonempty is_empty
  verify-create_api_key name random now t =
      let plaintext = codes "emk_" ++ random in
      let row : ApiKey = record {
        id = t.next_id;
        name = pool_or (some (strip name)) (codes "status key");
        key_hash = hash plaintext;
        is_active = true;
        last_used_at = none;
      } in
      let (k, e) = find-some (opens hash plaintext) (t.rows ++ row ∷ []) (
        any-append (opens hash plaintext) t.rows (row ∷ [])
        ∙ ground (arith, text_refl (hash plaintext))) in
      (k, rw (e, verify_nonempty) refl)

  -- After a revocation no text is accepted by the row that was revoked.
  pub verify-revoke_api_key :
      (id now : ℕ) (key : Option Text) (t : KeyTable) (k : ApiKey)
      → (verify_api_key hash now key (revoke_api_key hash id t).0).1 ≡ some k
      → (k.id == id) ≡ false
  unfolding verify_api_key revoke_api_key
  verify-revoke_api_key id now none t k h = cc
  verify-revoke_api_key id now (some plaintext) t k h = elim (Bool-cases (is_empty plaintext)) [
    | inl void ↦ absurd (gone (rw void at h))
    | inr full ↦
        revoked_rows id t.rows plaintext k
          (sym (row-verify_nonempty now plaintext (revoke_api_key hash id t).0) ∙ rw full at h)
  ]
    where
      gone : {A : Type 0} {a : A} → none ≡ some a → ⊥
      gone e = cc
