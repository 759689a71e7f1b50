-- ===== src/Tokens.antt =====
-- app/services/tokens.py. The signed serializer of the package itsdangerous is a parameter: `dumps`
-- signs a text, and `loads` gives it back, or none where the signature is bad.
use emailmarketing.Base.{◌≡◌, Option, some, inl, inr, Option-cases, ◌++◌, or_default}
use emailmarketing.Text.{Text, codes}
use emailmarketing.Normalize.{normalize_email}
use emailmarketing.Normalize.Laws.{normalize_email_idem}

module _ (dumps : Text → Text) (loads : Text → Option Text) where
  unfoldable pub make_unsubscribe_token : Text → Text
  make_unsubscribe_token email = dumps (or_default (normalize_email (some email)) email)

  unfoldable pub read_unsubscribe_token : Text → Option Text
  read_unsubscribe_token token = normalize_email (loads token)

  unfoldable pub unsubscribe_url : Text → Text → Text
  unfolding make_unsubscribe_token
  unsubscribe_url base email = base ++ (codes "/u/" ++ make_unsubscribe_token email)

  -- If the serializer reads back what it has signed, then the token of any address gives its
  -- canonical form, and none where it has none.
  pub read-make_unsubscribe_token :
      ((t : Text) → loads (dumps t) ≡ some t)
      → (email : Text)
      → read_unsubscribe_token (make_unsubscribe_token email) ≡ normalize_email (some email)
  unfolding make_unsubscribe_token read_unsubscribe_token
  read-make_unsubscribe_token signed email = elim (Option-cases (normalize_email (some email))) [
    | inl lost ↦ rw (lost, signed email) lost
    | inr (norm, found) ↦ rw (found, signed norm) (normalize_email_idem email norm found)
  ]
