-- ===== src/Normalize.antt =====
-- app/services/normalize.py. The syntax check of the package email_validator is a parameter: the
-- normalized address that `validate_email` returns, or none where it raises `EmailNotValidError`.
pub mod Laws
use emailmarketing.Base.{ℕ, Bool, true, false, ◌||◌, not, Option, none, some, if◌then◌else◌}
use emailmarketing.Text.{Text, strip, lower, is_empty, contains, rsplit_last}

abbrev pub at_sign : ℕ
at_sign = b'@'

unfoldable pub normalize_email : Option Text → Option Text
normalize_email none = none
normalize_email (some raw) =
    let value = lower (strip raw) in
    if is_empty value || not (contains at_sign value) then none else some value

pub record SyntaxCheck : Type 0 where
  pub ok : Bool
  pub normalized : Option Text

abbrev pub Validator : Type 0
Validator = Text → Option Text

-- the `try` of `validate_syntax`
unfoldable pub checked : Option Text → Text → SyntaxCheck
checked none value = record { ok = false; normalized = some value }
checked (some result) value = record { ok = true; normalized = some (lower result) }

unfoldable pub validate_syntax : Validator → Option Text → SyntaxCheck
unfolding checked
validate_syntax validate_email raw = elim (normalize_email raw) [
  | none ↦ record { ok = false; normalized = none }
  | some value ↦ checked (validate_email value) value
]

unfoldable pub domain_of : Text → Text
domain_of email = lower (rsplit_last at_sign email)
