-- ===== src/Normalize/Laws.antt =====
-- The canonical form of an address is a fixed point of the normalization.
use emailmarketing.Base.{◌≡◌, some, arith}
use emailmarketing.Text.{Text, lower, strip}
use emailmarketing.Text.Laws.{strip_idem, strip-lower, lower_idem}
use emailmarketing.Normalize.{normalize_email}

pub canonical : (s : Text) → lower (strip (lower (strip s))) ≡ lower (strip s)
canonical s = simp (strip-lower, strip_idem, lower_idem)

-- Whatever text normalizes, to normalize the result again changes nothing.
pub normalize_email_idem :
    (raw v : Text) → normalize_email (some raw) ≡ some v → normalize_email (some v) ≡ some v
unfolding normalize_email
normalize_email_idem raw v h = ground (arith, canonical raw)
