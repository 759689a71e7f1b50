-- ===== src/Text/Laws.antt =====
-- Laws of the methods on texts: equality, and how `strip` and `lower` meet.
use emailmarketing.Base.{ℕ, ◌≡◌, refl, true, ◌↔◌, [], ◌∷◌, arith}
use emailmarketing.Text.{Text, ◌==◌, is_empty, lower_char, lower, is_space, lstrip, rstrip, strip}

pub ==→eq : (s t : Text) → (s == t) ≡ true → s ≡ t
unfolding ◌==◌
==→eq [] [] h = refl
==→eq [] (d ∷ t) h = cc
==→eq (c ∷ s) [] h = cc
==→eq (c ∷ s) (d ∷ t) h = ground (arith, ==→eq s t)

pub ==_refl : (s : Text) → (s == s) ≡ true
unfolding ◌==◌
==_refl [] = refl
==_refl (c ∷ s) = ground (arith, ==_refl s)

pub eq→== : (s t : Text) → s ≡ t → (s == t) ≡ true
eq→== s t h = rw h (==_refl t)

pub eq_iff : (s t : Text) → ((s == t) ≡ true) ↔ (s ≡ t)
eq_iff s t = (==→eq s t, eq→== s t)

lower_char_idem : (c : ℕ) → lower_char (lower_char c) ≡ lower_char c
unfolding lower_char
lower_char_idem c = ground arith

is_space-lower_char : (c : ℕ) → is_space (lower_char c) ≡ is_space c
unfolding lower_char is_space
is_space-lower_char c = ground arith

pub lower_idem : (s : Text) → lower (lower s) ≡ lower s
unfolding lower
lower_idem [] = refl
lower_idem (c ∷ s) = cc (lower_char_idem c, lower_idem s)

pub is_empty-lower : (s : Text) → is_empty (lower s) ≡ is_empty s
unfolding lower is_empty
is_empty-lower [] = refl
is_empty-lower (c ∷ s) = refl

lstrip-lower : (s : Text) → lstrip (lower s) ≡ lower (lstrip s)
unfolding lstrip lower
lstrip-lower [] = refl
lstrip-lower (c ∷ s) = ground (arith, is_space-lower_char c, lstrip-lower s)

rstrip-lower : (s : Text) → rstrip (lower s) ≡ lower (rstrip s)
unfolding rstrip lower
rstrip-lower [] = refl
rstrip-lower (c ∷ s) =
    ground (arith, is_space-lower_char c, rstrip-lower s, is_empty-lower (rstrip s))

pub strip-lower : (s : Text) → strip (lower s) ≡ lower (strip s)
unfolding strip
strip-lower s = rw lstrip-lower (rstrip-lower (lstrip s))

rstrip_idem : (s : Text) → rstrip (rstrip s) ≡ rstrip s
unfolding rstrip
rstrip_idem [] = refl
rstrip_idem (c ∷ s) = ground (arith, rstrip_idem s)

lstrip-rstrip-lstrip : (s : Text) → lstrip (rstrip (lstrip s)) ≡ rstrip (lstrip s)
unfolding lstrip rstrip
lstrip-rstrip-lstrip [] = refl
lstrip-rstrip-lstrip (c ∷ s) = ground (arith, lstrip-rstrip-lstrip s)

pub strip_idem : (s : Text) → strip (strip s) ≡ strip s
unfolding strip
strip_idem s = rw (lstrip-rstrip-lstrip s) (rstrip_idem (lstrip s))
