-- ===== src/Text.antt =====
-- Python's `str` as the list of its code points, with the methods that the services call. `lower`
-- maps the ASCII letters and leaves every other code point alone; `is_space` is `str.isspace`.
pub mod Laws
use Prim.Native.Char.{code}
use Prim.Native.String.{String}
use emailmarketing.Base.{
  ℕ, ◌+◌, Bool, true, false, ◌&&◌, ◌||◌, List, [], ◌∷◌, map, any, leb, ◌==◌ as nat_eq,
  if◌then◌else◌,
}
use mathlib.Core.List.{reverse}

abbrev pub Text : Type 0
Text = List ℕ

-- a literal of the source
abbrev pub codes : String → Text
codes String.[] = []
codes (String.◌∷◌ c s) = code c ∷ codes s

infix 50 ◌==◌
unfoldable pub ◌==◌ : Text → Text → Bool
[] == [] = true
[] == (d ∷ t) = false
(c ∷ s) == [] = false
(c ∷ s) == (d ∷ t) = nat_eq c d && s == t

-- `t in ts`
unfoldable pub mem : Text → List Text → Bool
mem t [] = false
mem t (u ∷ ts) = u == t || mem t ts

-- `not t`
unfoldable pub is_empty : Text → Bool
is_empty [] = true
is_empty (c ∷ s) = false

unfoldable pub contains : ℕ → Text → Bool
contains c [] = false
contains c (d ∷ s) = nat_eq d c || contains c s

abbrev pub between : ℕ → ℕ → ℕ → Bool
between lo hi c = leb lo c && leb c hi

unfoldable pub lower_char : ℕ → ℕ
lower_char c = if between 65 90 c then c + 32 else c

unfoldable pub lower : Text → Text
unfolding lower_char
lower [] = []
lower (c ∷ s) = lower_char c ∷ lower s

unfoldable pub is_space : ℕ → Bool
is_space c =
    between 9 13 c
    || between 28 32 c
    || nat_eq c 133
    || nat_eq c 160
    || nat_eq c 5760
    || between 8192 8202 c
    || between 8232 8233 c
    || nat_eq c 8239
    || nat_eq c 8287
    || nat_eq c 12288

unfoldable pub lstrip : Text → Text
unfolding is_space
lstrip [] = []
lstrip (c ∷ s) = let rest = lstrip s in if is_space c then rest else c ∷ s

unfoldable pub rstrip : Text → Text
unfolding is_space is_empty
rstrip [] = []
rstrip (c ∷ s) = let rest = rstrip s in if is_space c && is_empty rest then [] else c ∷ rest

unfoldable pub strip : Text → Text
unfolding lstrip rstrip
strip s = rstrip (lstrip s)

-- `s.rsplit(c, 1)[-1]`: what follows the last `c`, or all of `s`
unfoldable pub rsplit_last : ℕ → Text → Text
unfolding contains
rsplit_last c [] = []
rsplit_last c (d ∷ s) =
    let rest = rsplit_last c s in if contains c s then rest else if nat_eq d c then s else d ∷ s

unfoldable pub starts_with : Text → Text → Bool
starts_with [] s = true
starts_with (c ∷ p) [] = false
starts_with (c ∷ p) (d ∷ s) = nat_eq c d && starts_with p s

unfoldable pub ends_with : Text → Text → Bool
unfolding starts_with
ends_with p s = starts_with (reverse p) (reverse s)

-- `s[:-1]`
unfoldable pub drop_last : Text → Text
drop_last [] = []
drop_last (c ∷ []) = []
drop_last (c ∷ d ∷ s) = c ∷ drop_last (d ∷ s)
