-- ===== src/Merge.antt =====
-- app/services/merge.py: the merge tags of a template. The regular expression of the source,
-- `{{\s*([a-zA-Z0-9_]+)\s*}}`, is a scanner here; `escape` of the package markupsafe is a parameter.
pub mod Laws
use emailmarketing.Base.{
  ℕ, zero, suc, ◌==◌, ◌+◌, ◌-◌, ◌≤◌, ◌<◌, ◌≡◌, refl, Bool, true, false, ◌&&◌, ◌||◌, not, Option,
  none, some, List, [], ◌∷◌, arith, inl, inr, if◌then◌else◌, Bool-cases, Option-cases, ◌++◌, ◌*◌,
  ◌/◌, length, or_default,
}
use emailmarketing.Text.{Text, codes, between, lstrip, is_empty, mem}
use emailmarketing.Dict.{get, set}

unfoldable pub is_ident : ℕ → Bool
is_ident c = between b'a' b'z' c || between b'A' b'Z' c || between b'0' b'9' c || c == b'_'

-- `[a-zA-Z0-9_]+`, taken as far as it goes: nothing after it can start with a character of it
unfoldable pub ident : Text → Text
unfolding is_ident
ident [] = []
ident (c ∷ s) = let rest = ident s in if is_ident c then c ∷ rest else []

unfoldable pub after_ident : Text → Text
unfolding is_ident
after_ident [] = []
after_ident (c ∷ s) = let rest = after_ident s in if is_ident c then rest else c ∷ s

-- what follows a doubled character
unfoldable pub doubled : ℕ → Text → Option Text
doubled b [] = none
doubled b (c ∷ []) = none
doubled b (c ∷ d ∷ s) = if c == b && d == b then some s else none

-- A tag at the head of the text: its name, and the text after it.
unfoldable pub match_tag : Text → Option (Text × Text)
unfolding doubled ident after_ident lstrip is_empty
match_tag s = elim (doubled b'{' s) [
  | none ↦ none
  | some inner ↦
      let start = lstrip inner in
      let tag = ident start in
      if is_empty tag then none else elim (doubled b'}' (lstrip (after_ident start))) [
        | none ↦ none
        | some rest ↦ some (tag, rest)
      ]
]

pub data Piece : Type 0 where
  lit : ℕ → Piece
  tag : Text → Piece

-- `_TAG_RE.finditer` with the text between the matches. The first argument counts the characters
-- of the last match that are still to be passed over.
unfoldable pub scan : ℕ → Text → List Piece
unfolding match_tag
scan skip [] = []
scan (suc skip) (c ∷ s) = scan skip s
scan zero (c ∷ s) = elim (match_tag (c ∷ s)) [
  | none ↦ lit c ∷ scan zero s
  | some (name, rest) ↦ tag name ∷ scan (length s - length rest) s
]

abbrev pub pieces : Text → List Piece
pieces body = scan zero body

unfoldable pub tags : List Piece → List Text
tags [] = []
tags (lit c ∷ ps) = tags ps
tags (tag name ∷ ps) = name ∷ tags ps

unfoldable pub find_tags : Text → List Text
unfolding tags scan
find_tags body = tags (pieces body)

abbrev pub unsubscribe_tag : Text
unsubscribe_tag = codes "unsubscribe_url"

unfoldable pub has_unsubscribe : Text → Bool
unfolding find_tags
has_unsubscribe body = mem unsubscribe_tag (find_tags body)

unfoldable pub subtract : List Text → List Text → List Text
subtract [] allowed = []
subtract (t ∷ ts) allowed =
    let rest = subtract ts allowed in if mem t allowed then rest else t ∷ rest

-- `unknown_tags` as the list of its members, in the order of the body
unfoldable pub unknown_tags : Text → List Text → List Text
unfolding find_tags subtract
unknown_tags body allowed = subtract (find_tags body) allowed

abbrev pub Context : Type 0
Context = List (Text × Text)

module _ (escape : Text → Text) where
  unfoldable pub value_of : Context → Bool → Text → Text
  value_of context html name =
      let value = or_default (get name context) [] in if html then escape value else value

  unfoldable pub substitute : Context → Bool → List Piece → Text
  substitute context html [] = []
  substitute context html (lit c ∷ ps) = c ∷ substitute context html ps
  substitute context html (tag name ∷ ps) = value_of context html name ++ substitute context html ps

  unfoldable pub render : Text → Context → Bool → Text
  unfolding substitute value_of scan
  render body context html = substitute context html (pieces body)

unfoldable pub build_context : Text → Option Text → Option Text → Text → Context → Context
build_context email first_name last_name unsubscribe_url custom_fields =
    set unsubscribe_tag unsubscribe_url (
      set (codes "last_name") (or_default last_name []) (
        set (codes "first_name") (or_default first_name [])
          (set (codes "email") email custom_fields)))
