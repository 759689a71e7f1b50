-- ===== src/Merge/Laws.antt =====
-- What a rendered body holds.
use emailmarketing.Base.{
  ℕ, zero, ◌==◌, ◌≡◌, refl, Bool, true, false, ◌||◌, Option, some, List, [], ◌∷◌, arith, inl, inr,
  if◌then◌else◌, Bool-cases, Option-cases, ◌++◌, ap, or_default,
}
use emailmarketing.Text.{Text, mem, contains, ◌==◌ as str_eq}
use emailmarketing.Text.Laws.{eq_iff}
use emailmarketing.Text.Laws
use emailmarketing.Dict.{get}
use emailmarketing.Dict.Laws.{get-set}
use emailmarketing.Merge.{
  Piece, lit, tag, Context, scan, pieces, tags, find_tags, has_unsubscribe, unsubscribe_tag,
  value_of, substitute, render, build_context, match_tag,
}
use mathlib.Core.List.{append_assoc}

abbrev pub Infix : Text → Text → Type 0
Infix v s = (before : Text) × (after : Text) × (s ≡ before ++ (v ++ after))

Infix-append : (u v s : Text) → Infix v s → Infix v (u ++ s)
Infix-append u v s (before, after, e) = (u ++ before, after, rw (e, append_assoc))

module _ (escape : Text → Text) where
  Infix-substitute :
      (context : Context) (html : Bool) (name : Text) (ps : List Piece)
      → mem name (tags ps) ≡ true
      → Infix (value_of escape context html name) (substitute escape context html ps)
  unfolding substitute tags mem
  Infix-substitute context html name [] h = cc
  Infix-substitute context html name (lit c ∷ ps) h =
      Infix-append (c ∷ []) _ _ (Infix-substitute context html name ps h)
  Infix-substitute context html name (tag other ∷ ps) h = elim (Bool-cases (str_eq other name)) [
    | inl same ↦ ([], substitute escape context html ps, rw ((eq_iff other name).0 same))
    | inr differ ↦
        Infix-append (value_of escape context html other) _ _
          (Infix-substitute context html name ps (rw differ at h))
  ]

  unsubscribe_in_context :
      (email : Text) (first last : Option Text) (url : Text) (custom : Context)
      → get unsubscribe_tag (build_context email first last url custom) ≡ some url
  unfolding build_context
  unsubscribe_in_context email first last url custom =
      rw get-set (rw (Laws.==_refl unsubscribe_tag))

  value-unsubscribe :
      (email : Text) (first last : Option Text) (url : Text) (custom : Context) (html : Bool)
      → value_of escape (build_context email first last url custom) html unsubscribe_tag
        ≡ (if html then escape url else url)
  unfolding value_of
  value-unsubscribe email first last url custom html =
      rw (unsubscribe_in_context email first last url custom)

  -- The body of every template that the schedule accepts is rendered with the unsubscribe link of
  -- its recipient in it, escaped in an HTML template; no custom field can take its place.
  pub render-has_unsubscribe :
      (body email : Text) (first last : Option Text) (url : Text) (custom : Context) (html : Bool)
      → has_unsubscribe body ≡ true
      → Infix
          (if html then escape url else url)
          (render escape body (build_context email first last url custom) html)
  unfolding has_unsubscribe find_tags render
  render-has_unsubscribe body email first last url custom html h =
      rw (← value-unsubscribe email first last url custom html) (
        Infix-substitute (build_context email first last url custom) html unsubscribe_tag
          (pieces body) h)

  -- the character stands outside the tags
  abbrev pub literal : ℕ → List Piece → Bool
  literal c [] = false
  literal c (lit d ∷ ps) = d == c || literal c ps
  literal c (tag name ∷ ps) = literal c ps

  contains-append : (c : ℕ) (s t : Text) → contains c (s ++ t) ≡ (contains c s || contains c t)
  unfolding contains
  contains-append c [] t = refl
  contains-append c (d ∷ s) t = ground (arith, contains-append c s t)

  contains-substitute :
      (c : ℕ) (context : Context) (ps : List Piece)
      → ((v : Text) → contains c (escape v) ≡ false)
      → contains c (substitute escape context true ps) ≡ literal c ps
  unfolding substitute value_of contains
  contains-substitute c context [] safe = refl
  contains-substitute c context (lit d ∷ ps) safe =
      ap (λ b. d == c || b) (contains-substitute c context ps safe)
  contains-substitute c context (tag name ∷ ps) safe =
      let v = or_default (get name context) [] in
      rw (contains-append c (escape v) (substitute escape context true ps), safe v)
        (contains-substitute c context ps safe)

  -- Where the escaping never yields a character, such as `<`, a rendered HTML body has it exactly
  -- if the template itself has it outside its tags: imported values add no markup.
  pub contains-render :
      (c : ℕ) (body : Text) (context : Context)
      → ((v : Text) → contains c (escape v) ≡ false)
      → contains c (render escape body context true) ≡ literal c (pieces body)
  unfolding render
  contains-render c body context safe = contains-substitute c context (pieces body) safe

  substitute-scan :
      (context : Context) (html : Bool) (s : Text)
      → tags (scan zero s) ≡ []
      → substitute escape context html (scan zero s) ≡ s
  unfolding substitute scan tags
  substitute-scan context html [] h = refl
  substitute-scan context html (c ∷ s) h = elim (Option-cases (match_tag (c ∷ s))) [
    | inl plain ↦
        rw (plain, scan) (ap (λ t. c ∷ t) (substitute-scan context html s (rw (plain, scan) at h)))
    | inr (found, e) ↦ absurd (no_tag (rw (e, scan) at h))
  ]
    where
      no_tag : {name : Text} {ts : List Text} → name ∷ ts ≡ [] → ⊥
      no_tag h = cc

  -- A body with no tag is rendered as it stands.
  pub render_plain :
      (body : Text) (context : Context) (html : Bool)
      → find_tags body ≡ []
      → render escape body context html ≡ body
  unfolding render find_tags
  render_plain body context html h = substitute-scan context html body h
