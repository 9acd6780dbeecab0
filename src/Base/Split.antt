-- ===== src/Base/Split.antt =====
-- Python's texts: `text.isascii()`, and `text.split(sep, 1)` at a separator of one character.
use Prim.Native.Char.{Char, code}
use Prim.Native.String.append
use mathlib.Core.Path.{subst}
use mathlib.Core.Option.{some-injective}
use islands_kernel.Base.{
  ℕ, String, ◌<>◌, ◌≡◌, ◌∙◌, ap, Bool, true, false, ◌||◌, ◌&&◌, leb, Option, none, some, arith,
  if◌then◌else◌, sym, refl, inl, inr, Bool-cases, Option-cases,
}

-- `s.isascii()`
unfoldable pub is_ascii : String → Bool
is_ascii String.[] = true
is_ascii (String.◌∷◌ c s) = leb (code c) 127 && is_ascii s

module _ (is_separator : ℕ → Bool) where
  -- The text before the first separator and the text after it; `none` where there is none.
  unfoldable pub split_first : String → Option (String × String)
  split_first String.[] = none
  split_first (String.◌∷◌ c s) =
      let rest = split_first s in
      if is_separator (code c)
      then some ("", s)
      else elim rest [ none ↦ none | some p ↦ some (String.◌∷◌ c p.0, p.1) ]

  -- The text has a separator.
  abbrev pub has_separator : String → Bool
  has_separator String.[] = false
  has_separator (String.◌∷◌ c s) = is_separator (code c) || has_separator s

  one_char : (c : Char) (s : String) → String.◌∷◌ c String.[] <> s ≡ String.◌∷◌ c s
  one_char c s = append.cons c String.[] s ∙ ap (λ t. String.◌∷◌ c t) (append.nil s)

  split_separator :
      (c : Char) (after : String)
      → is_separator (code c) ≡ true
      → split_first (String.◌∷◌ c String.[] <> after) ≡ some ("", after)
  unfolding split_first
  split_separator c after h = ap split_first (one_char c after) ∙ ground arith

  -- A text without a separator is split off before the first one.
  pub split_first-append :
      (before : String) (c : Char) (after : String)
      → is_separator (code c) ≡ true
      → has_separator before ≡ false
      → split_first (before <> (String.◌∷◌ c String.[] <> after)) ≡ some (before, after)
  unfolding split_first
  split_first-append String.[] c after h plain =
      ap split_first (append.nil (String.◌∷◌ c String.[] <> after)) ∙ split_separator c after h
  split_first-append (String.◌∷◌ d s) c after h plain =
      ap split_first (append.cons d s (String.◌∷◌ c String.[] <> after))
      ∙ ground (arith, split_first-append s c after h)

  -- The text is the first part, which has no separator, a separator, and the second part.
  abbrev pub IsSplit : String → String × String → Type 0
  IsSplit s (before, after) =
      (c : Char) × (is_separator (code c) ≡ true)
      × (has_separator before ≡ false)
      × (s ≡ before <> (String.◌∷◌ c String.[] <> after))

  -- Whatever is split off is so.
  pub split_first-IsSplit :
      (s : String) (p : String × String) → split_first s ≡ some p → IsSplit s p
  unfolding split_first
  split_first-IsSplit String.[] p h = cc h
  split_first-IsSplit (String.◌∷◌ d s) p h = elim (Bool-cases (is_separator (code d))) [
    | inl here ↦
        let at_once : split_first (String.◌∷◌ d s) ≡ some ("", s) = ground (arith, here) in
        subst (IsSplit (String.◌∷◌ d s)) (some-injective ("", s) p (sym at_once ∙ h))
          (d, here, refl, sym (append.nil (String.◌∷◌ d String.[] <> s) ∙ one_char d s))
    | inr not_here ↦ elim (Option-cases (split_first s)) [
      | inl absent ↦ absurd (ground (arith, not_here, absent, h))
      | inr (q, there) ↦
          let later : split_first (String.◌∷◌ d s) ≡ some (String.◌∷◌ d q.0, q.1) =
            ground (arith, not_here, there) in
          let (c, is, plain, whole) = split_first-IsSplit s q there in
          subst (IsSplit (String.◌∷◌ d s))
            (some-injective (String.◌∷◌ d q.0, q.1) p (sym later ∙ h))
            (
              c,
              is,
              ground (arith, not_here, plain),
              ap (λ t. String.◌∷◌ d t) whole
                  ∙ sym (append.cons d q.0 (String.◌∷◌ c String.[] <> q.1)),
            )
    ]
  ]
