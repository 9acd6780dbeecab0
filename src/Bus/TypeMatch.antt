-- ===== src/Bus/TypeMatch.antt =====
-- `type_matches` of bus/store/base.py, on the code points of the two texts.
use Prim.Native.Nat.{compare, Ordering}
use Prim.Native.Char.{code}
use islands_kernel.Base.{
  ℕ, String, Bool, true, false, ◌&&◌, ◌||◌, List, [], ◌∷◌, ◌==◌, string_eq, if◌then◌else◌,
}

abbrev pub codes : String → List ℕ
codes String.[] = []
codes (String.◌∷◌ c s) = code c ∷ codes s

abbrev pub same_code : ℕ → ℕ → Bool
same_code a b = elim (compare a b) [ Ordering.eq ↦ true | _ ↦ false ]

-- `t.startswith(s)`
unfoldable pub begins_with : List ℕ → List ℕ → Bool
begins_with cs [] = true
begins_with [] (p ∷ ps) = false
begins_with (c ∷ cs) (p ∷ ps) = same_code c p && begins_with cs ps

-- The text is ".*".
unfoldable pub is_dot_star : List ℕ → Bool
is_dot_star (a ∷ b ∷ []) = same_code a b'.' && same_code b b'*'
is_dot_star _ = false

-- `s.endswith(".*")`
unfoldable pub ends_dot_star : List ℕ → Bool
unfolding is_dot_star
ends_dot_star [] = false
ends_dot_star (c ∷ cs) = is_dot_star (c ∷ cs) || ends_dot_star cs

-- `s[:-1]`
unfoldable pub drop_last : List ℕ → List ℕ
drop_last [] = []
drop_last (c ∷ []) = []
drop_last (c ∷ d ∷ cs) = c ∷ drop_last (d ∷ cs)

unfoldable pub type_matches : String → String → Bool
unfolding begins_with ends_dot_star drop_last
type_matches sub_type event_type =
    if sub_type == event_type
    then true
    else if ends_dot_star (codes sub_type)
    then begins_with (codes event_type) (drop_last (codes sub_type))
    else false
