-- ===== src/Base/Dict.antt =====
-- Python's `dict`: an association list in insertion order. Proofs elsewhere go by the laws.
use islands_kernel.Base.{
  ◌≡◌, refl, ◌∙◌, Bool, Option, none, some, List, [], ◌∷◌, arith, Eq, ◌==◌, if◌then◌else◌, map,
}

abbrev pub Dict {ℓ κ} : Type ℓ → Type κ → Type (ℓ ⊔ κ)
Dict K V = List (K × V)

-- `d.values()`
unfoldable pub values {ℓ κ} : {K : Type ℓ} {V : Type κ} → Dict K V → List V
values = map (λ (k, v). v)

-- `d.keys()`
unfoldable pub keys {ℓ κ} : {K : Type ℓ} {V : Type κ} → Dict K V → List K
keys = map (λ (k, v). k)

-- `[x for x in xs if p(x)]`
unfoldable pub filter {ℓ} : {A : Type ℓ} → (A → Bool) → List A → List A
filter p [] = []
filter p (x ∷ xs) = let rest = filter p xs in if p x then x ∷ rest else rest

-- `next((x for x in xs if p(x)), None)`
unfoldable pub find {ℓ} : {A : Type ℓ} → (A → Bool) → List A → Option A
find p [] = none
find p (x ∷ xs) = if p x then some x else find p xs

module _ {ℓ κ} {K : Type ℓ} {V : Type κ} ⦃e : Eq K⦄ where
  -- `d.get(k)`
  unfoldable pub lookup : K → Dict K V → Option V
  lookup k [] = none
  lookup k ((j, v) ∷ d) = if k == j then some v else lookup k d

  -- `d[k] = v`: the entry keeps its place if the key is there.
  unfoldable pub insert : K → V → Dict K V → Dict K V
  insert k v [] = (k, v) ∷ []
  insert k v ((j, w) ∷ d) = if k == j then (j, v) ∷ d else (j, w) ∷ insert k v d

  -- `d.pop(k, None)`, `del d[k]`
  unfoldable pub erase : K → Dict K V → Dict K V
  erase k [] = []
  erase k ((j, w) ∷ d) = let rest = erase k d in if k == j then rest else (j, w) ∷ rest

  pub lookup-nil : (k : K) → lookup k [] ≡ none
  unfolding lookup
  lookup-nil k = refl

  pub lookup-insert :
      (j k : K) (v : V) (d : Dict K V)
      → lookup j (insert k v d) ≡ (if j == k then some v else lookup j d)
  unfolding insert lookup
  lookup-insert j k v [] = refl
  lookup-insert j k v (_ ∷ d) = ground (arith, lookup-insert j k v d)

  pub lookup-insert_self : (k : K) (v : V) (d : Dict K V) → lookup k (insert k v d) ≡ some v
  lookup-insert_self k v d = ground (arith, lookup-insert k k v d)

  pub lookup-erase :
      (j k : K) (d : Dict K V) → lookup j (erase k d) ≡ (if j == k then none else lookup j d)
  unfolding erase lookup
  lookup-erase j k [] = ground arith
  lookup-erase j k (_ ∷ d) = ground (arith, lookup-erase j k d)

pub ruleset dict_laws = (lookup-nil, lookup-insert, lookup-erase)

module _ {ℓ κ} {K : Type ℓ} {V : Type κ} ⦃e : Eq K⦄ where
  -- Every value stands under its own key `name v`, and no key stands twice.
  abbrev pub IsKeyed : (V → K) → Dict K V → Type (ℓ ⊔ κ)
  IsKeyed name [] = Unit
  IsKeyed name ((k, v) ∷ d) = (name v ≡ k) × (lookup k d ≡ none) × IsKeyed name d

  pub insert-IsKeyed :
      (name : V → K) (k : K) (v : V) (d : Dict K V)
      → name v ≡ k
      → IsKeyed name d
      → IsKeyed name (insert k v d)
  unfolding insert
  insert-IsKeyed name k v [] h u = (h, lookup-nil k, tt)
  insert-IsKeyed name k v ((j, w) ∷ d) h (own, fresh, u) =
      ground (arith, insert-IsKeyed name k v d h u, lookup-insert j k v d)

  pub erase-IsKeyed :
      (name : V → K) (k : K) (d : Dict K V) → IsKeyed name d → IsKeyed name (erase k d)
  unfolding erase
  erase-IsKeyed name k [] u = u
  erase-IsKeyed name k ((j, w) ∷ d) (own, fresh, u) =
      ground (arith, erase-IsKeyed name k d u, lookup-erase j k d)

  pub lookup-IsKeyed :
      (name : V → K) (k : K) (d : Dict K V) (v : V)
      → IsKeyed name d
      → lookup k d ≡ some v
      → name v ≡ k
  unfolding lookup
  lookup-IsKeyed name k [] v u h = cc
  lookup-IsKeyed name k ((j, w) ∷ d) v (own, fresh, u) h =
      ground (arith, lookup-IsKeyed name k d v u)

  -- Erasing an absent key changes nothing.
  pub erase_of_absent : (k : K) (d : Dict K V) → lookup k d ≡ none → erase k d ≡ d
  unfolding erase lookup
  erase_of_absent k [] h = refl
  erase_of_absent k ((j, w) ∷ d) h = ground (arith, erase_of_absent k d)

  -- A row may be replaced by one of the same name.
  pub replace-IsKeyed :
      (name : V → K) (k : K) (w v : V) (d : Dict K V)
      → IsKeyed name d
      → lookup k d ≡ some w
      → name v ≡ name w
      → IsKeyed name (insert k v d)
  replace-IsKeyed name k w v d u there same =
      insert-IsKeyed name k v d (same ∙ lookup-IsKeyed name k d w u there) u
