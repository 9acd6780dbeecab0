-- ===== src/Base/Sql/Queries.antt =====
-- A SELECT with a WHERE clause over the rows of a table, in whatever order they come.
use mathlib.Core.Logic.{∥∥₁_map}
use mathlib.Core.List.{Perm, Permᴰ}
use mathlib.Core.List.Permᴰ
use mathlib.Core.List.Permᴰ.{nil, cons, swap, trans}
use islands_kernel.Base.{
  ◌≡◌, refl, ap, inl, inr, Bool, true, false, none, some, List, [], ◌∷◌, map, arith, Eq, Bool-cases,
  Option-cases,
}
use islands_kernel.Base.Dict.{Dict, keys, values, filter, find, IsKeyed}
use islands_kernel.Base.Sql.{In, SameElements, FoundAlike}

module _ {A : Type 0} where
  pub map_id : (xs : List A) → map (λ (x : A). x) xs ≡ xs
  map_id [] = refl
  map_id (x ∷ xs) = ap (λ ys. x ∷ ys) (map_id xs)

  -- What `find` gives is in the list and passes; if it gives nothing, nothing there passes.
  find_some : (p : A → Bool) (xs : List A) (a : A) → find p xs ≡ some a → In a xs × (p a ≡ true)
  unfolding find
  find_some p [] a h = cc h
  find_some p (x ∷ xs) a h = ground (arith, find_some p xs a)

  find_none : (p : A → Bool) (xs : List A) (a : A) → find p xs ≡ none → In a xs → p a ≡ false
  unfolding find
  find_none p [] a h there = absurd there
  find_none p (x ∷ xs) a h there = ground (arith, find_none p xs a)

  pub find_same : (p q : A → Bool) (xs : List A) → ((a : A) → p a ≡ q a) → find p xs ≡ find q xs
  unfolding find
  find_same p q [] same = refl
  find_same p q (x ∷ xs) same = ground (arith, same x, find_same p q xs same)

  pub find-FoundAlike :
      (p : A → Bool) (xs ys : List A) → SameElements xs ys → FoundAlike p ys (find p xs) (find p ys)
  find-FoundAlike p xs ys same = elim (Option-cases (find p xs)) [
    | inl nothing ↦ elim (Option-cases (find p ys)) [
      | inl none' ↦ rw (nothing, none') tt
      | inr (b, hit) ↦
          let (there, good) = find_some p ys b hit in
          absurd (ground (arith, good, find_none p xs b nothing ((same b).1 there)))
    ]
    | inr (a, found) ↦
        let (row, passes) = find_some p xs a found in
        elim (Option-cases (find p ys)) [
          | inl none' ↦ absurd (ground (arith, passes, find_none p ys a none' ((same a).0 row)))
          | inr (b, hit) ↦
              let (there, good) = find_some p ys b hit in
              rw (found, hit) ((same a).0 row, passes, there, good)
        ]
  ]

  filter-Permᴰ : (p : A → Bool) {xs ys : List A} → Permᴰ xs ys → Permᴰ (filter p xs) (filter p ys)
  unfolding filter
  filter-Permᴰ p nil = nil
  filter-Permᴰ p (cons {a} {b} e d) = elim (Bool-cases (p b)) [
    | inl good ↦ rw (e, good) (cons refl (filter-Permᴰ p d))
    | inr bad ↦ rw (e, bad) (filter-Permᴰ p d)
  ]
  filter-Permᴰ p (swap {a} {b} {a'} {b'} {l} e f) = elim (Bool-cases (p b')) [
    | inl one ↦ elim (Bool-cases (p a')) [
      | inl two ↦ rw (e, f, one, two) (swap refl refl)
      | inr two ↦ rw (e, f, one, two) (cons refl (Permᴰ.refl (filter p l)))
    ]
    | inr one ↦ elim (Bool-cases (p a')) [
      | inl two ↦ rw (e, f, one, two) (cons refl (Permᴰ.refl (filter p l)))
      | inr two ↦ rw (e, f, one, two) (Permᴰ.refl (filter p l))
    ]
  ]
  filter-Permᴰ p (trans d d') = trans (filter-Permᴰ p d) (filter-Permᴰ p d')

  -- A permutation's rows that pass are a permutation.
  pub filter-perm : (p : A → Bool) (xs ys : List A) → Perm xs ys → Perm (filter p xs) (filter p ys)
  filter-perm p xs ys h = ∥∥₁_map h (filter-Permᴰ p)

module _ {K V : Type 0} ⦃e : Eq K⦄ where
  -- The keys of a dict that is keyed by its values.
  pub keys-IsKeyed : (name : V → K) (d : Dict K V) → IsKeyed name d → map name (values d) ≡ keys d
  unfolding values keys
  keys-IsKeyed name [] u = refl
  keys-IsKeyed name ((k, v) ∷ d) (own, fresh, u) = ground (arith, keys-IsKeyed name d u)
