-- ===== src/Base/Sql/Dicts.antt =====
-- Tables that are dicts, and texts that are their values: an engine and a `json` at which the
-- assumptions on SQLite and on `json` hold.
use mathlib.Core.List.Perm
use mathlib.Core.Option
use islands_kernel.Base.{
  ◌≡◌, refl, ◌↔◌, ◌⊎◌, inl, inr, Bool, true, false, not, ◌&&◌, none, some, List, [], ◌∷◌, arith, Eq,
  ◌==◌, is_some, if◌then◌else◌, Option-cases, Bool-cases,
}
use islands_kernel.Base.Dict.{Dict, lookup, insert, erase, lookup-nil, lookup-insert, lookup-erase}
use islands_kernel.Base.Sql.{In, passing, Engine, IsLawful, Json, IsFaithful}

module _ {K R : Type 0} ⦃e : Eq K⦄ where
  -- What a table holds under the keys of a dict.
  gather : Dict K R → Dict K R → List R
  gather t [] = []
  gather t ((k, v) ∷ d) =
      let rest = gather t d in elim (lookup k t) [ none ↦ rest | some r ↦ r ∷ rest ]

  insert_new : K → R → Dict K R → Bool × Dict K R
  insert_new k r t = if is_some (lookup k t) then (false, t) else (true, insert k r t)

  change : K → (R → Bool) → (R → R) → Dict K R → Bool × Dict K R
  change k test f t = elim (passing test (lookup k t)) [
    | none ↦ (false, t)
    | some r ↦ (true, insert k (f r) t)
  ]

  remove : K → (R → Bool) → Dict K R → Dict K R
  remove k test t = elim (passing test (lookup k t)) [ none ↦ t | some r ↦ erase k t ]

  In-gather :
      (t d : Dict K R) (r : R)
      → In r (gather t d) ↔ ((k : K) × (is_some (lookup k d) ≡ true) × (lookup k t ≡ some r))
  unfolding gather lookup
  In-gather t [] r = (λ h. absurd h, λ (k, there, found). cc there)
  In-gather t ((j, w) ∷ d) r =
      let rest = In-gather t d r in
      elim (Option-cases (lookup j t)) [
        | inl absent ↦ (
          λ h.
              let (k, there, found) = rest.0 (ground (arith, absent)) in
              (k, ground (arith, there), found),
          λ (k, there, found). elim (Bool-cases (k == j)) [
            | inl same ↦ ground (arith, absent, found)
            | inr other ↦ ground (arith, absent, rest.1 (k, ground (arith, other), found))
          ],
        )
        | inr (q, here) ↦ (
          λ h.
              let either : (q ≡ r) ⊎ In r (gather t d) = ground (arith, here, h) in
              elim either [
                | inl same ↦ (j, ground arith, ground (arith, here))
                | inr deep ↦
                    let (k, there, found) = rest.0 deep in (k, ground (arith, there), found)
              ],
          λ (k, there, found). elim (Bool-cases (k == j)) [
            | inl same ↦ ground (arith, here, found)
            | inr other ↦ ground (arith, here, rest.1 (k, ground (arith, other), found))
          ],
        )
      ]

  In-rows : (t : Dict K R) (r : R) → In r (gather t t) ↔ ((k : K) × (lookup k t ≡ some r))
  In-rows t r = (
    λ h. let (k, there, found) = (In-gather t t r).0 h in (k, found),
    λ (k, found). (In-gather t t r).1 (k, ground arith, found),
  )

  lookup-insert_new :
      (j k : K) (r : R) (t : Dict K R)
      → lookup j (insert_new k r t).1
        ≡ (if j == k && not (is_some (lookup k t)) then some r else lookup j t)
  unfolding insert_new
  lookup-insert_new j k r t = ground (arith, lookup-insert j k r t)

  lookup-change :
      (j k : K) (test : R → Bool) (f : R → R) (t : Dict K R)
      → lookup j (change k test f t).1 ≡ (
          if j == k && is_some (passing test (lookup k t))
          then Option.map f (lookup k t)
          else lookup j t)
  unfolding change
  lookup-change j k test f t = elim (Option-cases (lookup k t)) [
    | inl absent ↦ ground (arith, absent)
    | inr (r, there) ↦ ground (arith, there, lookup-insert j k (f r) t)
  ]

  lookup-remove :
      (j k : K) (test : R → Bool) (t : Dict K R)
      → lookup j (remove k test t)
        ≡ (if j == k && is_some (passing test (lookup k t)) then none else lookup j t)
  unfolding remove
  lookup-remove j k test t = elim (Option-cases (lookup k t)) [
    | inl absent ↦ ground (arith, absent)
    | inr (r, there) ↦ ground (arith, there, lookup-erase j k t)
  ]

unfoldable pub dicts : Engine
unfolding gather insert_new change remove
dicts = record {
  Table = λ K R. Dict K R;
  create = [];
  find = lookup;
  rows = λ t. gather t t;
  insert_or_ignore = insert_new;
  insert_or_replace = insert;
  update = change;
  delete = remove;
  Heap = List;
  create_heap = [];
  all_rows = λ t. t;
  insert = λ r t. r ∷ t;
}

pub dicts-IsLawful : IsLawful dicts
unfolding dicts insert_new change
dicts-IsLawful = record {
  find-create = lookup-nil;
  in_rows = In-rows;
  ignore_count = λ k r t. elim (Bool-cases (is_some (lookup k t))) [
    | inl old ↦ ground arith
    | inr new ↦ ground arith
  ];
  find-ignore = lookup-insert_new;
  find-replace = lookup-insert;
  update_count = λ k test f t. elim (Option-cases (passing test (lookup k t))) [
    | inl missed ↦ ground (arith, missed)
    | inr (r, hit) ↦ ground (arith, hit)
  ];
  find-update = lookup-change;
  find-delete = lookup-remove;
  all-create = refl;
  all-insert = λ r t. Perm.refl (r ∷ t);
}

abbrev pub plain : Json
plain = record { Text = λ A. A; dumps = λ a. a; loads = λ a. a }

pub plain-IsFaithful : IsFaithful plain
plain-IsFaithful = record { loads-dumps = λ a. refl }
