-- ===== src/Base/Sql/Held.antt =====
-- A table that holds what a dict holds, up to the encoding of its rows.
use mathlib.Core.Option
use islands_kernel.Base.{
  ◌≡◌, refl, ◌∙◌, ap, ◌↔◌, inl, inr, Bool, true, false, not, none, some, List, [], ◌∷◌, map, arith,
  Eq, ◌==◌, is_some, Bool-cases, Option-cases,
}
use islands_kernel.Base.Dict.{
  Dict, lookup, insert, erase, values, filter, lookup-insert, lookup-erase, IsKeyed, lookup-nil,
}
use islands_kernel.Base.Sql.{In, passing, Engine, IsLawful}

module _ {K V : Type 0} ⦃e : Eq K⦄ where
  -- In a dict that is keyed by its values, the values are what its keys give.
  In-values :
      (name : V → K) (d : Dict K V) (v : V)
      → IsKeyed name d
      → In v (values d) ↔ ((k : K) × (lookup k d ≡ some v))
  unfolding values lookup
  In-values name [] v u = (λ h. absurd h, λ (k, h). cc h)
  In-values name ((k, w) ∷ d) v (own, fresh, u) =
      let rest = In-values name d v u in
      (
        λ h. elim h [
          | inl same ↦ (k, ground arith)
          | inr deep ↦ let (j, there) = rest.0 deep in (j, ground arith)
        ],
        λ (j, there). elim (Bool-cases (j == k)) [
          | inl here ↦ inl (ground arith)
          | inr deep ↦ inr (rest.1 (j, ground arith))
        ],
      )

module _ {A B : Type 0} (f : A → B) (p : A → Bool) (q : B → Bool)
    (same : (a : A) → q (f a) ≡ p a) where
  -- To filter and map is to map and filter.
  map-filter : (xs : List A) → map f (filter p xs) ≡ filter q (map f xs)
  unfolding filter
  map-filter [] = refl
  map-filter (x ∷ xs) = ground (arith, same x, map-filter xs)

pub In-filter :
    {A : Type 0} (p : A → Bool) (a : A) (xs : List A)
    → In a (filter p xs) ↔ ((p a ≡ true) × In a xs)
unfolding filter
In-filter p a [] = (λ h. absurd h, λ h. absurd h.1)
In-filter p a (x ∷ xs) =
    (λ h. ground (arith, In-filter p a xs), λ h. ground (arith, In-filter p a xs))

pub In-map :
    {A B : Type 0} (f : A → B) (b : B) (xs : List A)
    → In b (map f xs) ↔ ((a : A) × (f a ≡ b) × In a xs)
In-map f b [] = (λ h. absurd h, λ (a, e, h). absurd h)
In-map f b (x ∷ xs) = (
  λ h. elim h [
    | inl same ↦ (x, same, inl refl)
    | inr deep ↦ let (a, e, there) = (In-map f b xs).0 deep in (a, e, inr there)
  ],
  λ (a, e, there). elim there [
    | inl same ↦ inl (ap f same ∙ e)
    | inr deep ↦ inr ((In-map f b xs).1 (a, e, deep))
  ],
)

module _ (db : Engine) (law : IsLawful db) {K V : Type 0} ⦃e : Eq K⦄ where
  -- Where a row is its own value.
  pub Holds-found :
      (t : db.Table K V) (d : Dict K V)
      → ((k : K) → Option.map (λ (v : V). v) (db.find k t) ≡ lookup k d)
      → (k : K) → db.find k t ≡ lookup k d
  Holds-found t d h k = elim (Option-cases (db.find k t)) [
    | inl absent ↦ ground (arith, h k)
    | inr (v, there) ↦ ground (arith, h k)
  ]

module _ (db : Engine) (law : IsLawful db) {K R V : Type 0} ⦃e : Eq K⦄ (decode : R → V) where
  -- The table holds the dict: a SELECT by any key finds the row of the dict's value.
  abbrev pub Holds : db.Table K R → Dict K V → Type 0
  Holds t d = (k : K) → Option.map decode (db.find k t) ≡ lookup k d

  pub Holds-create : Holds db.create []
  Holds-create k = ground (arith, law.find-create {K = K} {R = R} k, lookup-nil {V = V} k)

  pub Holds-replace :
      (k : K) (r : R) (v : V) (t : db.Table K R) (d : Dict K V)
      → decode r ≡ v
      → Holds t d
      → Holds (db.insert_or_replace k r t) (insert k v d)
  Holds-replace k r v t d same h j =
      ground (arith, law.find-replace j k r t, lookup-insert j k v d, h j)

  -- An INSERT OR IGNORE writes exactly where the dict has no such key.
  pub ignore-Holds :
      (k : K) (r : R) (t : db.Table K R) (d : Dict K V)
      → Holds t d
      → (db.insert_or_ignore k r t).0 ≡ not (is_some (lookup k d))
  ignore-Holds k r t d h = ground (arith, law.ignore_count k r t, h k)

  pub Holds-ignore_new :
      (k : K) (r : R) (v : V) (t : db.Table K R) (d : Dict K V)
      → decode r ≡ v
      → lookup k d ≡ none
      → Holds t d
      → Holds (db.insert_or_ignore k r t).1 (insert k v d)
  Holds-ignore_new k r v t d same absent h j =
      ground (arith, law.find-ignore j k r t, lookup-insert j k v d, h j, h k)

  pub Holds-ignore_old :
      (k : K) (r : R) (w : V) (t : db.Table K R) (d : Dict K V)
      → lookup k d ≡ some w
      → Holds t d
      → Holds (db.insert_or_ignore k r t).1 d
  Holds-ignore_old k r w t d there h j = ground (arith, law.find-ignore j k r t, h j, h k)

  -- A SELECT of the whole table gives the dict's values.
  pub all_rows-Holds :
      (name : V → K) (t : db.Table K R) (d : Dict K V) (v : V)
      → IsKeyed name d
      → Holds t d
      → In v (map decode (db.rows t)) ↔ In v (values d)
  all_rows-Holds name t d v u h = (
    λ there.
        let (r, same, row) = (In-map decode v (db.rows t)).0 there in
        let (k, found) = (law.in_rows t r).0 row in
        (In-values name d v u).1 (k, ground (arith, h k)),
    λ there.
        let (k, found) = (In-values name d v u).0 there in
        elim (Option-cases (db.find k t)) [
          | inl absent ↦ absurd (ground (arith, h k))
          | inr (r, row) ↦
              (In-map decode v (db.rows t)).1 (r, ground (arith, h k), (law.in_rows t r).1 (k, row))
        ],
  )

  module _ (test : R → Bool) (check : V → Bool) (agree : (r : R) → check (decode r) ≡ test r) where
    -- What passes the WHERE clause is what passes the same test in the dict.
    passing-Holds :
        (k : K) (t : db.Table K R) (d : Dict K V)
        → Holds t d
        → is_some (passing test (db.find k t)) ≡ is_some (passing check (lookup k d))
    passing-Holds k t d h = elim (Option-cases (db.find k t)) [
      | inl absent ↦ ground (arith, h k)
      | inr (r, there) ↦ ground (arith, h k, agree r)
    ]

    pub update-Holds :
        (k : K) (f : R → R) (t : db.Table K R) (d : Dict K V)
        → Holds t d
        → (db.update k test f t).0 ≡ is_some (passing check (lookup k d))
    update-Holds k f t d h = law.update_count k test f t ∙ passing-Holds k t d h

    pub Holds-update_hit :
        (k : K) (f : R → R) (g : V → V) (v : V) (t : db.Table K R) (d : Dict K V)
        → ((r : R) → decode (f r) ≡ g (decode r))
        → lookup k d ≡ some v
        → check v ≡ true
        → Holds t d
        → Holds (db.update k test f t).1 (insert k (g v) d)
    Holds-update_hit k f g v t d carries there good h j = elim (Option-cases (db.find k t)) [
      | inl absent ↦ ground (arith, h k)
      | inr (r, found) ↦ ground (
        arith,
        law.find-update j k test f t,
        passing-Holds k t d h,
        lookup-insert j k (g v) d,
        h j,
        h k,
        carries r,
      )
    ]

    pub Holds-update_miss :
        (k : K) (f : R → R) (t : db.Table K R) (d : Dict K V)
        → is_some (passing check (lookup k d)) ≡ false
        → Holds t d
        → Holds (db.update k test f t).1 d
    Holds-update_miss k f t d missed h j =
        ground (arith, law.find-update j k test f t, passing-Holds k t d h, h j)

    pub Holds-delete_hit :
        (k : K) (v : V) (t : db.Table K R) (d : Dict K V)
        → lookup k d ≡ some v
        → check v ≡ true
        → Holds t d
        → Holds (db.delete k test t) (erase k d)
    Holds-delete_hit k v t d there good h j =
        ground (arith, law.find-delete j k test t, passing-Holds k t d h, lookup-erase j k d, h j)

    pub Holds-delete_miss :
        (k : K) (t : db.Table K R) (d : Dict K V)
        → is_some (passing check (lookup k d)) ≡ false
        → Holds t d
        → Holds (db.delete k test t) d
    Holds-delete_miss k t d missed h j =
        ground (arith, law.find-delete j k test t, passing-Holds k t d h, h j)

    -- A SELECT over the table gives the rows of the dict's values that pass the test.
    pub rows-Holds :
        (name : V → K) (t : db.Table K R) (d : Dict K V) (v : V)
        → IsKeyed name d
        → Holds t d
        → In v (map decode (filter test (db.rows t))) ↔ In v (filter check (values d))
    rows-Holds name t d v u h =
        let whole = all_rows-Holds name t d v u h in
        rw (map-filter decode test check agree (db.rows t)) (
          λ there.
              let (good, row) = (In-filter check v (map decode (db.rows t))).0 there in
              (In-filter check v (values d)).1 (good, whole.0 row),
          λ there.
              let (good, row) = (In-filter check v (values d)).0 there in
              (In-filter check v (map decode (db.rows t))).1 (good, whole.1 row),
        )

  -- A DELETE by the key alone erases it.
  pub Holds-delete :
      (k : K) (t : db.Table K R) (d : Dict K V)
      → Holds t d
      → Holds (db.delete k (λ r. true) t) (erase k d)
  Holds-delete k t d h j = elim (Option-cases (db.find k t)) [
    | inl absent ↦
        ground (arith, law.find-delete j k (λ (r : R). true) t, lookup-erase j k d, h j, h k)
    | inr (r, there) ↦
        ground (arith, law.find-delete j k (λ (r : R). true) t, lookup-erase j k d, h j, h k)
  ]

  -- An UPDATE by the key alone.
  pub Holds-set :
      (k : K) (f : R → R) (g : V → V) (t : db.Table K R) (d : Dict K V)
      → ((r : R) → decode (f r) ≡ g (decode r))
      → Holds t d
      → Holds
          (db.update k (λ r. true) f t).1
          (elim (lookup k d) [ none ↦ d | some v ↦ insert k (g v) d ])
  Holds-set k f g t d carries h = elim (Option-cases (lookup k d)) [
    | inl absent ↦
        rw (absent) (
          Holds-update_miss (λ (r : R). true) (λ (v : V). true) (λ r. refl) k f t d (ground arith)
            h)
    | inr (v, there) ↦ rw (there) (
        Holds-update_hit (λ (r : R). true) (λ (v : V). true) (λ r. refl) k f g v t d carries there
          refl h)
  ]
