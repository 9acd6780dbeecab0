-- ===== src/Base/Sql.antt =====
-- SQLite, as the server stores use it: an interface of tables, and what its statements do.
pub mod Held
pub mod Queries
pub mod Dicts
use mathlib.Core.Option
use mathlib.Core.List.{Perm}
use islands_kernel.Base.{
  ◌≡◌, ◌↔◌, ◌⊎◌, Bool, true, false, not, ◌&&◌, Option, none, some, List, [], ◌∷◌, ◌++◌, Eq, ◌==◌,
  is_some, if◌then◌else◌,
}

-- The value is in the list.
abbrev pub In : {A : Type 0} → A → List A → Type 0
In a [] = ⊥
In a (x ∷ xs) = (x ≡ a) ⊎ In a xs

-- Two lists have the same elements.
abbrev pub SameElements : {A : Type 0} → List A → List A → Type 0
SameElements {A} xs ys = (a : A) → In a xs ↔ In a ys

-- Two searches of the list: both find nothing, or each finds an element that passes.
abbrev pub FoundAlike : {A : Type 0} → (A → Bool) → List A → Option A → Option A → Type 0
FoundAlike p xs none none = Unit
FoundAlike p xs none (some b) = ⊥
FoundAlike p xs (some a) none = ⊥
FoundAlike p xs (some a) (some b) = In a xs × (p a ≡ true) × In b xs × (p b ≡ true)

-- The row, if there is one and it passes the rest of a WHERE clause.
abbrev pub passing {ℓ} : {A : Type ℓ} → (A → Bool) → Option A → Option A
passing test none = none
passing test (some a) = if test a then some a else none

-- Tables with a primary key `K` and rows `R`. `find` is a SELECT by the key, `rows` one of the
-- whole table in whatever order; `update` and `delete` take the key and the rest of the WHERE
-- clause; `insert_or_ignore` and `update` say whether `rowcount` is 1. A `Heap` is a table without
-- a key, `all_rows` a SELECT of the whole of it.
pub record Engine : Type 1 where
  pub Table : (K : Type 0) ⦃e : Eq K⦄ → Type 0 → Type 0
  pub create : {K R : Type 0} ⦃e : Eq K⦄ → Table K R
  pub find : {K R : Type 0} ⦃e : Eq K⦄ → K → Table K R → Option R
  pub rows : {K R : Type 0} ⦃e : Eq K⦄ → Table K R → List R
  pub insert_or_ignore : {K R : Type 0} ⦃e : Eq K⦄ → K → R → Table K R → Bool × Table K R
  pub insert_or_replace : {K R : Type 0} ⦃e : Eq K⦄ → K → R → Table K R → Table K R
  pub update : {K R : Type 0} ⦃e : Eq K⦄ → K → (R → Bool) → (R → R) → Table K R → Bool × Table K R
  pub delete : {K R : Type 0} ⦃e : Eq K⦄ → K → (R → Bool) → Table K R → Table K R
  pub Heap : Type 0 → Type 0
  pub create_heap : {R : Type 0} → Heap R
  pub all_rows : {R : Type 0} → Heap R → List R
  pub insert : {R : Type 0} → R → Heap R → Heap R

-- What SQLite documents of these statements, by what a SELECT finds afterwards.
pub record IsLawful (db : Engine) : Type 1 where
  pub find-create :
      {K R : Type 0} ⦃e : Eq K⦄ (k : K) → ◌≡◌ {A = Option R} (db.find k db.create) none
  pub in_rows :
      {K R : Type 0} ⦃e : Eq K⦄ (t : db.Table K R) (r : R)
      → In r (db.rows t) ↔ ((k : K) × (db.find k t ≡ some r))
  pub ignore_count :
      {K R : Type 0} ⦃e : Eq K⦄ (k : K) (r : R) (t : db.Table K R)
      → (db.insert_or_ignore k r t).0 ≡ not (is_some (db.find k t))
  pub find-ignore :
      {K R : Type 0} ⦃e : Eq K⦄ (j k : K) (r : R) (t : db.Table K R)
      → db.find j (db.insert_or_ignore k r t).1
        ≡ (if j == k && not (is_some (db.find k t)) then some r else db.find j t)
  pub find-replace :
      {K R : Type 0} ⦃e : Eq K⦄ (j k : K) (r : R) (t : db.Table K R)
      → db.find j (db.insert_or_replace k r t) ≡ (if j == k then some r else db.find j t)
  pub update_count :
      {K R : Type 0} ⦃e : Eq K⦄ (k : K) (test : R → Bool) (f : R → R) (t : db.Table K R)
      → (db.update k test f t).0 ≡ is_some (passing test (db.find k t))
  pub find-update :
      {K R : Type 0} ⦃e : Eq K⦄ (j k : K) (test : R → Bool) (f : R → R) (t : db.Table K R)
      → db.find j (db.update k test f t).1 ≡ (
          if j == k && is_some (passing test (db.find k t))
          then Option.map f (db.find k t)
          else db.find j t)
  pub find-delete :
      {K R : Type 0} ⦃e : Eq K⦄ (j k : K) (test : R → Bool) (t : db.Table K R)
      → db.find j (db.delete k test t)
        ≡ (if j == k && is_some (passing test (db.find k t)) then none else db.find j t)
  pub all-create : {R : Type 0} → ◌≡◌ {A = List R} (db.all_rows db.create_heap) []
  pub all-insert :
      {R : Type 0} (r : R) (t : db.Heap R) → Perm (db.all_rows (db.insert r t)) (r ∷ db.all_rows t)

-- Python's `json`, on the values that are stored as JSON. `Text A` are the texts that `dumps` makes
-- of values of `A`, which only `loads` reads.
pub record Json : Type 1 where
  pub Text : Type 0 → Type 0
  pub dumps : {A : Type 0} → A → Text A
  pub loads : {A : Type 0} → Text A → A

pub record IsFaithful (json : Json) : Type 1 where
  pub loads-dumps : {A : Type 0} (a : A) → json.loads (json.dumps a) ≡ a
