-- ===== src/Vault/Server/Refines/Groups.antt =====
-- A table without a key, whose rows name a group, against a dict of lists.
use mathlib.Core.List.{Perm, perm_append_singleton}
use mathlib.Core.List.Perm
use mathlib.Core.Path.{subst}
use islands_kernel.Base.{
  String, ◌≡◌, sym, ◌∙◌, ap, true, false, List, [], ◌∷◌, ◌++◌, inl, inr, arith, string_eq, ◌==◌,
  Bool-cases, map,
}
use islands_kernel.Base.Dict.{Dict, insert, lookup-insert, lookup-nil, filter}
use islands_kernel.Base.Sql.{Engine, IsLawful}
use islands_kernel.Base.Sql.Queries.{filter-perm}
use islands_kernel.Vault.Store.{list_at}

module _ (db : Engine) (law : IsLawful db) {R V : Type 0} (decode : R → V) (name : R → String) where
  -- Each group has the same values as often.
  abbrev pub HoldsGroups : db.Heap R → Dict String (List V) → Type 0
  HoldsGroups t d =
      (k : String)
      → Perm (map decode (filter (λ (row : R). name row == k) (db.all_rows t))) (list_at k d)

  pub HoldsGroups-create : HoldsGroups db.create_heap []
  unfolding filter
  HoldsGroups-create k =
      let nothing : list_at k [] ≡ [] = ground (arith, lookup-nil {V = List V} k) in
      rw (law.all-create {R = R}) (subst (λ xs. Perm [] xs) (sym nothing) (Perm.refl []))

  -- The row's group, where it is asked for, and any other.
  filter_hit :
      (row : R) (k : String) (rows : List R)
      → (name row == k) ≡ true
      → filter (λ (r : R). name r == k) (row ∷ rows) ≡ row ∷ filter (λ (r : R). name r == k) rows
  unfolding filter
  filter_hit row k rows h = ground (arith, h)

  filter_miss :
      (row : R) (k : String) (rows : List R)
      → (name row == k) ≡ false
      → filter (λ (r : R). name r == k) (row ∷ rows) ≡ filter (λ (r : R). name r == k) rows
  unfolding filter
  filter_miss row k rows h = ground (arith, h)

  pub HoldsGroups-insert :
      (row : R) (v : V) (t : db.Heap R) (d : Dict String (List V))
      → decode row ≡ v
      → HoldsGroups t d
      → HoldsGroups (db.insert row t) (insert (name row) (list_at (name row) d ++ v ∷ []) d)
  HoldsGroups-insert row v t d same h k =
      let p = λ (r : R). name r == k in
      let rows = db.all_rows t in
      let before = map decode (filter p rows) in
      let after = map decode (filter p (db.all_rows (db.insert row t))) in
      let group = insert (name row) (list_at (name row) d ++ v ∷ []) d in
      let there = lookup-insert k (name row) (list_at (name row) d ++ v ∷ []) d in
      let added : Perm after (map decode (filter p (row ∷ rows))) =
        Perm.map decode
          (filter-perm p (db.all_rows (db.insert row t)) (row ∷ rows) (law.all-insert row t)) in
      elim (Bool-cases (name row == k)) [
        | inl hit ↦
            let grown : list_at k group ≡ list_at k d ++ v ∷ [] = ground (arith, there, hit) in
            let first : map decode (filter p (row ∷ rows)) ≡ v ∷ before =
              ap (map decode) (filter_hit row k rows hit) ∙ ap (λ a. a ∷ before) same in
            subst (λ xs. Perm after xs) (sym grown)
              (Perm.trans (subst (λ xs. Perm after xs) first added) (
                Perm.trans (Perm.cons v (h k)) (Perm.symm (perm_append_singleton v (list_at k d)))))
        | inr miss ↦
            let kept : list_at k group ≡ list_at k d = ground (arith, there, miss) in
            let other : map decode (filter p (row ∷ rows)) ≡ before =
              ap (map decode) (filter_miss row k rows miss) in
            subst (λ xs. Perm after xs) (sym kept)
              (Perm.trans (subst (λ xs. Perm after xs) other added) (h k))
      ]
