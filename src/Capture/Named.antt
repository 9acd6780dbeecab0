-- ===== src/Capture/Named.antt =====
-- capture_bridge/principal_map.py: whom the map made from a list of entries knows.
use mathlib.Core.Option.{none-ne-some}
use islands_kernel.Base.{
  ◌≡◌, refl, sym, ◌∙◌, ap, none, some, List, [], ◌∷◌, ◌⊎◌, inl, inr, Eq, ◌==◌, if◌then◌else◌,
  string_eq, option_eq, pair_eq, arith, ◌++◌,
}
use islands_kernel.Base.Dict.{Dict, lookup, insert, lookup-insert, lookup-nil}
use islands_kernel.Capture.Bridge

module _ {UserId : Type 0} ⦃eq : Eq UserId⦄ where
  -- An entry of the list has the key, and stands for the identity.
  pub record IsNamed (k : Bridge.Key UserId) (ident : Bridge.Identity)
      (entries : List (Bridge.Entry UserId)) : Type 0 where
    pub before : List (Bridge.Entry UserId)
    pub entry : Bridge.Entry UserId
    pub after : List (Bridge.Entry UserId)
    pub split : entries ≡ before ++ (entry ∷ after)
    pub same_key : Bridge.key_of entry ≡ k
    pub same_identity : Bridge.identity_of entry ≡ ident

  inserted :
      (e : Bridge.Entry UserId) (es : List (Bridge.Entry UserId))
      (d : Dict (Bridge.Key UserId) Bridge.Identity) (k : Bridge.Key UserId)
      (ident : Bridge.Identity)
      → (if k == Bridge.key_of e then some (Bridge.identity_of e) else lookup k d) ≡ some ident
      → (lookup k d ≡ some ident) ⊎ IsNamed k ident (e ∷ es)
  inserted e es d k ident h = elim (pair_eq.dec k (Bridge.key_of e)) [
    | yes same ↦ inr (record {
      before = [];
      entry = e;
      after = es;
      split = refl;
      same_key = sym same;
      same_identity = ground (arith, same, h);
    })
    | no differ ↦ inl (ground (arith, differ, h))
  ]

  IsNamed-cons :
      (k : Bridge.Key UserId) (ident : Bridge.Identity) (e : Bridge.Entry UserId)
      (es : List (Bridge.Entry UserId))
      → IsNamed k ident es
      → IsNamed k ident (e ∷ es)
  IsNamed-cons k ident e es n = record {
    before = e ∷ n.before;
    entry = n.entry;
    after = n.after;
    split = ap (λ xs. e ∷ xs) n.split;
    same_key = n.same_key;
    same_identity = n.same_identity;
  }

  add_entries-IsNamed :
      (es : List (Bridge.Entry UserId)) (d : Dict (Bridge.Key UserId) Bridge.Identity)
      (k : Bridge.Key UserId) (ident : Bridge.Identity)
      → lookup k (Bridge.add_entries d es) ≡ some ident
      → (lookup k d ≡ some ident) ⊎ IsNamed k ident es
  unfolding Bridge.add_entries
  add_entries-IsNamed [] d k ident h = inl h
  add_entries-IsNamed (e ∷ es) d k ident h =
      elim (add_entries-IsNamed es (insert (Bridge.key_of e) (Bridge.identity_of e) d) k ident h) [
        | inr n ↦ inr (IsNamed-cons k ident e es n)
        | inl there ↦
            inserted e es d k ident
              (sym (lookup-insert k (Bridge.key_of e) (Bridge.identity_of e) d) ∙ there)
      ]

  -- Whoever has an identity keeps one.
  IsFound : Bridge.Key UserId → Dict (Bridge.Key UserId) Bridge.Identity → Type 0
  IsFound k d = (ident : Bridge.Identity) × (lookup k d ≡ some ident)

  insert-IsFound :
      (k : Bridge.Key UserId) (e : Bridge.Entry UserId)
      (d : Dict (Bridge.Key UserId) Bridge.Identity)
      → (Bridge.key_of e ≡ k) ⊎ IsFound k d
      → IsFound k (insert (Bridge.key_of e) (Bridge.identity_of e) d)
  unfolding IsFound
  insert-IsFound k e d h =
      let law = lookup-insert k (Bridge.key_of e) (Bridge.identity_of e) d in
      elim (pair_eq.dec k (Bridge.key_of e)) [
        | yes same ↦ (Bridge.identity_of e, law ∙ ground (arith, same))
        | no differ ↦ elim h [
          | inl same ↦ absurd (differ (sym same))
          | inr (ident, there) ↦ (ident, law ∙ ground (arith, differ, there))
        ]
      ]

  add_entries-IsFound :
      (es : List (Bridge.Entry UserId)) (d : Dict (Bridge.Key UserId) Bridge.Identity)
      (k : Bridge.Key UserId)
      → IsFound k d
      → IsFound k (Bridge.add_entries d es)
  unfolding Bridge.add_entries
  add_entries-IsFound [] d k h = h
  add_entries-IsFound (e ∷ es) d k h =
      add_entries-IsFound es (insert (Bridge.key_of e) (Bridge.identity_of e) d) k
        (insert-IsFound k e d (inr h))

  named-IsFound :
      (before : List (Bridge.Entry UserId)) (e : Bridge.Entry UserId)
      (after : List (Bridge.Entry UserId)) (d : Dict (Bridge.Key UserId) Bridge.Identity)
      (k : Bridge.Key UserId)
      → Bridge.key_of e ≡ k
      → IsFound k (Bridge.add_entries d (before ++ (e ∷ after)))
  unfolding Bridge.add_entries
  named-IsFound [] e after d k same =
      add_entries-IsFound after (insert (Bridge.key_of e) (Bridge.identity_of e) d) k
        (insert-IsFound k e d (inl same))
  named-IsFound (b ∷ before) e after d k same =
      named-IsFound before e after (insert (Bridge.key_of b) (Bridge.identity_of b) d) k same

  pub resolve-unnamed :
      (entries : List (Bridge.Entry UserId)) (sender : Bridge.Sender UserId)
      → Bridge.resolve sender (Bridge.principal_map entries) ≡ none
      → (ident : Bridge.Identity) → ¬ IsNamed (sender.channel, sender.channel_user_id) ident entries
  unfolding Bridge.resolve Bridge.principal_map IsFound
  resolve-unnamed entries sender h ident n =
      let (found, there) =
        named-IsFound n.before n.entry n.after [] (sender.channel, sender.channel_user_id)
          n.same_key in
      none-ne-some found (
        sym h
        ∙ ap (λ es. lookup (sender.channel, sender.channel_user_id) (Bridge.add_entries [] es))
            n.split
        ∙ there)

  pub resolve-IsNamed :
      (entries : List (Bridge.Entry UserId)) (sender : Bridge.Sender UserId)
      (ident : Bridge.Identity)
      → Bridge.resolve sender (Bridge.principal_map entries) ≡ some ident
      → IsNamed (sender.channel, sender.channel_user_id) ident entries
  unfolding Bridge.resolve Bridge.principal_map
  resolve-IsNamed entries sender ident h =
      elim (add_entries-IsNamed entries [] (sender.channel, sender.channel_user_id) ident h) [
        | inl there ↦
            absurd (
              none-ne-some ident
                (sym (lookup-nil (sender.channel, sender.channel_user_id)) ∙ there))
        | inr n ↦ n
      ]
