-- ===== src/Identity/Authorize/Spec.antt =====
-- identity/authorize.py: what `authorize` decides, without its loop.
use islands_kernel.Base.{
  ℕ, ◌<◌, String, ◌≡◌, ◌≢◌, ◌↔◌, ◌⊎◌, inl, inr, sym, ◌∙◌, Option-cases, true, false, Option, some,
  List, [], ◌∷◌, arith, string_eq, option_eq, Bool-cases,
}
use islands_kernel.Identity.Model.{Access, to_use, to_manage, TargetKind, org, GrantTarget, Grant}
use islands_kernel.Identity.Authorize.{authorize, satisfies, covers, is_revoked, same_kind, nests}

-- `manage` allows both kinds of access, `use` only itself.
abbrev pub Suffices : Access → Access → Type 0
Suffices have need = (have ≡ to_manage) ⊎ (need ≡ to_use)

-- The grant names the target, or it is a grant on the request's org and the target is no org.
abbrev pub Covers : GrantTarget → GrantTarget → Option String → Type 0
Covers have target request_org =
    (have ≡ target) ⊎ ((have.kind ≡ org) × (some have.id ≡ request_org) × (target.kind ≢ org))

-- The grant is not revoked at `now`: it has no revocation time, or a later one.
abbrev pub IsLive : Grant → ℕ → Type 0
IsLive g now = (at : ℕ) → g.revoked_at ≡ some at → now < at

abbrev pub Permits : Grant → GrantTarget → Access → ℕ → Option String → Type 0
Permits g target access now request_org =
    IsLive g now × Suffices g.access access × Covers g.target target request_org

-- Some element of the list has the property.
abbrev pub Any {ℓ} : {A : Type ℓ} → (A → Type 0) → List A → Type 0
Any P [] = ⊥
Any P (x ∷ xs) = P x ⊎ Any P xs

pub satisfies_iff : (have need : Access) → (satisfies have need ≡ true) ↔ Suffices have need
unfolding satisfies
satisfies_iff have need = (λ h. ground arith, λ h. ground arith)

same_kind_iff : (j k : TargetKind) → (same_kind j k ≡ true) ↔ (j ≡ k)
unfolding same_kind
same_kind_iff j k = (λ h. ground arith, λ h. ground arith)

nests_iff : (k : TargetKind) → (nests k ≡ true) ↔ (k ≢ org)
unfolding nests
nests_iff k = (λ h. ground arith, λ h. ground arith)

covers_iff :
    (have target : GrantTarget) (request_org : Option String)
    → (covers have target request_org ≡ true) ↔ Covers have target request_org
unfolding covers
covers_iff have target request_org = (
  λ h. ground (
    arith,
    same_kind_iff have.kind target.kind,
    same_kind_iff have.kind org,
    nests_iff target.kind,
  ),
  λ h. ground (
    arith,
    same_kind_iff have.kind target.kind,
    same_kind_iff have.kind org,
    nests_iff target.kind,
  ),
)

IsLive-iff : (g : Grant) (now : ℕ) → (is_revoked g now ≡ false) ↔ IsLive g now
unfolding is_revoked
IsLive-iff g now = (
  λ h at e. ground arith,
  λ h. elim (Option-cases g.revoked_at) [
    | inl never ↦ rw (never, is_revoked)
    | inr (at, e) ↦ ground (arith, h at e)
  ],
)

module _ (target : GrantTarget) (access : Access) (now : ℕ) (request_org : Option String) where
  -- One grant of the list decides, or the rest does.
  authorize-cons :
      (g : Grant) (grants : List Grant)
      → (Permits g target access now request_org
          × (authorize (g ∷ grants) target access now request_org ≡ true))
        ⊎ (¬ Permits g target access now request_org
            × (authorize (g ∷ grants) target access now request_org
                ≡ authorize grants target access now request_org))
  unfolding authorize
  authorize-cons g grants = elim (Bool-cases (is_revoked g now)) [
    | inl dead ↦ inr (λ p. cc (dead, (IsLive-iff g now).1 p.0), rw dead)
    | inr live ↦ elim (Bool-cases (satisfies g.access access)) [
      | inr weak ↦ inr (λ p. cc (weak, (satisfies_iff g.access access).1 p.1), rw (live, weak))
      | inl strong ↦ elim (Bool-cases (covers g.target target request_org)) [
        | inr off ↦
            inr (
              λ p. cc (off, (covers_iff g.target target request_org).1 p.2),
              rw (live, strong, off),
            )
        | inl over ↦ inl (
          (
            (IsLive-iff g now).0 live,
            (satisfies_iff g.access access).0 strong,
            (covers_iff g.target target request_org).0 over,
          ),
          rw (live, strong, over),
        )
      ]
    ]
  ]

  -- `authorize` answers yes exactly when some grant of the list is live at `now`, is strong
  -- enough for the access, and covers the target, by itself or as a grant on the request's org.
  pub authorize_iff :
      (grants : List Grant)
      → (authorize grants target access now request_org ≡ true)
        ↔ Any (λ g. Permits g target access now request_org) grants
  unfolding authorize
  authorize_iff [] = (λ h. cc, λ h. absurd h)
  authorize_iff (g ∷ grants) = elim (authorize-cons g grants) [
    | inl (p, e) ↦ (λ _. inl p, λ _. e)
    | inr (n, e) ↦ (
      λ h. inr ((authorize_iff grants).0 (sym e ∙ h)),
      λ h. elim h [ inl p ↦ absurd (n p) | inr rest ↦ e ∙ (authorize_iff grants).1 rest ],
    )
  ]
