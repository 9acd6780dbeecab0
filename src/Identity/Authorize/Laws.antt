-- ===== src/Identity/Authorize/Laws.antt =====
-- How `authorize` answers on lists of grants that are related.
use islands_kernel.Base.{
  ℕ, ◌≤◌, String, ◌≡◌, refl, true, ◌||◌, Option, none, some, List, [], ◌∷◌, ◌++◌, arith, not,
  string_eq, ◌==◌, inl, inr, Option-cases,
}
use islands_kernel.Base.Dict.{Dict, IsKeyed, lookup, insert, values, filter}
use islands_kernel.Identity.Model.{Access, GrantTarget, Grant}
use islands_kernel.Identity.Store.{IdentityStore, list_grants, revoke_grant}
use islands_kernel.Identity.Store.Invariant.{IsValid}
use islands_kernel.Identity.Authorize.{authorize, is_revoked}

module _ (target : GrantTarget) (now : ℕ) (request_org : Option String) where
  -- Two lists authorize together what one of them authorizes.
  pub authorize-append :
      (access : Access) (gs hs : List Grant)
      → authorize (gs ++ hs) target access now request_org
        ≡ (authorize gs target access now request_org || authorize hs target access now request_org)
  unfolding authorize
  authorize-append access [] hs = refl
  authorize-append access (g ∷ gs) hs = ground (arith, authorize-append access gs hs)

-- The grants of the list with another id than `grant_id`.
abbrev pub others : String → List Grant → List Grant
others grant_id = filter (λ (g : Grant). not (g.id == grant_id))

module _ (principal_id : String) where
  abbrev held_by : Dict String Grant → List Grant
  held_by d = filter (λ (g : Grant). g.principal_id == principal_id) (values d)

  others_of_absent :
      (k : String) (d : Dict String Grant)
      → IsKeyed (λ (x : Grant). x.id) d
      → lookup k d ≡ none
      → others k (held_by d) ≡ held_by d
  unfolding values filter lookup
  others_of_absent k [] u h = refl
  others_of_absent k ((j, g) ∷ d) (own, fresh, u) h = ground (arith, others_of_absent k d u)

  -- A grant that is revoked by `now` decides as if its row were gone.
  held_by-insert_revoked :
      (target : GrantTarget) (access : Access) (now : ℕ) (request_org : Option String) (k : String)
      (g : Grant) (d : Dict String Grant)
      → IsKeyed (λ (x : Grant). x.id) d
      → is_revoked g now ≡ true
      → authorize (held_by (insert k g d)) target access now request_org
        ≡ authorize (others k (held_by d)) target access now request_org
  unfolding insert values filter authorize
  held_by-insert_revoked target access now request_org k g [] u r = ground arith
  held_by-insert_revoked target access now request_org k g ((j, w) ∷ d) (own, fresh, u) r = ground (
    arith,
    held_by-insert_revoked target access now request_org k g d u r,
    others_of_absent k d u,
  )

  -- From the time of a revocation on, whoever's grants are asked for, the revoked grant counts for
  -- nothing: `authorize` decides by the grants with another id.
  pub authorize-revoke_grant :
      (s : IdentityStore) (grant_id : String) (at : ℕ) (target : GrantTarget) (access : Access)
      (now : ℕ) (request_org : Option String)
      → IsValid s
      → at ≤ now
      → authorize
          (list_grants principal_id (revoke_grant grant_id at s))
          target
          access
          now
          request_org
        ≡ authorize (others grant_id (list_grants principal_id s)) target access now request_org
  unfolding list_grants revoke_grant is_revoked
  authorize-revoke_grant s grant_id at target access now request_org v h =
      elim (Option-cases (lookup grant_id s.grants)) [
        | inl absent ↦ rw (absent, revoke_grant, others_of_absent grant_id s.grants v.grants absent)
        | inr (g, there) ↦
            rw (there, revoke_grant)
              (held_by-insert_revoked target access now request_org grant_id
                (record g { revoked_at = some at }) s.grants v.grants (ground arith))
      ]
