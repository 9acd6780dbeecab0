-- ===== src/Identity/Exchange/Facts.antt =====
-- identity/exchange.py: the credentials that `exchange` accepts, and what it says of the caller.
use mathlib.Core.Path.{subst}
use mathlib.Core.Option.{some-injective}
use islands_kernel.Base.{
  sym, ℕ, ◌<◌, String, ◌≡◌, ◌≢◌, ◌↔◌, ◌⊎◌, Option, none, some, [], arith, true, false, refl, ok,
  Option-cases, inl, inr, string_eq,
}
use islands_kernel.Identity.Model.{Membership}
use islands_kernel.Identity.Store.{IdentityStore, get_membership}
use islands_kernel.Identity.Exchange.{
  Audience, one, many, Credential, Resolved, find_row, audience_fits, is_past, describe, admit,
  admit_found, exchange, roles_in,
}

-- A credential with no audience serves every request; one with an audience serves that one.
abbrev pub FitsAudience : Option String → Audience → Type 0
FitsAudience own audience = (own ≡ none) ⊎ ((a : String) × (own ≡ some a) × (audience ≡ one a))

abbrev pub IsAccepted : Credential → Audience → ℕ → Type 0
IsAccepted row audience now =
    (row.revoked_at ≡ none)
    × FitsAudience row.audience audience
    × ((at : ℕ) → row.expires_at ≡ some at → now < at)

fits_iff :
    (own : Option String) (audience : Audience)
    → (audience_fits own audience ≡ true) ↔ FitsAudience own audience
unfolding audience_fits
fits_iff none audience = (λ _. inl refl, λ _. refl)
fits_iff (some a) (one b) = (λ h. inr (a, refl, ground arith), λ h. ground arith)
fits_iff (some a) (many bs) = (λ h. cc, λ h. ground arith)

is_past_iff :
    (expires_at : Option ℕ) (now : ℕ)
    → (is_past expires_at now ≡ false) ↔ ((at : ℕ) → expires_at ≡ some at → now < at)
unfolding is_past
is_past_iff none now = (λ h at e. cc, λ h. refl)
is_past_iff (some t) now = (λ h at e. ground arith, λ h. ground (arith, h t refl))

admit_iff :
    (s : IdentityStore) (audience : Audience) (now : ℕ) (row : Credential) (r : Resolved)
    → (admit s audience now row ≡ ok r) ↔ (IsAccepted row audience now × (r ≡ describe s row))
unfolding admit
admit_iff s audience now row r = (
  λ h. (
    (
      ground arith,
      (fits_iff row.audience audience).0 (ground arith),
      (is_past_iff row.expires_at now).0 (ground arith),
    ),
    ground arith,
  ),
  λ ((live, fits, fresh), e).
      ground
        (arith, (fits_iff row.audience audience).1 fits, (is_past_iff row.expires_at now).1 fresh),
)

admit_found_iff :
    (s : IdentityStore) (audience : Audience) (now : ℕ) (found : Option Credential) (r : Resolved)
    → (admit_found s audience now found ≡ ok r) ↔ (
        (row : Credential) × (found ≡ some row)
        × IsAccepted row audience now
        × (r ≡ describe s row))
unfolding admit_found
admit_found_iff s audience now none r = (λ h. cc, λ (row, found, rest, e). cc)
admit_found_iff s audience now (some row) r = (
  λ h. let (a, e) = (admit_iff s audience now row r).0 h in (row, refl, a, e),
  λ (other, same, a, e). (admit_iff s audience now row r).1 (
      subst (λ (c : Credential). IsAccepted c audience now × (r ≡ describe s c))
        (sym (some-injective row other same)) (a, e)),
)

-- `exchange` succeeds with a result exactly when the token's hash names a row that is not revoked,
-- has no audience or the one text requested, and has no expiry or one after `now`; the result is
-- then the description of that row.
pub exchange_iff :
    (hash_token : String → String) (token : String) (audience : Audience) (s : IdentityStore)
    (now : ℕ) (r : Resolved)
    → (exchange hash_token token audience s now ≡ ok r) ↔ (
        (row : Credential) × (find_row s (hash_token token) ≡ some row)
        × IsAccepted row audience now
        × (r ≡ describe s row))
unfolding exchange
exchange_iff hash_token token audience s now r =
    admit_found_iff s audience now (find_row s (hash_token token)) r

roles_in-membership :
    (s : IdentityStore) (pid : String) (org_id : Option String)
    → roles_in s pid org_id ≢ []
    → (org : String) × (m : Membership) × (org_id ≡ some org)
      × (get_membership pid org s ≡ some m)
      × (m.active ≡ true)
      × (roles_in s pid org_id ≡ m.roles)
unfolding roles_in
roles_in-membership s pid none h = absurd (h refl)
roles_in-membership s pid (some org) h = elim (Option-cases (get_membership pid org s)) [
  | inl absent ↦ absurd (h (ground arith))
  | inr (m, there) ↦ (org, m, refl, there, ground arith, ground arith)
]

-- The roles that a result states, if there are any, are those of an active membership of the
-- principal in the org of the result.
pub exchange_roles :
    (hash_token : String → String) (token : String) (audience : Audience) (s : IdentityStore)
    (now : ℕ) (r : Resolved)
    → exchange hash_token token audience s now ≡ ok r
    → r.roles ≢ []
    → (org : String) × (m : Membership) × (r.org_id ≡ some org)
      × (get_membership r.principal_id org s ≡ some m)
      × (m.active ≡ true)
      × (r.roles ≡ m.roles)
exchange_roles hash_token token audience s now r h some_role =
    let (row, found, accepted, e) = (exchange_iff hash_token token audience s now r).0 h in
    rw e (unfold describe in roles_in-membership s row.principal_id row.org_id (rw e at some_role))
