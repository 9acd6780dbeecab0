-- ===== src/Bus/Delivery/Routed.antt =====
-- When a delivery counts as made.
use islands_kernel.Base.{
  ℕ, ◌≤◌, ◌<◌, String, ◌≡◌, ◌≢◌, ◌⊎◌, ◌↔◌, Option, none, some, arith, string_eq, option_eq, inl,
  inr, Option-cases,
}
use islands_kernel.Base.Dict.{lookup}
use islands_kernel.Bus.Model.{Event, Subscription}
use islands_kernel.Bus.Delivery.{
  Outside, Handlers, envelope_json, audience_of, push_result, deliver_inprocess, deliver_http,
  deliver_routed,
}

push_result_iff :
    (result : Option String × ℕ)
    → (push_result result ≡ none) ↔ ((result.0 ≡ none) × (200 ≤ result.1) × (result.1 < 300))
unfolding push_result
push_result_iff (some raised, status) = (λ h. cc h, λ h. cc h.0)
push_result_iff (none, status) = (λ h. ground arith, λ h. ground arith)

module _ (outside : Outside) (handlers : Handlers) (sub : Subscription) (event : Event)
    (world : outside.World) where
  -- The target has a url, and the post to it returned with a status of success.
  abbrev pub IsPushed : Type 0
  IsPushed =
      (url : Option String) × (sub.target.url ≡ some url)
      × ((outside.post url (envelope_json event) (audience_of sub) world).0.0 ≡ none)
      × (200 ≤ (outside.post url (envelope_json event) (audience_of sub) world).0.1)
      × ((outside.post url (envelope_json event) (audience_of sub) world).0.1 < 300)

  -- The target names a handler that is registered, and it returned.
  abbrev pub IsHandled : Type 0
  IsHandled =
      (name : String) × (lookup sub.target.key handlers ≡ some name)
      × ((outside.handler name event world).0 ≡ none)

  http_iff : ((deliver_http outside sub event world).0 ≡ none) ↔ IsPushed
  unfolding deliver_http
  http_iff = (
    λ h. elim (Option-cases sub.target.url) [
      | inl absent ↦ absurd (cc (rw (absent, deliver_http) at h))
      | inr (url, there) ↦
          let (returned, low, high) =
            (push_result_iff (outside.post url (envelope_json event) (audience_of sub) world).0).0
              (rw (there, deliver_http) at h) in
          (url, there, returned, low, high)
    ],
    λ (url, there, returned, low, high).
        rw (there, deliver_http)
          ((push_result_iff (outside.post url (envelope_json event) (audience_of sub) world).0).1
            (returned, low, high)),
  )

  inprocess_iff : ((deliver_inprocess outside handlers sub event world).0 ≡ none) ↔ IsHandled
  unfolding deliver_inprocess
  inprocess_iff = (
    λ h. elim (Option-cases (lookup sub.target.key handlers)) [
      | inl absent ↦ absurd (cc (rw (absent, deliver_inprocess) at h))
      | inr (name, there) ↦ (name, there, rw (there, deliver_inprocess) at h)
    ],
    λ (name, there, made). rw (there, deliver_inprocess) made,
  )

  -- A routed delivery raises nothing exactly when the target is of kind "http", has a url, and the
  -- post of the event's envelope to it returned a status from 200 to 299; or the target is of
  -- another kind or of none, names a registered handler, and the handler returned.
  pub deliver_routed_iff : ((deliver_routed outside handlers sub event world).0 ≡ none) ↔ (
      ((sub.target.kind ≡ some "http") × IsPushed) ⊎ ((sub.target.kind ≢ some "http") × IsHandled))
  unfolding deliver_routed
  deliver_routed_iff =
      (λ h. ground (arith, http_iff, inprocess_iff), λ h. ground (arith, http_iff, inprocess_iff))
