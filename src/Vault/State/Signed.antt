-- ===== src/Vault/State/Signed.antt =====
-- vault/oauth_state.py: `verify_state` on a text that `sign_state` made, and on any other.
use Prim.Native.Char.{Char, code}
use text.Mathlib.TextEquality.{Char-path}
use mathlib.Core.Path.{subst, ap₂}
use islands_kernel.Base.{
  String, ◌<>◌, ◌≡◌, refl, Bool, true, ◌↔◌, inl, inr, Option-cases, false, some, arith, string_eq,
  ok,
}
use islands_kernel.Base.Split.{has_separator, split_first-append, split_first-IsSplit}
use islands_kernel.Vault.State.{
  ConnectState, Codec, sign_state, is_dot, split_dot, verify_parts, verify_state,
}

-- The text has a dot.
abbrev pub has_dot : String → Bool
has_dot = has_separator is_dot

split_dot-append :
    (body sig : String) → has_dot body ≡ false → split_dot (body <> ("." <> sig)) ≡ some (body, sig)
unfolding split_dot is_dot
split_dot-append body sig h = split_first-append is_dot body _ sig refl h

module _ (codec : Codec) (key : String) where
  signed_back :
      (body : String)
      → has_dot body ≡ false
      → (payload : ConnectState) → codec.decode body ≡ some payload
      → verify_state codec (body <> ("." <> codec.mac key body)) key ≡ ok payload
  unfolding verify_state verify_parts
  signed_back body plain payload readable =
      ground (arith, split_dot-append body (codec.mac key body) plain)

  -- A state that was signed with a key is read back with the same key, where the encoding has no
  -- dot in it and is read back itself.
  pub verify_state-sign_state :
      (payload : ConnectState)
      → has_dot (codec.encode payload) ≡ false
      → codec.decode (codec.encode payload) ≡ some payload
      → verify_state codec (sign_state codec payload key) key ≡ ok payload
  unfolding sign_state
  verify_state-sign_state payload plain readable =
      signed_back (codec.encode payload) plain payload readable

  dot_char : (c : Char) → is_dot (code c) ≡ true → c ≡ "."
  unfolding is_dot
  dot_char c h = Char-path c "." (ground arith)

  verify_parts-ok :
      (body sig : String) (payload : ConnectState)
      → verify_parts codec key body sig ≡ ok payload
      → (sig ≡ codec.mac key body) × (codec.decode body ≡ some payload)
  unfolding verify_parts
  verify_parts-ok body sig payload h = (ground arith, ground arith)

  -- A text passes `verify_state` with a payload exactly when it is a body without a dot that decodes
  -- to the payload, a dot, and the digest of that body under the key.
  pub verify_state_iff :
      (token : String) (payload : ConnectState)
      → verify_state codec token key ≡ ok payload ↔ (
          (body : String) × (has_dot body ≡ false)
          × (codec.decode body ≡ some payload)
          × (token ≡ body <> ("." <> codec.mac key body)))
  unfolding verify_state split_dot
  verify_state_iff token payload = (
    λ h. elim (Option-cases (split_dot token)) [
      | inl absent ↦ absurd (ground (arith, absent, h))
      | inr (p, there) ↦
          let (same, readable) = verify_parts-ok p.0 p.1 payload (ground (arith, there, h)) in
          let (c, dot, plain, whole) = split_first-IsSplit is_dot token p there in
          (
            p.0,
            plain,
            readable,
            subst (λ (x : Char × String). token ≡ p.0 <> (String.◌∷◌ x.0 String.[] <> x.1))
                (ap₂ (λ x y. (x, y)) (dot_char c dot) same) whole,
          )
    ],
    λ (body, plain, readable, whole). rw whole (signed_back body plain payload readable),
  )
