-- ===== src/Vault/State.antt =====
-- vault/oauth_state.py: the signed state that a connect carries to the provider and back.
pub mod Signed
use islands_kernel.Base.{
  ℕ, String, ◌<>◌, Bool, true, false, ◌&&◌, ◌||◌, Option, none, some, ◌==◌, string_eq,
  if◌then◌else◌, leb, Result, ok, err,
}
use islands_kernel.Base.Split.{split_first, is_ascii}

-- The dict that `start_connect` signs.
pub record ConnectState : Type 0 where
  pub org : String
  pub provider : String
  pub account : String
  pub principal : String

-- `_b64(json.dumps(payload, sort_keys=True).encode())`, its inverse `json.loads(_unb64(body))`, which
-- raises on other texts, and `_b64(hmac.new(key, body.encode(), sha256).digest())`.
pub record Codec : Type 0 where
  pub encode : ConnectState → String
  pub decode : String → Option ConnectState
  pub mac : String → String → String

-- "malformed state", "bad state signature", what `json.loads` or `_unb64` raises, and the `TypeError`
-- of `compare_digest` on a text that is not ASCII.
pub data StateError : Type 0 where
  malformed_state bad_signature unreadable not_ascii : StateError

unfoldable pub sign_state : Codec → ConnectState → String → String
sign_state codec payload key =
    let body = codec.encode payload in body <> ("." <> codec.mac key body)

-- `c == "."`
unfoldable pub is_dot : ℕ → Bool
is_dot c = leb c b'.' && leb b'.' c

-- `token.split(".", 1)` as a pair; `none` where there is no dot.
unfoldable pub split_dot : String → Option (String × String)
split_dot = split_first is_dot

-- The tests of `verify_state` on the two parts of the token. The digest is base64, so only `sig` may
-- have a character that is not ASCII, and then the two differ.
unfoldable pub verify_parts : Codec → String → String → String → Result StateError ConnectState
verify_parts codec key body sig =
    if sig == codec.mac key body
    then elim (codec.decode body) [ none ↦ err unreadable | some payload ↦ ok payload ]
    else if is_ascii sig
    then err bad_signature
    else err not_ascii

unfoldable pub verify_state : Codec → String → String → Result StateError ConnectState
verify_state codec token key = elim (split_dot token) [
  | none ↦ err malformed_state
  | some p ↦ verify_parts codec key p.0 p.1
]
