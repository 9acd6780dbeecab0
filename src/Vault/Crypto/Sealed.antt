-- ===== src/Vault/Crypto/Sealed.antt =====
-- vault/crypto.py: a token that is sealed and then opened.
use islands_kernel.Base.{◌<◌, ◌≡◌, refl, ap, arith, some, ◌++◌}
use islands_kernel.Vault.Model.{Token}
use islands_kernel.Vault.Crypto.{
  Bytes, length, SecretBox, KeyWrapper, secretbox_key_wrapper, to_dict, from_dict, Codec, Draws,
  Envelope, seal_token, open_token,
}
use islands_kernel.Vault.Crypto.Framed.{from_blob-to_blob}

-- What NaCl documents of a box: what was encrypted under a key of 32 bytes with a nonce of 24 is
-- decrypted under the same key.
pub record IsSecretBox (box : SecretBox) : Type 0 where
  pub decrypt-encrypt :
      (key nonce message : Bytes)
      → length key ≡ 32
      → length nonce ≡ 24
      → box.decrypt key (nonce ++ box.encrypt key nonce message) ≡ some message

-- A wrapper reads back what it wrapped.
pub record IsKeyWrapper (wrapper : KeyWrapper) : Type 0 where
  pub unwrap-wrap :
      (nonce dek blob : Bytes)
      → length nonce ≡ 24
      → wrapper.wrap nonce dek ≡ some blob
      → wrapper.unwrap blob ≡ some dek

-- The server's wrapper, under a key of 32 bytes, reads back what it wrapped.
pub secretbox_key_wrapper-IsKeyWrapper :
    (box : SecretBox) (kek : Bytes)
    → IsSecretBox box
    → length kek ≡ 32
    → IsKeyWrapper (secretbox_key_wrapper box kek)
unfolding secretbox_key_wrapper
secretbox_key_wrapper-IsKeyWrapper box kek law long = record {
  unwrap-wrap =
      λ nonce dek blob fits wrapped. ground (arith, law.decrypt-encrypt kek nonce dek long fits);
}

from_dict-to_dict : (t : Token) → from_dict (to_dict t) ≡ t
unfolding from_dict to_dict
from_dict-to_dict t = refl

module _ (box : SecretBox) (law : IsSecretBox box) (codec : Codec) (wrapper : KeyWrapper)
    (opens : IsKeyWrapper wrapper) where
  -- A token whose text `json` reads back and whose key the wrapper wraps, with draws of the lengths
  -- that the code asks for and parts shorter than 4 GiB.
  pub record IsSealable (token : Token) (drawn : Draws) : Type 0 where
    pub readable : codec.loads (codec.dumps (to_dict token)) ≡ some (to_dict token)
    pub dek : length drawn.dek ≡ 32
    pub nonce : length drawn.nonce ≡ 24
    pub wrap_nonce : length drawn.wrap_nonce ≡ 24
    pub wrapped : Bytes
    pub wraps : wrapper.wrap drawn.wrap_nonce drawn.dek ≡ some wrapped
    pub short_key : length wrapped < 4294967296
    pub short_text :
        length (box.encrypt drawn.dek drawn.nonce (codec.dumps (to_dict token))) < 4294967296

  -- A sealable token is sealed, and its blob is opened to the token.
  pub open_token-seal_token :
      (token : Token) (drawn : Draws)
      → IsSealable token drawn
      → (blob : Bytes) × (seal_token box codec wrapper token drawn ≡ some blob)
        × (open_token box codec wrapper blob ≡ some token)
  unfolding seal_token open_token
  open_token-seal_token token drawn h =
      let env : Envelope = record {
        wrapped_dek = h.wrapped;
        nonce = drawn.nonce;
        ciphertext = box.encrypt drawn.dek drawn.nonce (codec.dumps (to_dict token));
      } in
      let (blob, made, read) =
        from_blob-to_blob env h.short_key (ground (arith, h.nonce)) h.short_text in
      (
        blob,
        rw (seal_token, h.wraps) made,
        rw
            (
              open_token,
              read,
              opens.unwrap-wrap drawn.wrap_nonce drawn.dek h.wrapped h.wrap_nonce h.wraps,
              law.decrypt-encrypt drawn.dek drawn.nonce (codec.dumps (to_dict token)) h.dek h.nonce,
              h.readable,
            )
            (ap some (from_dict-to_dict token)),
      )
