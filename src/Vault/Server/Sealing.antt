-- ===== src/Vault/Server/Sealing.antt =====
-- The store's sealing of tokens, by the wrapper it is made with.
use islands_kernel.Vault.Crypto.{SecretBox, Codec, KeyWrapper, seal_token, open_token}
use islands_kernel.Vault.Crypto.Sealed.{
  IsSecretBox, IsKeyWrapper, IsSealable, open_token-seal_token,
}
use islands_kernel.Vault.Server.{Sealer}
use islands_kernel.Vault.Server.Refines.Tables.{IsSealer}

module _ (box : SecretBox) (codec : Codec) (wrapper : KeyWrapper) where
  unfoldable pub wrapper_sealer : Sealer
  wrapper_sealer = record {
    seal = seal_token box codec wrapper;
    unseal = open_token box codec wrapper;
  }

module _ (box : SecretBox) (law : IsSecretBox box) (codec : Codec) (wrapper : KeyWrapper)
    (opens : IsKeyWrapper wrapper) where
  -- Tokens that the wrapper can seal fit the store that is made with it.
  pub wrapper_sealer-IsSealer :
      IsSealer (wrapper_sealer box codec wrapper) (IsSealable box law codec wrapper opens)
  unfolding wrapper_sealer
  wrapper_sealer-IsSealer = record {
    unseal-seal = open_token-seal_token box law codec wrapper opens;
  }
