-- ===== src/Tests/Sealing.antt =====
-- A token sealed and opened, and the vault's store on SQLite, on tables that are dicts.
use islands_kernel.Base.{
  ℕ, zero, suc, ◌≡◌, refl, sym, ◌∙◌, ap, none, some, List, [], ◌∷◌, ◌++◌, arith,
}
use islands_kernel.Base.Sql.Dicts.{dicts, dicts-IsLawful, plain, plain-IsFaithful}
use islands_kernel.Identity.Model.{to_use}
use islands_kernel.Vault.Model.{ConnKey, Token, Connection, static, ConnectionGrant}
use islands_kernel.Vault.Keys.{is_slash, IsPlain}
use islands_kernel.Vault.Crypto.{
  Bytes, drop, Envelope, SecretBox, KeyWrapper, secretbox_key_wrapper, to_dict, Codec, Draws,
  seal_token, open_token,
}
use islands_kernel.Vault.Crypto.Framed.{drop-append}
use islands_kernel.Vault.Crypto.Sealed.{
  IsSecretBox, IsKeyWrapper, secretbox_key_wrapper-IsKeyWrapper, IsSealable, open_token-seal_token,
}
use islands_kernel.Vault.Store
use islands_kernel.Vault.Server
use islands_kernel.Vault.Server.Sealing.{wrapper_sealer, wrapper_sealer-IsSealer}
use islands_kernel.Vault.Server.Calls.{
  VaultCall, put_connection, write_token, acquire_lease, release_lease, delete_connection,
  add_grant, run_memory, AreUsable, run_server,
}
use islands_kernel.Vault.Server.Refines.Runs.{Agrees, server_vault_refines}

abbrev envelope : Envelope
envelope = record { wrapped_dek = 1 ∷ 2 ∷ []; nonce = 3 ∷ []; ciphertext = [] }

abbrev key : ConnKey
key = record { org = "acme"; provider = "gmail"; account = "ops/a" }

key-IsPlain : IsPlain key
unfolding is_slash
key-IsPlain = (refl, refl)

abbrev zeros : ℕ → Bytes
zeros zero = []
zeros (suc n) = 0 ∷ zeros n

-- A box that hides nothing, but needs its nonce.
abbrev box : SecretBox
box = record { encrypt = λ k nonce message. message; decrypt = λ k sealed. some (drop 24 sealed) }

box-IsSecretBox : IsSecretBox box
box-IsSecretBox = record {
  decrypt-encrypt = λ k nonce message long fits.
      ap (λ n. some (drop n (nonce ++ message))) (sym fits) ∙ ap some (drop-append nonce message);
}

abbrev token : Token
token = record { access_token = "at"; refresh_token = "rt"; expires_at = 50; scope = "mail" }

-- It reads any text as the token.
abbrev codec : Codec
codec = record { dumps = λ d. 7 ∷ []; loads = λ text. some (to_dict token) }

abbrev wrapper : KeyWrapper
wrapper = secretbox_key_wrapper box (zeros 32)

wrapper-IsKeyWrapper : IsKeyWrapper wrapper
wrapper-IsKeyWrapper = secretbox_key_wrapper-IsKeyWrapper box (zeros 32) box-IsSecretBox refl

abbrev drawn : Draws
drawn = record { dek = zeros 32; nonce = zeros 24; wrap_nonce = zeros 24 }

token-IsSealable : IsSealable box box-IsSecretBox codec wrapper wrapper-IsKeyWrapper token drawn
unfolding secretbox_key_wrapper
token-IsSealable = record {
  readable = refl;
  dek = refl;
  nonce = refl;
  wrap_nonce = refl;
  wrapped = zeros 56;
  wraps = refl;
  short_key = omega arith;
  short_text = omega arith;
}

open_token-seal_token_example :
    (blob : Bytes) × (seal_token box codec wrapper token drawn ≡ some blob)
    × (open_token box codec wrapper blob ≡ some token)
open_token-seal_token_example =
    open_token-seal_token box box-IsSecretBox codec wrapper wrapper-IsKeyWrapper token drawn
      token-IsSealable

abbrev connection : Connection
connection = record {
  id = "c1";
  org = "acme";
  provider = "gmail";
  account = "ops/a";
  scopes = "mail" ∷ [];
  app_cred_ref = "ref";
  token = some token;
  rotation = static;
  created_by = "ann";
  created_at = 1;
  updated_at = 1;
}

abbrev grant : ConnectionGrant
grant = record {
  connection_id = "c1";
  principal_id = "ann";
  access = to_use;
  scopes_subset = none;
  granted_by = "root";
  granted_at = 2;
}

abbrev calls : List VaultCall
calls =
    put_connection connection drawn
    ∷ write_token key token 3 drawn
    ∷ acquire_lease key "w1" 30 0
    ∷ acquire_lease key "w2" 40 10
    ∷ release_lease key "w1"
    ∷ add_grant grant
    ∷ delete_connection key
    ∷ []

calls-AreUsable :
    AreUsable (IsSealable box box-IsSecretBox codec wrapper wrapper-IsKeyWrapper) calls
calls-AreUsable = (
  (key-IsPlain, token-IsSealable),
  ((key-IsPlain, token-IsSealable), (tt, (tt, (tt, (tt, (key-IsPlain, tt)))))),
)

server_vault_refines_example :
    let sealer = wrapper_sealer box codec wrapper in
    let (answers, s) =
      run_server dicts plain sealer calls (Server.create_store dicts plain sealer) in
    let (answers', m) = run_memory calls Store.empty in
    (answers ≡ answers') × Agrees dicts dicts-IsLawful plain plain-IsFaithful sealer s m
server_vault_refines_example =
    server_vault_refines dicts dicts-IsLawful plain plain-IsFaithful
      (wrapper_sealer box codec wrapper)
      (IsSealable box box-IsSecretBox codec wrapper wrapper-IsKeyWrapper)
      (wrapper_sealer-IsSealer box box-IsSecretBox codec wrapper wrapper-IsKeyWrapper) calls
      calls-AreUsable
