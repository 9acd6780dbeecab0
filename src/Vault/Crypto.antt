-- ===== src/Vault/Crypto.antt =====
-- vault/crypto.py: the sealing of tokens. A byte is a natural number below 256. What the code draws
-- at random is an argument.
pub mod Framed
pub mod Sealed
use Prim.Native.Nat.{◌/◌, ◌%◌}
use mathlib.Core.Option
use islands_kernel.Base.{
  ℕ, zero, suc, ◌+◌, ◌*◌, String, Bool, Option, none, some, List, [], ◌∷◌, ◌++◌, ltb, if◌then◌else◌,
}
use islands_kernel.Vault.Model.{Token}

infixl 5 ◌>>=◌
abbrev ◌>>=◌ : {A B : Type 0} → Option A → (A → Option B) → Option B
none >>= f = none
some a >>= f = f a

abbrev pub Bytes : Type 0
Bytes = List ℕ

abbrev pub length : Bytes → ℕ
length [] = 0
length (b ∷ bs) = suc (length bs)

-- `blob[:n]`
unfoldable pub take : ℕ → Bytes → Bytes
take n [] = []
take zero (b ∷ bs) = []
take (suc n) (b ∷ bs) = b ∷ take n bs

-- `blob[n:]`
unfoldable pub drop : ℕ → Bytes → Bytes
drop n [] = []
drop zero (b ∷ bs) = b ∷ bs
drop (suc n) (b ∷ bs) = drop n bs

pub record Envelope : Type 0 where
  pub wrapped_dek : Bytes
  pub nonce : Bytes
  pub ciphertext : Bytes

-- `struct.pack(">I", n)`, which raises from `2 ** 32` on.
unfoldable pub pack : ℕ → Option Bytes
pack n =
    if ltb n 4294967296
    then some ((n / 16777216) ∷ (n / 65536 % 256) ∷ (n / 256 % 256) ∷ (n % 256) ∷ [])
    else none

-- `struct.unpack(">I", bs)`, which raises unless there are four bytes.
unfoldable pub unpack : Bytes → Option ℕ
unpack (a ∷ b ∷ c ∷ d ∷ []) = some (a * 16777216 + b * 65536 + c * 256 + d)
unpack _ = none

-- `struct.pack(">I", len(p)) + p`
unfoldable pub framed : Bytes → Option Bytes
framed p = Option.map (λ header. header ++ p) (pack (length p))

unfoldable pub to_blob : Envelope → Option Bytes
to_blob env = do
  wrapped ← framed env.wrapped_dek
  nonce ← framed env.nonce
  ciphertext ← framed env.ciphertext
  some (wrapped ++ (nonce ++ ciphertext))

-- One turn of the loop of `from_blob`, where `blob` is what stands from `i` on: the part, and what
-- stands after it. A slice that reaches past the end is cut there.
unfoldable pub read_part : Bytes → Option (Bytes × Bytes)
read_part blob =
    Option.map (λ n. (take n (drop 4 blob), drop n (drop 4 blob))) (unpack (take 4 blob))

unfoldable pub from_blob : Bytes → Option Envelope
from_blob blob = do
  (wrapped_dek, rest) ← read_part blob
  (nonce, rest) ← read_part rest
  (ciphertext, rest) ← read_part rest
  some (record { wrapped_dek = wrapped_dek; nonce = nonce; ciphertext = ciphertext })

-- `nacl.secret.SecretBox(key)`: `encrypt` with a nonce gives the ciphertext alone; `decrypt` reads a
-- nonce and a ciphertext, and raises where they are not of its key.
pub record SecretBox : Type 0 where
  pub encrypt : Bytes → Bytes → Bytes → Bytes
  pub decrypt : Bytes → Bytes → Option Bytes

-- `wrap` is given the nonce that it may draw. Both may raise.
pub record KeyWrapper : Type 0 where
  pub wrap : Bytes → Bytes → Option Bytes
  pub unwrap : Bytes → Option Bytes

unfoldable pub secretbox_key_wrapper : SecretBox → Bytes → KeyWrapper
secretbox_key_wrapper box kek = record {
  wrap = λ nonce dek. some (nonce ++ box.encrypt kek nonce dek);
  unwrap = λ blob. box.decrypt kek blob;
}

-- The process that a runner starts, given its arguments, its input and what it draws.
abbrev pub AgeRunner : Type 0
AgeRunner = List String → Bytes → Bytes → Option Bytes

unfoldable pub age_key_wrapper : String → String → AgeRunner → KeyWrapper
age_key_wrapper identity recipient runner = record {
  wrap = λ drawn dek. runner ("age" ∷ "-r" ∷ recipient ∷ "-o" ∷ "-" ∷ []) dek drawn;
  unwrap = λ blob. runner ("age" ∷ "-d" ∷ "-i" ∷ identity ∷ []) blob [];
}

-- The dict of `Token.to_dict`; `scope` may be absent from one that is read.
pub record TokenDict : Type 0 where
  pub access_token : String
  pub refresh_token : String
  pub expires_at : ℕ
  pub scope : Option String

unfoldable pub to_dict : Token → TokenDict
to_dict t = record {
  access_token = t.access_token;
  refresh_token = t.refresh_token;
  expires_at = t.expires_at;
  scope = some t.scope;
}

unfoldable pub from_dict : TokenDict → Token
from_dict d = record {
  access_token = d.access_token;
  refresh_token = d.refresh_token;
  expires_at = d.expires_at;
  scope = elim d.scope [ none ↦ "" | some scope ↦ scope ];
}

-- `json.dumps(...).encode()`, and `json.loads`, which raises on other texts.
pub record Codec : Type 0 where
  pub dumps : TokenDict → Bytes
  pub loads : Bytes → Option TokenDict

-- What a call of `seal_token` draws: the key, and the nonces of `encrypt` and of `wrap`.
pub record Draws : Type 0 where
  pub dek : Bytes
  pub nonce : Bytes
  pub wrap_nonce : Bytes

module _ (box : SecretBox) (codec : Codec) (wrapper : KeyWrapper) where
  unfoldable pub seal_token : Token → Draws → Option Bytes
  seal_token token drawn = do
    wrapped_dek ← wrapper.wrap drawn.wrap_nonce drawn.dek
    to_blob (record {
      wrapped_dek = wrapped_dek;
      nonce = drawn.nonce;
      ciphertext = box.encrypt drawn.dek drawn.nonce (codec.dumps (to_dict token));
    })

  unfoldable pub open_token : Bytes → Option Token
  open_token blob = do
    env ← from_blob blob
    dek ← wrapper.unwrap env.wrapped_dek
    plain ← box.decrypt dek (env.nonce ++ env.ciphertext)
    d ← codec.loads plain
    some (from_dict d)
