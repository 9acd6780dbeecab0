-- ===== src/Vault/Crypto/Framed.antt =====
-- vault/crypto.py: the blob of an envelope.
use Prim.Native.Nat.{◌/◌, ◌%◌}
use mathlib.Core.List.{append-nil}
use islands_kernel.Base.{ℕ, ◌<◌, ◌≡◌, refl, ap, some, [], ◌∷◌, ◌++◌, arith}
use islands_kernel.Vault.Crypto.{
  Bytes, length, take, drop, Envelope, pack, unpack, framed, to_blob, read_part, from_blob,
}

-- The four bytes of a number.
abbrev pub header : ℕ → Bytes
header n = (n / 16777216) ∷ (n / 65536 % 256) ∷ (n / 256 % 256) ∷ (n % 256) ∷ []

pack_small : (n : ℕ) → n < 4294967296 → pack n ≡ some (header n)
unfolding pack
pack_small n h = ground arith

unpack-header : (n : ℕ) → n < 4294967296 → unpack (header n) ≡ some n
unfolding unpack
unpack-header n h = ap some (omega arith)

take-append : (p rest : Bytes) → take (length p) (p ++ rest) ≡ p
unfolding take
take-append [] [] = refl
take-append [] (b ∷ rest) = refl
take-append (b ∷ p) rest = ap (λ bs. b ∷ bs) (take-append p rest)

pub drop-append : (p rest : Bytes) → drop (length p) (p ++ rest) ≡ rest
unfolding drop
drop-append [] [] = refl
drop-append [] (b ∷ rest) = refl
drop-append (b ∷ p) rest = drop-append p rest

take_none : (bs : Bytes) → take 0 bs ≡ []
unfolding take
take_none [] = refl
take_none (b ∷ bs) = refl

drop_none : (bs : Bytes) → drop 0 bs ≡ bs
unfolding drop
drop_none [] = refl
drop_none (b ∷ bs) = refl

-- A framed part is read, and what follows it is left.
read_part-header :
    (p rest : Bytes)
    → length p < 4294967296
    → read_part (header (length p) ++ (p ++ rest)) ≡ some (p, rest)
unfolding read_part take drop
read_part-header p rest h =
    rw
      (
        read_part,
        take_none (p ++ rest),
        drop_none (p ++ rest),
        unpack-header (length p) h,
        take-append p rest,
        drop-append p rest,
      )
      refl

-- The last part has nothing after it.
read_part_last :
    (p : Bytes) → length p < 4294967296 → read_part (header (length p) ++ p) ≡ some (p, [])
read_part_last p h = rw (append-nil p) at (read_part-header p [] h)

framed_small : (p : Bytes) → length p < 4294967296 → framed p ≡ some (header (length p) ++ p)
unfolding framed
framed_small p h = ground (arith, pack_small (length p) h)

-- An envelope whose three parts are each shorter than 4 GiB has a blob, and is read back from it.
pub from_blob-to_blob :
    (env : Envelope)
    → length env.wrapped_dek < 4294967296
    → length env.nonce < 4294967296
    → length env.ciphertext < 4294967296
    → (blob : Bytes) × (to_blob env ≡ some blob) × (from_blob blob ≡ some env)
unfolding to_blob from_blob
from_blob-to_blob env h h' h'' =
    let n = env.nonce in
    let c = env.ciphertext in
    let tail = (header (length n) ++ n) ++ (header (length c) ++ c) in
    (
      (header (length env.wrapped_dek) ++ env.wrapped_dek) ++ tail,
      rw (to_blob, framed_small env.wrapped_dek h, framed_small n h', framed_small c h'') refl,
      rw
          (
            from_blob,
            read_part-header env.wrapped_dek tail h,
            read_part-header n (header (length c) ++ c) h',
            read_part_last c h'',
          )
          refl,
    )
