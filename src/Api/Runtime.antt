-- ===== src/Api/Runtime.antt =====
-- What the fast paths call of the package github.com/cosmos/cosmos-proto/runtime.
use pointpay_chain.Prelude.{ℕ, ◌^◌, ◌<◌, ◌≡◌, true, List, length, ok, returns}
use pointpay_chain.Wire.Error.{Pb}
use pointpay_chain.Wire.Varint.{IsU64}
use pointpay_chain.Wire.Varint.Groups.{varint}
use pointpay_chain.Wire.Buffer.{Encoder, Encodes}

-- `Sov` is the number of bytes of a varint, `EncodeVarint` writes one in front of an offset, and
-- `Skip` is the length of the field in front, at least one byte, or an error.
pub record Runtime : Type 0 where
  pub sov : ℕ → ℕ
  pub encode_varint : Encoder
  pub skip : List ℕ → Pb ℕ
  pub sov_bytes : (v : ℕ) → IsU64 v → sov v ≡ length (varint v)
  pub encodes : Encodes encode_varint
  pub skip_ends : (bytes : List ℕ) → length bytes < 2 ^ 63 → returns (skip bytes) ≡ true
  pub skip_moves :
      (bytes : List ℕ) (n : ℕ) → length bytes < 2 ^ 63 → skip bytes ≡ ok n → (0 < n) × (n < 2 ^ 63)
