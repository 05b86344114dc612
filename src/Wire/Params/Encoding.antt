-- ===== src/Wire/Params/Encoding.antt =====
-- What `Params.Marshal` writes.
use pointpay_chain.Prelude.{
  ℕ, suc, ◌-◌, ◌≤◌, ◌≡◌, ap, List, [], ◌∷◌, ◌++◌, ◌==◌, if◌then◌else◌, length, length-append, true,
  false, Bool-cases, inl, inr, ok, arith,
}
use pointpay_chain.Wire.Varint.{IsU64, encode_varint}
use pointpay_chain.Wire.Varint.Groups.{varint, sov-varint, length-groups}
use pointpay_chain.Wire.Buffer.{
  Writes, encode_varint-Encodes, marshal_sized-Writes, write_varint_field_end,
}
use pointpay_chain.Wire.Params.{Params, marshal_to_sized_buffer, size, marshal}

-- Proto3: a field with its default value is left out.
unfoldable pub encoding : Params → List ℕ
encoding m = if m.max_supply == 0 then [] else 0x8 ∷ varint m.max_supply

abbrev pub IsValid : Params → Type 0
IsValid m = IsU64 m.max_supply

pub size-encoding : (m : Params) → IsValid m → size m ≡ length (encoding m)
unfolding size encoding
size-encoding m u = ground (arith, sov-varint m.max_supply u)

writes_nothing :
    (m : Params) (front hole : List ℕ)
    → (m.max_supply == 0) ≡ true
    → length hole ≡ 0
    → marshal_to_sized_buffer m (front ++ hole) ≡ ok (front ++ [], 0)
unfolding marshal_to_sized_buffer
writes_nothing m front [] z e = rw z
writes_nothing m front (y ∷ hole) z e = absurd (omega arith)

writes_field :
    (m : Params) (front hole : List ℕ)
    → IsValid m
    → (m.max_supply == 0) ≡ false
    → length hole ≡ suc (length (varint m.max_supply))
    → marshal_to_sized_buffer m (front ++ hole)
      ≡ ok (front ++ (0x8 ∷ varint m.max_supply), suc (length (varint m.max_supply)))
unfolding marshal_to_sized_buffer
writes_field m front hole u z e =
    rw
      (
        z,
        write_varint_field_end encode_varint m.max_supply 0x8 front hole encode_varint-Encodes u e,
      )
      (ap (λ (t : ℕ). ok (front ++ (0x8 ∷ varint m.max_supply), t)) count)
  where
    count : length (front ++ hole) - length front ≡ suc (length (varint m.max_supply))
    count = omega (arith, length-append front hole)

pub marshal_to_sized_buffer-Writes :
    (m : Params) → IsValid m → Writes (marshal_to_sized_buffer m) (encoding m)
unfolding encoding
marshal_to_sized_buffer-Writes m u = elim (Bool-cases (m.max_supply == 0)) [
  | inl z ↦ rw z (λ front hole e. writes_nothing m front hole z e)
  | inr z ↦ rw z (λ front hole e. writes_field m front hole u z e)
]

-- `Marshal` returns the encoding of every valid message, with no panic and no byte left over.
pub marshal-encoding : (m : Params) → IsValid m → marshal m ≡ ok (encoding m)
unfolding marshal
marshal-encoding m u =
    marshal_sized-Writes (marshal_to_sized_buffer m) (encoding m) (size m)
      (marshal_to_sized_buffer-Writes m u) (size-encoding m u)

-- An encoded message has eleven bytes at most.
pub length-encoding : (m : Params) → length (encoding m) ≤ 11
unfolding encoding
length-encoding m = ground (arith, length-groups 9 m.max_supply)
