-- ===== src/Wire/Skip/Total.antt =====
-- Skipping ends on every slice that Go can have.
use pointpay_chain.Prelude.{
  ℕ, zero, suc, ◌+◌, ◌^◌, ◌≤◌, ◌<◌, ◌≡◌, refl, bit_and, ◌||◌, List, [], ◌∷◌, Bool-cases, inl, inr,
  length, drop, true, returns, returns->>=, returns_guarded, arith,
}
use pointpay_chain.Wire.Error.{PbFile, invalid_length, unexpected_eof}
use pointpay_chain.Wire.Varint.{read_varint, is_negative}
use pointpay_chain.Wire.Varint.Decoding.{read_varint-returns}
use pointpay_chain.Wire.Skip.{
  add_int, before, beyond, skip_varint, skip_length, end_of_group, skip_value, skip_loop, skip,
  skip_field,
}
use pointpay_chain.Wire.Skip.Moves.{
  before-lt, bytes_from_lem, round_place, skip_value-ahead, skip_bounds, advance_lem,
}

skip_varint-returns :
    (file : PbFile) (shift index : ℕ) (bytes : List ℕ)
    → returns (skip_varint file shift index bytes) ≡ true
unfolding skip_varint
skip_varint-returns file shift index [] = ground arith
skip_varint-returns file shift index (b ∷ bs) =
    ground (arith, skip_varint-returns file (shift + 7) (index + 1) bs)

skip_length-returns :
    (file : PbFile) (index : ℕ) (bytes : List ℕ) → returns (skip_length file index bytes) ≡ true
unfolding skip_length
skip_length-returns file index bytes = ground (arith, read_varint-returns file bytes index)

skip_value-returns :
    (file : PbFile) (wt index : ℕ) (bytes : List ℕ) (depth : ℕ)
    → returns (skip_value file wt index bytes depth) ≡ true
unfolding skip_value end_of_group
skip_value-returns file wt index bytes zero =
    ground (arith, skip_varint-returns file 0 index bytes, skip_length-returns file index bytes)
skip_value-returns file wt index bytes (suc depth) =
    ground (arith, skip_varint-returns file 0 index bytes, skip_length-returns file index bytes)

skip_loop-returns :
    (file : PbFile) (dAtA : List ℕ) (fuel index depth : ℕ)
    → length dAtA < 2 ^ 63
    → index < 2 ^ 63
    → length dAtA ≤ index + fuel
    → returns (skip_loop file dAtA fuel index depth) ≡ true
unfolding skip_loop
skip_loop-returns file dAtA zero index depth small low h =
    elim (Bool-cases (before index (length dAtA))) [
      | inl b ↦ absurd (omega (arith, before-lt index (length dAtA) low b))
      | inr b ↦ rw b refl
    ]
skip_loop-returns file dAtA (suc fuel) index depth small low h =
    elim (Bool-cases (before index (length dAtA))) [
      | inr b ↦ rw b refl
      | inl b ↦
          let inside = before-lt index (length dAtA) low b in
          rw (b, bytes_from_lem dAtA index low)
            (returns->>= (read_varint file index (drop index dAtA)) _
              (read_varint-returns file (drop index dAtA) index)
              λ (wire, i1, r1) read.
                let (further, place) = round_place file dAtA index wire i1 r1 inside read in
                returns->>= (skip_value file (bit_and wire 0x7) i1 r1 depth) _
                  (skip_value-returns file (bit_and wire 0x7) i1 r1 depth)
                  λ (i2, depth') got.
                    let ahead =
                      skip_value-ahead file (bit_and wire 0x7) i1 r1 depth i2 depth' (omega arith)
                        got in
                    returns_guarded (is_negative i2) (invalid_length file) _ λ sign.
                      let low2 : i2 < 2 ^ 63 = ground arith in
                      ground (
                        arith,
                        skip_loop-returns file dAtA fuel i2 depth' small low2 (omega arith),
                      ))
    ]

-- Skipping a field returns a length or an error on every slice of less than 2 ^ 63 bytes: its loop
-- never runs out of fuel, and no read is at a negative index.
pub skip-returns :
    (file : PbFile) (dAtA : List ℕ) → length dAtA < 2 ^ 63 → returns (skip file dAtA) ≡ true
unfolding skip
skip-returns file dAtA small =
    skip_loop-returns file dAtA (length dAtA) 0 0 small (omega arith) (omega arith)

pub skip_field-returns :
    (file : PbFile) (l index : ℕ) (bytes : List ℕ)
    → index + length bytes ≡ l
    → l < 2 ^ 63
    → returns (skip_field file l index bytes) ≡ true
unfolding skip_field
skip_field-returns file l index bytes place small =
    returns->>= (skip file bytes) _ (skip-returns file bytes (omega arith)) λ n e.
      let (low, high) = skip_bounds file bytes n (omega arith) e in
      let sum : add_int index n ≡ index + n = omega arith in
      returns_guarded (is_negative n || is_negative (add_int index n)) (invalid_length file) _
        λ sign.
          let near : index + n < 2 ^ 63 = ground arith in
          returns_guarded (beyond (add_int index n) l) unexpected_eof _
            λ fits. rw (advance_lem index n bytes near) refl
