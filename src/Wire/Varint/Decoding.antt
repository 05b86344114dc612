-- ===== src/Wire/Varint/Decoding.antt =====
-- What the decoding loop reads: the number that the encoder wrote, and on any input a uint64 out of
-- the next ten bytes, or one of two errors.
use native.Mathlib.Nat.{mod-eq_of_lt, pow-suc, mul-le-mul_right}
use native.Mathlib.Numerals.{towards_suc}
use pointpay_chain.Prelude.{
  ℕ, zero, suc, ◌+◌, ◌-◌, ◌*◌, ◌/◌, ◌%◌, ◌^◌, ◌≤◌, ◌<◌, ◌≡◌, ap, ◌∙◌, bit_and, List, [], ◌∷◌, ◌++◌,
  length, drop, drop_later, ltb, ltb→lt, ltb-false→le, lt→ltb, le→ltb-false, lt→leb-false,
  Bool-cases, true, inl, inr, ok, returns, arith,
}
use pointpay_chain.Prelude.Bits.{bit_and_low_seven, bit_or-shifted, bit_or_lt}
use pointpay_chain.Wire.Error.{PbFile, Pb}
use pointpay_chain.Wire.Varint.{IsU64, add_group, varint_loop, read_varint}
use pointpay_chain.Wire.Varint.Groups.{groups, varint, groups_small, groups_large}

add_group-sum :
    (acc b shift : ℕ)
    → acc < 2 ^ shift
    → b % 128 * 2 ^ shift < 2 ^ 64
    → add_group acc b shift ≡ acc + b % 128 * 2 ^ shift
add_group-sum acc b shift ha hb =
    rw (bit_and_low_seven b, mod-eq_of_lt hb) (bit_or-shifted shift acc (b % 128) ha)

pub add_group-IsU64 : (acc b shift : ℕ) → IsU64 acc → IsU64 (add_group acc b shift)
add_group-IsU64 acc b shift h =
    bit_or_lt 64 acc (bit_and b 0x7f * 2 ^ shift % 2 ^ 64) h (omega arith)

seven_more : (s : ℕ) → 2 ^ (s + 7) ≡ 128 * 2 ^ s
seven_more s = simp towards_suc (omega arith)

-- The low group of `w` and the rest, both counted from bit `s`.
split_low : (w s : ℕ) → w * 2 ^ s ≡ w % 128 * 2 ^ s + w / 128 * 2 ^ (s + 7)
split_low w s = rw seven_more (omega (arith, ap (λ (t : ℕ). t * 2 ^ s) whole))
  where
    whole : w ≡ w % 128 + w / 128 * 128
    whole = omega arith

loop_last :
    (file : PbFile) (b acc shift index : ℕ) (rest : List ℕ)
    → b < 128
    → shift < 64
    → varint_loop file shift acc index (b ∷ rest) ≡ ok (add_group acc b shift, index + 1, rest)
unfolding varint_loop
loop_last file b acc shift index rest hb hs = rw (lt→leb-false shift 64 hs, lt→ltb b 0x80 hb)

loop_more :
    (file : PbFile) (b acc shift index : ℕ) (rest : List ℕ)
    → 128 ≤ b
    → shift < 64
    → varint_loop file shift acc index (b ∷ rest)
      ≡ varint_loop file (shift + 7) (add_group acc b shift) (index + 1) rest
unfolding varint_loop
loop_more file b acc shift index rest hb hs = rw (lt→leb-false shift 64 hs, le→ltb-false b 0x80 hb)

small-varint_loop :
    (file : PbFile) (k w acc shift index : ℕ) (rest : List ℕ)
    → w < 128
    → acc < 2 ^ shift
    → shift < 64
    → IsU64 (acc + w * 2 ^ shift)
    → varint_loop file shift acc index (groups k w ++ rest)
      ≡ ok (acc + w * 2 ^ shift, index + length (groups k w), rest)
small-varint_loop file k w acc shift index rest hw ha hs u =
    rw (groups_small k w hw)
      (loop_last file w acc shift index rest hw hs ∙ ap (λ (t : ℕ). ok (t, index + 1, rest)) same)
  where
    low : w % 128 ≡ w
    low = omega arith

    same : add_group acc w shift ≡ acc + w * 2 ^ shift
    same = add_group-sum acc w shift ha (rw low (omega arith)) ∙ rw low

ok_eq :
    {a a' i i' : ℕ} (rest : List ℕ)
    → a ≡ a'
    → i ≡ i'
    → ◌≡◌ {A = Pb (ℕ × ℕ × List ℕ)} (ok (a, i, rest)) (ok (a', i', rest))
ok_eq rest p q = cc

-- `w` is what is still to be read, counted from bit `shift` on.
varint_loop-groups :
    (file : PbFile) (k w acc shift index : ℕ) (rest : List ℕ)
    → w < 128 ^ suc k
    → acc < 2 ^ shift
    → shift + 7 * k < 64
    → IsU64 (acc + w * 2 ^ shift)
    → varint_loop file shift acc index (groups k w ++ rest)
      ≡ ok (acc + w * 2 ^ shift, index + length (groups k w), rest)
varint_loop-groups file zero w acc shift index rest hw ha hs u =
    small-varint_loop file zero w acc shift index rest (omega arith) ha (omega arith) u
varint_loop-groups file (suc k) w acc shift index rest hw ha hs u = elim (Bool-cases (ltb w 128)) [
  | inl small ↦
      small-varint_loop file (suc k) w acc shift index rest (ltb→lt w 128 small) ha (omega arith) u
  | inr large ↦
      let big : 128 ≤ w = ltb-false→le w 128 large in
      rw (groups_large k w big) (
        loop_more file (w % 128 + 128) acc shift index (groups k (w / 128) ++ rest) (omega arith)
          (omega arith)
        ∙ ap (λ (t : ℕ). varint_loop file (shift + 7) t (index + 1) (groups k (w / 128) ++ rest))
            (group_sum big)
        ∙ varint_loop-groups file k (w / 128) (acc + w % 128 * 2 ^ shift) (shift + 7) (index + 1)
            rest (omega (arith, pow-suc 128 (suc k))) (omega (arith, seven_more shift, bound))
            (omega arith) (omega (arith, split_low w shift))
        ∙ ok_eq rest (omega (arith, split_low w shift)) (omega arith))
]
  where
    low : (w % 128 + 128) % 128 ≡ w % 128
    low = omega arith

    bound : w % 128 * 2 ^ shift ≤ 127 * 2 ^ shift
    bound = mul-le-mul_right (2 ^ shift) (omega arith)

    group_sum : 128 ≤ w → add_group acc (w % 128 + 128) shift ≡ acc + w % 128 * 2 ^ shift
    group_sum big =
        add_group-sum acc (w % 128 + 128) shift ha (rw low (omega (arith, split_low w shift)))
        ∙ rw low

-- Reading back: from any position, the decoder returns the uint64 whose varint stands there, moves
-- past its bytes, and leaves what follows.
pub read_varint-varint :
    (file : PbFile) (v index : ℕ) (rest : List ℕ)
    → IsU64 v
    → read_varint file index (varint v ++ rest) ≡ ok (v, index + length (varint v), rest)
unfolding read_varint
read_varint-varint file v index rest u =
    varint_loop-groups file 9 v 0 0 index rest (omega arith) (omega arith) (omega arith)
      (omega arith)
    ∙ ap (λ (t : ℕ). ok (t, index + length (varint v), rest)) (omega arith)

-- What a read from `index` over `bytes` may return.
pub record Takes (index : ℕ) (bytes : List ℕ) (v index' : ℕ) (rest : List ℕ) : Type 0 where
  pub in_range : IsU64 v
  pub moves : index < index'
  pub keeps : index' + length rest ≡ index + length bytes
  pub suffix : rest ≡ drop (index' - index) bytes

varint_loop-Takes :
    (file : PbFile) (bytes : List ℕ) (shift acc index v index' : ℕ) (rest : List ℕ)
    → IsU64 acc
    → varint_loop file shift acc index bytes ≡ ok (v, index', rest)
    → Takes index bytes v index' rest × (shift + 7 * (index' - index) ≤ 70)
unfolding varint_loop
varint_loop-Takes file [] shift acc index v index' rest u e = ground arith
varint_loop-Takes file (b ∷ bs) shift acc index v index' rest u e = ground (
  arith,
  add_group-IsU64 acc b shift u,
  drop_later index index' b bs,
  varint_loop-Takes file bs (shift + 7) (add_group acc b shift) (index + 1) v index' rest,
)

varint_loop-returns :
    (file : PbFile) (bytes : List ℕ) (shift acc index : ℕ)
    → returns (varint_loop file shift acc index bytes) ≡ true
unfolding varint_loop
varint_loop-returns file [] shift acc index = ground arith
varint_loop-returns file (b ∷ bs) shift acc index =
    ground (arith, varint_loop-returns file bs (shift + 7) (add_group acc b shift) (index + 1))

-- On any bytes a read returns a uint64, moves past at least one and at most ten bytes, and leaves
-- the bytes behind those.
pub read_varint-Takes :
    (file : PbFile) (bytes : List ℕ) (index v index' : ℕ) (rest : List ℕ)
    → read_varint file index bytes ≡ ok (v, index', rest)
    → Takes index bytes v index' rest × (index' ≤ index + 10)
unfolding read_varint
read_varint-Takes file bytes index v index' rest e =
    let (t, near) = varint_loop-Takes file bytes 0 0 index v index' rest (omega arith) e in
    (t, omega arith)

-- A read ends with a value or an error, and never panics.
pub read_varint-returns :
    (file : PbFile) (bytes : List ℕ) (index : ℕ) → returns (read_varint file index bytes) ≡ true
unfolding read_varint
read_varint-returns file bytes index = varint_loop-returns file bytes 0 0 index
