-- ===== src/Wire/Varint/Encoding.antt =====
-- What `encodeVarint*` writes: the groups of the number, right before the given offset, and no
-- other byte of the buffer changes.
use mathlib.Core.List.{append_assoc}
use native.Mathlib.Nat.{pow-suc}
use pointpay_chain.Prelude.{
  ℕ, zero, suc, ◌+◌, ◌-◌, ◌/◌, ◌%◌, ◌^◌, ◌≤◌, ◌<◌, ◌≡◌, sym, ap, ◌∙◌, bit_and, bit_or, List, [],
  ◌∷◌, ◌++◌, length, length-append, set-length-append, lt→ltb, le→ltb-false, lt→leb-false, le→leb,
  ltb, ltb→lt, ltb-false→le, Bool-cases, inl, inr, ok, arith,
}
use pointpay_chain.Prelude.Bits.{bit_and_low_seven, bit_or_top_bit}
use pointpay_chain.Wire.Varint.{IsU64, sov, write, encode_loop, encode_varint}
use pointpay_chain.Wire.Varint.Groups.{
  groups, varint, length-groups, groups_small, groups_large, sov-varint,
}

pub write-append :
    (front : List ℕ) (y b : ℕ) (tail : List ℕ)
    → write (front ++ (y ∷ tail)) (length front) b ≡ ok (front ++ (b ∷ tail))
unfolding write
write-append front y b tail =
    rw
      (lt→ltb (length front) (length (front ++ (y ∷ tail)))
        (omega (arith, length-append front (y ∷ tail))))
      (ap ok (set-length-append front tail y b))

inner_byte : (v : ℕ) → bit_or (bit_and v 0x7f) 0x80 % 256 ≡ v % 128 + 128
inner_byte v = omega (
  arith,
  bit_and_low_seven v,
  ap (λ (t : ℕ). bit_or t 0x80) (bit_and_low_seven v),
  bit_or_top_bit (v % 128) (omega arith),
)

-- The byte just written joins the front.
extend : (front back : List ℕ) (b : ℕ) → front ++ (b ∷ back) ≡ (front ++ (b ∷ [])) ++ back
extend front back b = sym (append_assoc front (b ∷ []) back)

length-extend : (front : List ℕ) (b : ℕ) → length front + 1 ≡ length (front ++ (b ∷ []))
length-extend front b = omega (arith, length-append front (b ∷ []))

last_byte :
    (v : ℕ) (front : List ℕ) (y : ℕ) (back : List ℕ)
    → v < 128
    → write (front ++ (y ∷ back)) (length front) (v % 256) ≡ ok (front ++ (v ∷ back))
last_byte v front y back h =
    write-append front y (v % 256) back ∙ ap (λ (t : ℕ). ok (front ++ (t ∷ back))) same
  where
    same : v % 256 ≡ v
    same = omega arith

encode_loop_small :
    (k v offset : ℕ) (dAtA : List ℕ)
    → v < 128
    → encode_loop k dAtA offset v ≡ write dAtA offset (v % 256)
unfolding encode_loop
encode_loop_small zero v offset dAtA h = rw (lt→leb-false v 128 h)
encode_loop_small (suc k) v offset dAtA h = rw (lt→leb-false v 128 h)

encode_loop_large :
    (k v : ℕ) (front : List ℕ) (y : ℕ) (back : List ℕ)
    → 128 ≤ v
    → encode_loop (suc k) (front ++ (y ∷ back)) (length front) v
      ≡ encode_loop k (front ++ ((v % 128 + 128) ∷ back)) (length front + 1) (v / 128)
unfolding encode_loop
encode_loop_large k v front y back h =
    rw (le→leb 128 v h, inner_byte v, write-append front y (v % 128 + 128) back)

encode_loop_done :
    (k v : ℕ) (front hole back : List ℕ)
    → v < 128
    → length hole ≡ length (groups k v)
    → encode_loop k (front ++ (hole ++ back)) (length front) v ≡ ok (front ++ (groups k v ++ back))
encode_loop_done k v front [] back h e = absurd (omega (arith, length-groups k v))
encode_loop_done k v front (y ∷ []) back h e =
    rw (groups_small k v h) (encode_loop_small k v (length front) _ h ∙ last_byte v front y back h)
encode_loop_done k v front (y ∷ (z ∷ hole)) back h e =
    absurd (omega (arith, ap (λ (t : List ℕ). length t) (groups_small k v h)))

-- The loop fills a hole of the right length with the groups.
encode_loop-groups :
    (k v : ℕ) (front hole back : List ℕ)
    → v < 128 ^ suc k
    → length hole ≡ length (groups k v)
    → encode_loop k (front ++ (hole ++ back)) (length front) v ≡ ok (front ++ (groups k v ++ back))
encode_loop-groups zero v front hole back h e =
    encode_loop_done zero v front hole back (omega arith) e
encode_loop-groups (suc k) v front [] back h e = absurd (omega (arith, length-groups (suc k) v))
encode_loop-groups (suc k) v front (y ∷ hole) back h e = elim (Bool-cases (ltb v 128)) [
  | inl small ↦ encode_loop_done (suc k) v front (y ∷ hole) back (ltb→lt v 128 small) e
  | inr large ↦
      let big : 128 ≤ v = ltb-false→le v 128 large in
      rw (groups_large k v big) (
        encode_loop_large k v front y (hole ++ back) big
        ∙ rw (extend front (hole ++ back) (v % 128 + 128), length-extend front (v % 128 + 128))
            (encode_loop-groups k (v / 128) (front ++ ((v % 128 + 128) ∷ [])) hole back
              (omega (arith, pow-suc 128 (suc k)))
              (omega (arith, ap (λ (t : List ℕ). length t) (groups_large k v big))))
        ∙ ap ok (sym (extend front (groups k (v / 128) ++ back) (v % 128 + 128))))
]

-- `encodeVarint*` writes the varint of a uint64 `v` into the bytes right before `offset`, returns where it
-- begins, and leaves every other byte of the buffer alone.
pub encode_varint-varint :
    (v : ℕ) (front hole back : List ℕ)
    → IsU64 v
    → length hole ≡ sov v
    → encode_varint (front ++ (hole ++ back)) (length front + length hole) v
      ≡ ok (front ++ (varint v ++ back), length front)
unfolding encode_varint
encode_varint-varint v front hole back u e = rw (
  le→ltb-false (length front + length hole) (sov v) (omega arith),
  offset,
  encode_loop-groups 9 v front hole back (omega arith) (e ∙ sov-varint v u),
)
  where
    offset : length front + length hole - sov v ≡ length front
    offset = omega arith
