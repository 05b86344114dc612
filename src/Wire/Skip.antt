-- ===== src/Wire/Skip.antt =====
-- `skipParams` and its copies `skipGenesis`, `skipTx` and `skipQuery`, and the default case of the
-- decoders, which skips a field that the message does not know (pointpay/x/pnp/types/params.pb.go).
-- `iNdEx` is a 64-bit pattern here, since the code adds lengths to it before it tests the sign.
pub mod Total
pub mod Moves
use pointpay_chain.Prelude.{
  ℕ, zero, suc, ◌+◌, ◌-◌, ◌%◌, ◌^◌, bit_and, List, [], ◌∷◌, Bool, not, ◌||◌, ◌&&◌, ltb, leb, ◌==◌,
  if◌then◌else◌, length, drop, ok, err, panic, stuck, ◌>>=◌, ◌>>◌, fail_if,
}
use pointpay_chain.Wire.Error.{
  PbFile, Pb, int_overflow, invalid_length, unexpected_end_of_group, unexpected_eof,
  illegal_wire_type,
}
use pointpay_chain.Wire.Varint.{read_varint, is_negative}

-- `iNdEx += n` on an `int`
abbrev pub add_int : ℕ → ℕ → ℕ
add_int a b = (a + b) % 2 ^ 64

-- `a < l` and `a > l` of `int`s, where `l` is the length of a slice
abbrev pub before : ℕ → ℕ → Bool
before a l = is_negative a || ltb a l

abbrev pub beyond : ℕ → ℕ → Bool
beyond a l = not (is_negative a) && ltb l a

-- Wire type 0: the bytes of a varint are passed over, and its value is not read.
unfoldable pub skip_varint : PbFile → ℕ → ℕ → List ℕ → Pb (ℕ × List ℕ)
skip_varint file shift index [] =
    if leb 64 shift then err (int_overflow file) else err unexpected_eof
skip_varint file shift index (b ∷ rest) =
    let more = skip_varint file (shift + 7) (index + 1) rest in
    if leb 64 shift
    then err (int_overflow file)
    else if ltb b 0x80
    then ok (index + 1, rest)
    else more

-- Wire type 2: a length, by which `iNdEx` moves on.
unfoldable pub skip_length : PbFile → ℕ → List ℕ → Pb ℕ
skip_length file index bytes = do
  (len, index', rest) ← read_varint file index bytes
  fail_if (is_negative len) (invalid_length file)
  ok (add_int index' len)

-- Wire type 4 closes a group, if one is open.
unfoldable pub end_of_group : PbFile → ℕ → Pb ℕ
end_of_group file zero = err (unexpected_end_of_group file)
end_of_group file (suc depth) = ok depth

-- `switch wireType`: the new `iNdEx` and the new depth.
unfoldable pub skip_value : PbFile → ℕ → ℕ → List ℕ → ℕ → Pb (ℕ × ℕ)
skip_value file wire_type index bytes depth =
    if wire_type == 0
    then (do (index', rest) ← skip_varint file 0 index bytes; ok (index', depth))
    else if wire_type == 1
    then ok (add_int index 8, depth)
    else if wire_type == 2
    then (do index' ← skip_length file index bytes; ok (index', depth))
    else if wire_type == 3
    then ok (index, depth + 1)
    else if wire_type == 4
    then (do depth' ← end_of_group file depth; ok (index, depth'))
    else if wire_type == 5
    then ok (add_int index 4, depth)
    else err (illegal_wire_type wire_type)

-- The bytes of the slice from `iNdEx` on, to read the first of them: at a negative index that panics.
unfoldable pub bytes_from : List ℕ → ℕ → Pb (List ℕ)
bytes_from dAtA index = if is_negative index then panic else ok (drop index dAtA)

-- `for iNdEx < l`. A round moves ahead, so the slice's length is enough fuel.
unfoldable pub skip_loop : PbFile → List ℕ → ℕ → ℕ → ℕ → Pb ℕ
skip_loop file dAtA zero index depth =
    if before index (length dAtA) then stuck else err unexpected_eof
skip_loop file dAtA (suc fuel) index depth =
    let round = do
      bytes ← bytes_from dAtA index
      (wire, index1, rest1) ← read_varint file index bytes
      (index2, depth') ← skip_value file (bit_and wire 0x7) index1 rest1 depth
      fail_if (is_negative index2) (invalid_length file)
      let more = skip_loop file dAtA fuel index2 depth'
      if depth' == 0 then ok index2 else more
    in if before index (length dAtA) then round else err unexpected_eof

unfoldable pub skip : PbFile → List ℕ → Pb ℕ
skip file dAtA = skip_loop file dAtA (length dAtA) 0 0

-- `iNdEx += skippy` and the bytes from there on. The decoder's next read at a negative `iNdEx` panics; a
-- step back, to bytes that were read before, is `stuck`.
unfoldable pub advance : ℕ → ℕ → List ℕ → Pb (ℕ × List ℕ)
advance index skippy bytes =
    if is_negative (add_int index skippy)
    then panic
    else if is_negative skippy
    then stuck
    else ok (add_int index skippy, drop skippy bytes)

-- The default case: `l` is the length of the whole slice, and `bytes` are those from `index` on.
pub skip_field : PbFile → ℕ → ℕ → List ℕ → Pb (ℕ × List ℕ)
skip_field file l index bytes = do
  skippy ← skip file bytes
  fail_if (is_negative skippy || is_negative (add_int index skippy)) (invalid_length file)
  fail_if (beyond (add_int index skippy) l) unexpected_eof
  advance index skippy bytes
