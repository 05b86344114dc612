-- ===== src/Wire/Varint.antt =====
-- The varint routines that each generated file repeats: the decoding loop over
-- `for shift := uint(0); ; shift += 7`, `sov*` and `encodeVarint*` (pointpay/x/pnp/types/params.pb.go).
-- A slice is the list of its bytes. A decoder's position is `iNdEx` with the bytes from there on, so
-- `iNdEx >= l` is the empty list, if `iNdEx` is not negative. An `int` or `uint64` is its 64-bit pattern, negative from 2 ^ 63.
pub mod Groups
pub mod Encoding
pub mod Decoding
use pointpay_chain.Prelude.{
  ℕ, zero, suc, ◌+◌, ◌-◌, ◌*◌, ◌/◌, ◌%◌, ◌^◌, ◌<◌, bit_and, bit_or, Bool, true, false, List, [],
  ◌∷◌, ltb, leb, ◌==◌, if◌then◌else◌, length, set, ok, err, panic, stuck, ◌>>=◌,
}
use pointpay_chain.Wire.Error.{PbFile, int_overflow, unexpected_eof, Pb}

abbrev pub IsU64 : ℕ → Type 0
IsU64 v = v < 2 ^ 64

abbrev pub IsByte : ℕ → Type 0
IsByte b = b < 256

-- `x < 0` for an `int`
abbrev pub is_negative : ℕ → Bool
is_negative x = leb (2 ^ 63) x

-- `wire |= uint64(b&0x7F) << shift`
abbrev pub add_group : ℕ → ℕ → ℕ → ℕ
add_group acc b shift = bit_or acc (bit_and b 0x7f * 2 ^ shift % 2 ^ 64)

-- The loop from `shift` on: the value, the new `iNdEx` and the bytes behind it.
unfoldable pub varint_loop : PbFile → ℕ → ℕ → ℕ → List ℕ → Pb (ℕ × ℕ × List ℕ)
varint_loop file shift acc index [] =
    if leb 64 shift then err (int_overflow file) else err unexpected_eof
varint_loop file shift acc index (b ∷ rest) =
    let more = varint_loop file (shift + 7) (add_group acc b shift) (index + 1) rest in
    if leb 64 shift
    then err (int_overflow file)
    else if ltb b 0x80
    then ok (add_group acc b shift, index + 1, rest)
    else more

unfoldable pub read_varint : PbFile → ℕ → List ℕ → Pb (ℕ × ℕ × List ℕ)
read_varint file index bytes = varint_loop file 0 0 index bytes

-- `math_bits.Len64`: the number of bits of `x`, 0 for 0.
unfoldable pub bit_len : ℕ → ℕ → ℕ
bit_len zero x = 0
bit_len (suc fuel) x = let rest = bit_len fuel (x / 2) in if x == 0 then 0 else rest + 1

unfoldable pub len64 : ℕ → ℕ
unfolding bit_len
len64 x = bit_len 64 x

-- `sovParams`, `sovGenesis`, `sovTx` and `sovQuery`
unfoldable pub sov : ℕ → ℕ
sov x = (len64 (bit_or x 1) + 6) / 7

-- `dAtA[i] = b`, which panics out of range.
pub write : List ℕ → ℕ → ℕ → Pb (List ℕ)
write dAtA i b = if ltb i (length dAtA) then ok (set dAtA i b) else panic

-- `for v >= 1<<7 { … }` and the last write, on fuel: a uint64 takes at most nine rounds.
encode_loop : ℕ → List ℕ → ℕ → ℕ → Pb (List ℕ)
encode_loop zero dAtA offset v = if leb (2 ^ 7) v then stuck else write dAtA offset (v % 256)
encode_loop (suc fuel) dAtA offset v =
    let round = do
      dAtA' ← write dAtA offset (bit_or (bit_and v 0x7f) 0x80 % 256)
      encode_loop fuel dAtA' (offset + 1) (v / 2 ^ 7)
    in if leb (2 ^ 7) v then round else write dAtA offset (v % 256)

-- `encodeVarintParams` and its copies: the buffer and the new offset. A negative offset panics at
-- the first write, which is always made.
pub encode_varint : List ℕ → ℕ → ℕ → Pb (List ℕ × ℕ)
encode_varint dAtA offset v =
    if ltb offset (sov v)
    then panic
    else do dAtA' ← encode_loop 9 dAtA (offset - sov v) v; ok (dAtA', offset - sov v)
