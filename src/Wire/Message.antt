-- ===== src/Wire/Message.antt =====
-- The decoding loop that every generated `Unmarshal` has (pointpay/x/pnp/types/*.pb.go): read a tag, test it,
-- dispatch on the field number, and skip what the message does not know.
pub mod Total
pub mod Fields
use pointpay_chain.Prelude.{
  ℕ, zero, suc, ◌+◌, ◌-◌, ◌/◌, ◌%◌, ◌^◌, bit_and, Bool, not, ◌||◌, ◌&&◌, List, [], ◌∷◌, Option,
  none, some, ltb, leb, ◌==◌, if◌then◌else◌, length, take, drop, ok, err, panic, stuck, ◌>>=◌, ◌>>◌,
  fail_if,
}
use pointpay_chain.Wire.Error.{
  PbFile, Message, Pb, invalid_length, unexpected_eof, end_group, illegal_tag, wrong_wire_type,
}
use pointpay_chain.Wire.Varint.{read_varint, is_negative}
use pointpay_chain.Wire.Skip.{add_int, beyond, skip_field}

-- A case of the switch: wire type, `l`, `iNdEx` and the bytes from there on; it gives the message
-- with the field set, and the new position.
abbrev pub Handler : Type 0 → Type 0
Handler M = ℕ → ℕ → ℕ → List ℕ → M → Pb (M × ℕ × List ℕ)

-- `switch fieldNum`; `none` is the default case.
abbrev pub Switch : Type 0 → Type 0
Switch M = ℕ → Option (Handler M)

-- `int32(wire >> 3)`, as a 32-bit pattern
abbrev pub field_number : ℕ → ℕ
field_number wire = wire / 2 ^ 3 % 2 ^ 32

-- `fieldNum <= 0` for an `int32`
abbrev pub not_positive : ℕ → Bool
not_positive n = n == 0 || leb (2 ^ 31) n

-- The wire type that a known field must have.
unfoldable pub expect_wire_type : Message → ℕ → ℕ → ℕ → Pb (Unit {0})
expect_wire_type msg number expected wire_type =
    fail_if (not (wire_type == expected)) (wrong_wire_type msg number wire_type)

-- `dAtA[start:post]`, of the bytes from `start` on; it panics if the bounds are out of order or range.
unfoldable pub slice : ℕ → ℕ → ℕ → List ℕ → Pb (List ℕ)
slice l start post bytes =
    if leb start post && leb post l then ok (take (post - start) bytes) else panic

-- A length and the slice `dAtA[iNdEx:postIndex]`, of a string or an embedded message.
pub read_slice : PbFile → ℕ → ℕ → List ℕ → Pb (List ℕ × ℕ × List ℕ)
read_slice file l index bytes = do
  (len, start, rest) ← read_varint file index bytes
  fail_if (is_negative len) (invalid_length file)
  fail_if (is_negative (add_int start len)) (invalid_length file)
  fail_if (beyond (add_int start len) l) unexpected_eof
  found ← slice l start (add_int start len) rest
  ok (found, add_int start len, drop (add_int start len - start) rest)

-- The default case of a decoder: from the length of the slice, `preIndex` and the bytes from there on.
abbrev pub Unknown : Type 0 → Type 0
Unknown M = ℕ → ℕ → List ℕ → M → Pb (M × ℕ × List ℕ)

-- The default case goes back to `preIndex`, that is to the bytes in front of the tag.
pub skip_unknown : {M : Type 0} → PbFile → Unknown M
skip_unknown file l pre_index from_pre m = do
  (index, rest) ← skip_field file l pre_index from_pre
  ok (m, index, rest)

-- The chosen case, or the default.
abbrev pub run_case : {M : Type 0} → Option (Handler M) → Pb (M × ℕ × List ℕ) → Handler M
run_case none default wt l index bytes m = default
run_case (some handler) default wt l index bytes m = handler wt l index bytes m

module _ {M : Type 0} (file : PbFile) (msg : Message) (switch : Switch M)
    (unknown : Unknown M) where
  -- `for iNdEx < l` and what follows it. A round reads a byte at least.
  unfoldable pub unmarshal_loop : ℕ → ℕ → ℕ → List ℕ → M → Pb M
  unmarshal_loop fuel l index [] m = if ltb l index then err unexpected_eof else ok m
  unmarshal_loop zero l index (b ∷ bs) m = stuck
  unmarshal_loop (suc fuel) l index (b ∷ bs) m = do
    (wire, index1, rest1) ← read_varint file index (b ∷ bs)
    fail_if (bit_and wire 0x7 == 4) (end_group msg)
    fail_if (not_positive (field_number wire)) (illegal_tag msg (field_number wire) wire)
    (m', index2, rest2) ←
        run_case (switch (field_number wire)) (unknown l index (b ∷ bs) m) (bit_and wire 0x7) l
          index1 rest1 m
    unmarshal_loop fuel l index2 rest2 m'

  -- `Unmarshal(dAtA)` into the message `m`. What it leaves in `m` on an error is not kept.
  unfoldable pub unmarshal : List ℕ → M → Pb M
  unmarshal dAtA m = unmarshal_loop (length dAtA) (length dAtA) 0 dAtA m
