-- ===== src/Api/Frame.antt =====
-- What every `ProtoMethods` of the fast paths does around the fields of its message. A nil pointer is
-- `none`; a nil slice and an empty one are not told apart, since the code only appends and copies.
pub mod Writing
pub mod Reading
use pointpay_chain.Prelude.{
  ℕ, ◌+◌, Bool, ◌||◌, List, ◌++◌, Option, none, some, ltb, if◌then◌else◌, length, take, drop,
  replicate, ok, ◌>>=◌, ◌>>◌, fail_if,
}
use pointpay_chain.Wire.Error.{Message, Pb, runtime_pb, invalid_length, unexpected_eof}
use pointpay_chain.Wire.Varint.{is_negative}
use pointpay_chain.Wire.Skip.{add_int, beyond, advance}
use pointpay_chain.Wire.Message.{Switch, Unknown, slice, unmarshal}
use pointpay_chain.Wire.Buffer.{copy_before}

-- `size`: the fields, and the unknown fields as they are.
unfoldable pub size_of : {M : Type 0} → (M → ℕ) → (M → List ℕ) → Option M → ℕ
size_of fields unknown none = 0
size_of fields unknown (some x) = fields x + length (unknown x)

-- The unknown fields at the end of the buffer, and the fields in front of them.
unfoldable pub write_message :
    {M : Type 0}
    → (M → List ℕ → ℕ → Pb (List ℕ × ℕ))
    → (M → List ℕ)
    → M
    → List ℕ
    → ℕ
    → Pb (List ℕ × ℕ)
write_message fields unknown x dAtA i = do
  (dAtA', i') ← copy_before dAtA i (unknown x)
  fields x dAtA' i'

-- `marshal`, behind `input.Buf`; `options_size` is `options.Size` of the message itself.
unfoldable pub marshal_of :
    {M : Type 0}
    → (M → List ℕ → ℕ → Pb (List ℕ × ℕ))
    → (M → List ℕ)
    → (M → ℕ)
    → List ℕ
    → Option M
    → Pb (List ℕ)
unfolding write_message
marshal_of fields unknown options_size buf none = ok buf
marshal_of fields unknown options_size buf (some x) = do
  (dAtA, i) ← write_message fields unknown x (replicate (options_size x) 0) (options_size x)
  ok (buf ++ dAtA)

-- `if !options.DiscardUnknown { x.unknownFields = append(x.unknownFields, …) }`, with the slice.
unfoldable pub kept : {M : Type 0} → (M → List ℕ → M) → Bool → M → Pb (List ℕ) → Pb M
kept append discard m found = if discard then ok m else (do raw ← found; ok (append m raw))

-- The default case of the switch: the bytes of the field are kept, unless `DiscardUnknown` is set.
unfoldable pub keep_unknown : {M : Type 0} → (List ℕ → Pb ℕ) → (M → List ℕ → M) → Bool → Unknown M
keep_unknown skip append discard l pre_index from_pre m = do
  skippy ← skip from_pre
  fail_if (is_negative skippy || is_negative (add_int pre_index skippy)) (invalid_length runtime_pb)
  fail_if (beyond (add_int pre_index skippy) l) unexpected_eof
  m' ← kept append discard m (slice l pre_index (add_int pre_index skippy) from_pre)
  (index, rest) ← advance pre_index skippy from_pre
  ok (m', index, rest)

-- `unmarshal` of a message that is not nil.
abbrev pub decode : {M : Type 0} → Message → Switch M → Unknown M → List ℕ → M → Pb M
decode msg switch unknown dAtA x = unmarshal runtime_pb msg switch unknown dAtA x

-- `unmarshal`: nothing is read into a nil pointer.
unfoldable pub unmarshal_of : {M : Type 0} → (List ℕ → M → Pb M) → List ℕ → Option M → Pb (Option M)
unmarshal_of read dAtA none = ok none
unmarshal_of read dAtA (some x) = do x' ← read dAtA x; ok (some x')
