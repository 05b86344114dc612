-- ===== src/Wire/Embedded.antt =====
-- The field of type `Params` in `GenesisState`, `MsgUpdateParams` and `QueryParamsResponse`: a length
-- and an embedded message (pointpay/x/pnp/types/{genesis,tx,query}.pb.go).
pub mod Writing
pub mod Reading
pub mod Single
use pointpay_chain.Prelude.{ℕ, List, ok, ◌>>=◌, ◌>>◌}
use pointpay_chain.Wire.Error.{PbFile, Message, Pb}
use pointpay_chain.Wire.Varint.{encode_varint}
use pointpay_chain.Wire.Buffer.{marshal_before, write_varint_field}
use pointpay_chain.Wire.Message.{Handler, expect_wire_type, read_slice}
use pointpay_chain.Wire.Params.{Params, marshal_to_sized_buffer, unmarshal_params}

-- `size, err := m.Params.MarshalToSizedBuffer(dAtA[:i]); …; i = encodeVarint…(size); i--; dAtA[i] = tag`
pub write_params_field : Params → ℕ → List ℕ → ℕ → Pb (List ℕ × ℕ)
write_params_field params tag dAtA i = do
  (dAtA', i', size) ← marshal_before (marshal_to_sized_buffer params) dAtA i
  write_varint_field encode_varint dAtA' i' size tag

-- The case of the switch: the slice is decoded into the value that the field already has.
pub params_field : {M : Type 0} → PbFile → Message → ℕ → (M → Params) → (M → Params → M) → Handler M
params_field file msg number get set wire_type l index bytes m = do
  expect_wire_type msg number 2 wire_type
  (slice, index', rest) ← read_slice file l index bytes
  params ← unmarshal_params slice (get m)
  ok (set m params, index', rest)
