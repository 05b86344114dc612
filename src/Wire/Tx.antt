-- ===== src/Wire/Tx.antt =====
-- The generated codecs of `MsgUpdateParams` and `MsgUpdateParamsResponse` (pointpay/x/pnp/types/tx.pb.go).
-- A Go string is the list of its bytes.
pub mod Encoding
pub mod Decoding
use pointpay_chain.Prelude.{
  ℕ, ◌+◌, ◌-◌, List, [], Option, none, some, ◌==◌, if◌then◌else◌, ltb, length, ok, ◌>>=◌, ◌>>◌,
}
use pointpay_chain.Wire.Error.{tx_pb, msg_update_params_msg, msg_update_params_response_msg, Pb}
use pointpay_chain.Wire.Varint.{sov, encode_varint}
use pointpay_chain.Wire.Message.{
  Handler, Switch, skip_unknown, expect_wire_type, read_slice, unmarshal,
}
use pointpay_chain.Wire.Buffer.{write_varint_field, copy_before, marshal_sized}
use pointpay_chain.Wire.Params as ParamsPb
use pointpay_chain.Wire.Params.{Params, no_params}
use pointpay_chain.Wire.Embedded.{write_params_field, params_field}

pub record MsgUpdateParams : Type 0 where
  pub authority : List ℕ
  pub params : Params

abbrev pub no_msg : MsgUpdateParams
no_msg = record { authority = []; params = no_params }

-- `MsgUpdateParamsResponse` has no fields.
pub data MsgUpdateParamsResponse : Type 0 where
  response : MsgUpdateParamsResponse

-- The part of the body under `if len(m.Authority) > 0`.
pub write_authority : List ℕ → List ℕ → ℕ → Pb (List ℕ × ℕ)
write_authority authority dAtA i =
    let present = do
      (dAtA', i') ← copy_before dAtA i authority
      write_varint_field encode_varint dAtA' i' (length authority) 0xa
    in if ltb 0 (length authority) then present else ok (dAtA, i)

-- Both fields, the second one first, down from the offset `i`.
pub write_fields : MsgUpdateParams → List ℕ → ℕ → Pb (List ℕ × ℕ)
write_fields m dAtA i = do
  (dAtA', i') ← write_params_field m.params 0x12 dAtA i
  write_authority m.authority dAtA' i'

pub marshal_to_sized_buffer : MsgUpdateParams → List ℕ → Pb (List ℕ × ℕ)
marshal_to_sized_buffer m dAtA = do
  (dAtA', i) ← write_fields m dAtA (length dAtA)
  ok (dAtA', length dAtA - i)

pub size : MsgUpdateParams → ℕ
size m =
    (if ltb 0 (length m.authority) then 1 + length m.authority + sov (length m.authority) else 0)
    + (1 + ParamsPb.size m.params + sov (ParamsPb.size m.params))

pub marshal : MsgUpdateParams → Pb (List ℕ)
marshal m = marshal_sized (marshal_to_sized_buffer m) (size m)

-- `case 1`
pub authority_field : Handler MsgUpdateParams
authority_field wire_type l index bytes m = do
  expect_wire_type msg_update_params_msg 1 2 wire_type
  (slice, index', rest) ← read_slice tx_pb l index bytes
  ok (record m { authority = slice }, index', rest)

-- `case 2`
pub msg_params_field : Handler MsgUpdateParams
msg_params_field =
    params_field tx_pb msg_update_params_msg 2 (λ m. m.params) (λ m p. record m { params = p })

pub switch : Switch MsgUpdateParams
switch number =
    if number == 1
    then some authority_field
    else if number == 2
    then some msg_params_field
    else none

pub unmarshal_msg : List ℕ → MsgUpdateParams → Pb MsgUpdateParams
unmarshal_msg dAtA m = unmarshal tx_pb msg_update_params_msg switch (skip_unknown tx_pb) dAtA m

-- `MsgUpdateParamsResponse`: nothing is written, and every field is skipped.
pub marshal_response : MsgUpdateParamsResponse → Pb (List ℕ)
marshal_response m = marshal_sized (λ dAtA. ok (dAtA, 0)) 0

pub response_switch : Switch MsgUpdateParamsResponse
response_switch number = none

pub unmarshal_response : List ℕ → MsgUpdateParamsResponse → Pb MsgUpdateParamsResponse
unmarshal_response dAtA m =
    unmarshal tx_pb msg_update_params_response_msg response_switch (skip_unknown tx_pb) dAtA m
