-- ===== src/Wire/Params.antt =====
-- The generated codec of `Params` (pointpay/x/pnp/types/params.pb.go).
pub mod Encoding
pub mod Decoding
use pointpay_chain.Prelude.{
  ℕ, ◌+◌, ◌-◌, Bool, true, false, List, Option, none, some, ◌==◌, if◌then◌else◌, length, ok, ◌>>=◌,
  ◌>>◌,
}
use pointpay_chain.Wire.Error.{params_pb, params_msg, Pb}
use pointpay_chain.Wire.Varint.{sov, encode_varint, read_varint}
use pointpay_chain.Wire.Message.{Handler, Switch, skip_unknown, expect_wire_type, unmarshal}
use pointpay_chain.Wire.Buffer.{write_varint_field, marshal_sized}

-- `MaxSupply` is a uint64.
pub record Params : Type 0 where
  pub max_supply : ℕ

-- `Params{}`
abbrev pub no_params : Params
no_params = record { max_supply = 0 }

-- `(*Params).Equal` between two values.
pub equal : Params → Params → Bool
equal this that = this.max_supply == that.max_supply

-- `MarshalToSizedBuffer`: the buffer and the number of bytes written at its end.
pub marshal_to_sized_buffer : Params → List ℕ → Pb (List ℕ × ℕ)
marshal_to_sized_buffer m dAtA = if m.max_supply == 0 then ok (dAtA, 0) else do
  (dAtA', i) ← write_varint_field encode_varint dAtA (length dAtA) m.max_supply 0x8
  ok (dAtA', length dAtA - i)

pub size : Params → ℕ
size m = if m.max_supply == 0 then 0 else 1 + sov m.max_supply

pub marshal : Params → Pb (List ℕ)
marshal m = marshal_sized (marshal_to_sized_buffer m) (size m)

-- `case 1`
unfoldable pub max_supply_field : Handler Params
max_supply_field wire_type l index bytes m = do
  expect_wire_type params_msg 1 0 wire_type
  (v, index', rest) ← read_varint params_pb index bytes
  ok (record m { max_supply = v }, index', rest)

unfoldable pub switch : Switch Params
switch number = if number == 1 then some max_supply_field else none

unfoldable pub unmarshal_params : List ℕ → Params → Pb Params
unmarshal_params dAtA m = unmarshal params_pb params_msg switch (skip_unknown params_pb) dAtA m
