-- ===== src/Wire/Tests.antt =====
-- Runs of the generated codec, and its theorems at concrete inputs.
use pointpay_chain.Prelude.{
  ℕ, ◌+◌, ◌^◌, ◌<◌, ◌≤◌, ◌≡◌, refl, true, List, [], ◌∷◌, ◌++◌, length, ok, returns, arith, ◌>>=◌,
}
use pointpay_chain.Prelude.Text.{codes}
use pointpay_chain.Wire.Error.{params_pb}
use pointpay_chain.Wire.Varint.{read_varint, varint_loop, sov, len64, bit_len, encode_varint}
use pointpay_chain.Wire.Varint.Groups.{varint, groups, sov-varint}
use pointpay_chain.Wire.Varint.Encoding.{encode_varint-varint}
use pointpay_chain.Wire.Varint.Decoding.{Takes, read_varint-varint, read_varint-Takes}
use pointpay_chain.Wire.Skip.{
  bytes_from, skip, skip_loop, skip_value, skip_varint, skip_length, end_of_group,
}
use pointpay_chain.Wire.Message.{unmarshal, unmarshal_loop, expect_wire_type}
use pointpay_chain.Wire.Skip.Total.{skip-returns}
use pointpay_chain.Wire.Skip.Moves.{skip_bounds}
use pointpay_chain.Wire.Params.{Params, no_params, unmarshal_params, switch, max_supply_field}
use pointpay_chain.Wire.Params as ParamsPb
use pointpay_chain.Wire.Params.Encoding.{IsValid, encoding}
use pointpay_chain.Wire.Embedded.Writing.{field_bytes}
use pointpay_chain.Wire.Params.Decoding.{
  unmarshal_params-returns, unmarshal_params-IsValid, unmarshal_params-marshal,
}
use pointpay_chain.Wire.Genesis.{GenesisState, no_genesis, unmarshal_genesis}
use pointpay_chain.Wire.Genesis as GenesisPb
use pointpay_chain.Wire.Genesis.RoundTrip.{unmarshal_genesis-returns, unmarshal_genesis-marshal}
use pointpay_chain.Wire.Tx.{MsgUpdateParams, no_msg, unmarshal_msg}
use pointpay_chain.Wire.Tx as TxPb
use pointpay_chain.Wire.Tx.Encoding.{authority_bytes}
use pointpay_chain.Wire.Tx.Decoding.{unmarshal_msg-returns, unmarshal_msg-marshal}
use pointpay_chain.Wire.Query.{QueryParamsResponse, no_response, unmarshal_response}
use pointpay_chain.Wire.Query as QueryPb
use pointpay_chain.Wire.Query.RoundTrip.{unmarshal_response-returns, unmarshal_response-marshal}

abbrev some_params : Params
some_params = record { max_supply = 300 }

abbrev some_msg : MsgUpdateParams
some_msg = record { authority = codes "gov"; params = some_params }

-- The fields of `some_params`, with an unknown field in front.
abbrev some_bytes : List ℕ
some_bytes = 0x10 ∷ 0x01 ∷ 0x08 ∷ 0xac ∷ 0x02 ∷ []

sov-varint_example : sov 300 ≡ length (varint 300)
sov-varint_example = sov-varint 300 (omega arith)

encode_varint-varint_example :
    encode_varint
      ((9 ∷ []) ++ ((0 ∷ 0 ∷ []) ++ (7 ∷ [])))
      (length {A = ℕ} (9 ∷ []) + length {A = ℕ} (0 ∷ 0 ∷ []))
      300
    ≡ ok ((9 ∷ []) ++ (varint 300 ++ (7 ∷ [])), length {A = ℕ} (9 ∷ []))
unfolding sov len64 bit_len
encode_varint-varint_example =
    encode_varint-varint 300 (9 ∷ []) (0 ∷ 0 ∷ []) (7 ∷ []) (omega arith) refl

read_varint-varint_example :
    read_varint params_pb 4 (varint 300 ++ (7 ∷ [])) ≡ ok (300, 4 + length (varint 300), 7 ∷ [])
read_varint-varint_example = read_varint-varint params_pb 300 4 (7 ∷ []) (omega arith)

read_varint-Takes_example : Takes 1 (0xac ∷ 0x02 ∷ 7 ∷ []) 300 3 (7 ∷ []) × (3 ≤ 11)
unfolding read_varint varint_loop
read_varint-Takes_example = read_varint-Takes params_pb (0xac ∷ 0x02 ∷ 7 ∷ []) 1 300 3 (7 ∷ []) refl

skip-returns_example : returns (skip params_pb some_bytes) ≡ true
skip-returns_example = skip-returns params_pb some_bytes (omega arith)

skip_bounds_example : (0 < 2) × (2 < 2 ^ 63)
unfolding skip skip_loop bytes_from skip_value skip_varint skip_length end_of_group read_varint
    varint_loop
skip_bounds_example = skip_bounds params_pb some_bytes 2 (omega arith) refl

unmarshal_params-returns_example : returns (unmarshal_params some_bytes no_params) ≡ true
unmarshal_params-returns_example = unmarshal_params-returns some_bytes no_params (omega arith)

unmarshal_params-IsValid_example : IsValid some_params
unfolding unmarshal_params unmarshal unmarshal_loop switch max_supply_field expect_wire_type
    read_varint varint_loop
unmarshal_params-IsValid_example =
    unmarshal_params-IsValid (0x08 ∷ 0xac ∷ 0x02 ∷ []) no_params some_params (omega arith) refl

unmarshal_params-marshal_example :
    (ParamsPb.marshal some_params >>= λ bz. unmarshal_params bz no_params) ≡ ok some_params
unmarshal_params-marshal_example = unmarshal_params-marshal some_params (omega arith)

unmarshal_genesis-returns_example : returns (unmarshal_genesis some_bytes no_genesis) ≡ true
unmarshal_genesis-returns_example = unmarshal_genesis-returns some_bytes no_genesis (omega arith)

unmarshal_genesis-marshal_example :
    (GenesisPb.marshal (record { params = some_params }) >>= λ bz. unmarshal_genesis bz no_genesis)
    ≡ ok (record { params = some_params })
unmarshal_genesis-marshal_example =
    unmarshal_genesis-marshal (record { params = some_params }) (omega arith)

unmarshal_msg-returns_example : returns (unmarshal_msg some_bytes no_msg) ≡ true
unmarshal_msg-returns_example = unmarshal_msg-returns some_bytes no_msg (omega arith)

unmarshal_msg-marshal_example :
    (TxPb.marshal some_msg >>= λ bz. unmarshal_msg bz no_msg) ≡ ok some_msg
unfolding authority_bytes field_bytes encoding groups
unmarshal_msg-marshal_example = unmarshal_msg-marshal some_msg (omega arith, omega arith)

unmarshal_response-returns_example : returns (unmarshal_response some_bytes no_response) ≡ true
unmarshal_response-returns_example = unmarshal_response-returns some_bytes no_response (omega arith)

unmarshal_response-marshal_example :
    (QueryPb.marshal (record { params = some_params }) >>= λ bz. unmarshal_response bz no_response)
    ≡ ok (record { params = some_params })
unmarshal_response-marshal_example =
    unmarshal_response-marshal (record { params = some_params }) (omega arith)
