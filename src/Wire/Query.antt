-- ===== src/Wire/Query.antt =====
-- The generated codec of `QueryParamsRequest` and `QueryParamsResponse` (pointpay/x/pnp/types/query.pb.go).
pub mod RoundTrip
use pointpay_chain.Prelude.{
  ℕ, ◌+◌, ◌-◌, List, Option, none, some, ◌==◌, if◌then◌else◌, length, ok, ◌>>=◌,
}
use pointpay_chain.Wire.Error.{query_pb, query_params_request_msg, query_params_response_msg, Pb}
use pointpay_chain.Wire.Varint.{sov}
use pointpay_chain.Wire.Message.{Handler, Switch, skip_unknown, unmarshal}
use pointpay_chain.Wire.Buffer.{marshal_sized}
use pointpay_chain.Wire.Params as ParamsPb
use pointpay_chain.Wire.Params.{Params, no_params}
use pointpay_chain.Wire.Embedded.{write_params_field, params_field}

pub record QueryParamsResponse : Type 0 where
  pub params : Params

-- `QueryParamsResponse{}`
abbrev pub no_response : QueryParamsResponse
no_response = record { params = no_params }

pub marshal_to_sized_buffer : QueryParamsResponse → List ℕ → Pb (List ℕ × ℕ)
marshal_to_sized_buffer m dAtA = do
  (dAtA', i) ← write_params_field m.params 0xa dAtA (length dAtA)
  ok (dAtA', length dAtA - i)

pub size : QueryParamsResponse → ℕ
size m = 1 + ParamsPb.size m.params + sov (ParamsPb.size m.params)

pub marshal : QueryParamsResponse → Pb (List ℕ)
marshal m = marshal_sized (marshal_to_sized_buffer m) (size m)

-- `case 1`
pub response_params_field : Handler QueryParamsResponse
response_params_field =
    params_field query_pb query_params_response_msg 1 (λ m. m.params)
      (λ m p. record m { params = p })

pub switch : Switch QueryParamsResponse
switch number = if number == 1 then some response_params_field else none

pub unmarshal_response : List ℕ → QueryParamsResponse → Pb QueryParamsResponse
unmarshal_response dAtA m =
    unmarshal query_pb query_params_response_msg switch (skip_unknown query_pb) dAtA m

-- `QueryParamsRequest` has no fields: nothing is written, and every field is skipped.
pub data QueryParamsRequest : Type 0 where
  request : QueryParamsRequest

pub marshal_request : QueryParamsRequest → Pb (List ℕ)
marshal_request m = marshal_sized (λ dAtA. ok (dAtA, 0)) 0

pub request_switch : Switch QueryParamsRequest
request_switch number = none

pub unmarshal_request : List ℕ → QueryParamsRequest → Pb QueryParamsRequest
unmarshal_request dAtA m =
    unmarshal query_pb query_params_request_msg request_switch (skip_unknown query_pb) dAtA m
