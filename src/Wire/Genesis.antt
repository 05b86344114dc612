-- ===== src/Wire/Genesis.antt =====
-- The generated codec of `GenesisState` (pointpay/x/pnp/types/genesis.pb.go).
pub mod RoundTrip
use pointpay_chain.Prelude.{
  ℕ, ◌+◌, ◌-◌, List, Option, none, some, ◌==◌, if◌then◌else◌, length, ok, ◌>>=◌,
}
use pointpay_chain.Wire.Error.{genesis_pb, genesis_state_msg, Pb}
use pointpay_chain.Wire.Varint.{sov}
use pointpay_chain.Wire.Message.{Handler, Switch, skip_unknown, unmarshal}
use pointpay_chain.Wire.Buffer.{marshal_sized}
use pointpay_chain.Wire.Params as ParamsPb
use pointpay_chain.Wire.Params.{Params, no_params}
use pointpay_chain.Wire.Embedded.{write_params_field, params_field}

pub record GenesisState : Type 0 where
  pub params : Params

-- `GenesisState{}`
abbrev pub no_genesis : GenesisState
no_genesis = record { params = no_params }

pub marshal_to_sized_buffer : GenesisState → List ℕ → Pb (List ℕ × ℕ)
marshal_to_sized_buffer m dAtA = do
  (dAtA', i) ← write_params_field m.params 0xa dAtA (length dAtA)
  ok (dAtA', length dAtA - i)

pub size : GenesisState → ℕ
size m = 1 + ParamsPb.size m.params + sov (ParamsPb.size m.params)

pub marshal : GenesisState → Pb (List ℕ)
marshal m = marshal_sized (marshal_to_sized_buffer m) (size m)

-- `case 1`
pub genesis_params_field : Handler GenesisState
genesis_params_field =
    params_field genesis_pb genesis_state_msg 1 (λ m. m.params) (λ m p. record m { params = p })

pub switch : Switch GenesisState
switch number = if number == 1 then some genesis_params_field else none

pub unmarshal_genesis : List ℕ → GenesisState → Pb GenesisState
unmarshal_genesis dAtA m =
    unmarshal genesis_pb genesis_state_msg switch (skip_unknown genesis_pb) dAtA m
