-- ===== src/Api/Pointer.antt =====
-- The field of type `*Params` in `GenesisState`, `MsgUpdateParams` and `QueryParamsResponse`
-- (pointpay/api/pointpay/pnp/{genesis,tx,query}.pulsar.go), and the options, from the packages
-- github.com/cosmos/cosmos-proto/runtime and google.golang.org/protobuf/proto, that call the fast
-- paths of `Params` for it.
pub mod Laws
pub mod Reading
pub mod Gogo
use pointpay_chain.Prelude.{
  ℕ, ◌+◌, ◌≡◌, Bool, List, [], Option, none, some, if◌then◌else◌, length, ok, ◌>>=◌, ◌>>◌,
}
use pointpay_chain.Wire.Error.{Message, Pb, runtime_pb}
use pointpay_chain.Wire.Message.{Handler, expect_wire_type, read_slice}
use pointpay_chain.Wire.Buffer.{copy_before, write_varint_field}
use pointpay_chain.Api.Runtime.{Runtime}
use pointpay_chain.Api.Value.{Params, new_params}
use pointpay_chain.Api.Params as ParamsApi

-- `options.Size`, `options.Marshal` and `options.Unmarshal` of a `*Params` that is not nil. They use
-- the methods of the message; unless `merge` is set, `Unmarshal` resets the message first.
pub record Options (rt : Runtime) : Type 0 where
  pub discard_unknown : Bool
  pub merge : Bool
  pub size : Params → ℕ
  pub marshal : Params → Pb (List ℕ)
  pub unmarshal : List ℕ → Params → Pb Params
  pub size_calls : (p : Params) → size p ≡ ParamsApi.size rt (some p)
  pub marshal_calls : (p : Params) → marshal p ≡ ParamsApi.marshal rt size [] (some p)
  pub unmarshal_calls :
      (bytes : List ℕ) (p : Params)
      → unmarshal bytes p
        ≡ ParamsApi.decode_params rt discard_unknown bytes (if merge then p else new_params)

-- `if x.Params != nil { l = options.Size(x.Params); n += 1 + l + runtime.Sov(uint64(l)) }`
unfoldable pub pointer_size : (rt : Runtime) → Options rt → Option Params → ℕ
pointer_size rt options none = 0
pointer_size rt options (some p) = 1 + options.size p + rt.sov (options.size p)

-- The part of `marshal` under `if x.Params != nil`.
unfoldable pub write_pointer :
    (rt : Runtime) → Options rt → ℕ → Option Params → List ℕ → ℕ → Pb (List ℕ × ℕ)
write_pointer rt options tag none dAtA i = ok (dAtA, i)
write_pointer rt options tag (some p) dAtA i = do
  encoded ← options.marshal p
  (dAtA', i') ← copy_before dAtA i encoded
  write_varint_field rt.encode_varint dAtA' i' (length encoded) tag

-- `if x.Params == nil { x.Params = &Params{} }`
abbrev pub allocated : Option Params → Params
allocated none = new_params
allocated (some p) = p

-- The case of the field: the slice goes to `options.Unmarshal`, with the message of the field.
unfoldable pub pointer_field :
    {M : Type 0}
    → (rt : Runtime) → Options rt
    → Message
    → ℕ
    → (M → Option Params)
    → (Params → M → M)
    → Handler M
pointer_field rt options msg number get set wire_type l index bytes m = do
  expect_wire_type msg number 2 wire_type
  (slice, index', rest) ← read_slice runtime_pb l index bytes
  p ← options.unmarshal slice (allocated (get m))
  ok (set p m, index', rest)
