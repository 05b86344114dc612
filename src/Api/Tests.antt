-- ===== src/Api/Tests.antt =====
-- The theorems on the fast paths at concrete inputs, with parameters that keep their laws: the varint
-- and skip routines of the module for the runtime, a sum for the values of the reflection, and
-- options that call the methods of the message.
use pointpay_chain.Prelude.{
  ℕ, ◌≡◌, ◌⊎◌, inl, inr, refl, Bool, true, false, List, [], ◌∷◌, ◌++◌, Option, none, some, ok,
  panic, ◌>>=◌, returns, arith,
}
use pointpay_chain.Prelude.Text.{Bytes, codes, bytes_eq}
use pointpay_chain.Wire.Error.{Pb, runtime_pb}
use pointpay_chain.Wire.Varint.{sov, encode_varint}
use pointpay_chain.Wire.Varint.Groups.{sov-varint}
use pointpay_chain.Wire.Buffer.{encode_varint-Encodes}
use pointpay_chain.Wire.Skip.{skip}
use pointpay_chain.Wire.Skip.{bytes_from, advance}
use pointpay_chain.Wire.Message.{slice}
use pointpay_chain.Api.Frame.{kept}
use pointpay_chain.Wire.Skip.Total.{skip-returns}
use pointpay_chain.Wire.Skip.Moves.{skip_bounds}
use pointpay_chain.Wire.Tx as TxPb
use pointpay_chain.Wire.Tx.Encoding.{authority_bytes}
use pointpay_chain.Wire.Varint.{read_varint, varint_loop}
use pointpay_chain.Wire.Varint.Groups.{groups}
use pointpay_chain.Wire.Skip.{skip_loop, skip_value, skip_varint, skip_length, end_of_group}
use pointpay_chain.Wire.Message.{unmarshal, unmarshal_loop}
use pointpay_chain.Wire.Params.Encoding.{encoding}
use pointpay_chain.Wire.Embedded.Writing.{field_bytes}
use pointpay_chain.Api.Frame.{unmarshal_of, keep_unknown}
use pointpay_chain.Api.Pointer.Laws.{pointer_bytes}
use pointpay_chain.Api.Runtime.{Runtime}
use pointpay_chain.Api.Value.{Params, new_params, Values}
use pointpay_chain.Api.Reflect.{case_of, receiver, get_in, clear_in, mutable_in}
use pointpay_chain.Api.Reflect.Fields.{string_field, params_field}
use pointpay_chain.Api.Reflect.Contract.{View, update, walk, names_of}
use pointpay_chain.Api.Params as ParamsApi
use pointpay_chain.Api.Pointer.{Options}
use pointpay_chain.Api.Tx.Msg as Msg
use pointpay_chain.Api.Tx.Msg.Laws as MsgLaws
use pointpay_chain.Api.Tx.Msg.Laws.{
  set_msg_refines, clear_msg_refines, mutable_msg_refines, range_msg_refines, unset_params_panics,
}
use pointpay_chain.Api.Tx.Msg.Codec as MsgCodec
use pointpay_chain.Api.Tx.Msg.Codec.{
  marshal_msg_lem, marshal_msg-same, decode_msg-returns, decode_msg-marshal,
}
use pointpay_chain.Api.Tx.Response as Response
use pointpay_chain.Api.Tx.Response.Codec.{marshal_msg_response-unmarshal}
use pointpay_chain.Api.ModuleConfig as Config
use pointpay_chain.Api.ModuleConfig.Codec.{decode_config-marshal}

abbrev runtime : Runtime
runtime = record {
  sov = sov;
  encode_varint = encode_varint;
  skip = skip runtime_pb;
  sov_bytes = sov-varint;
  encodes = encode_varint-Encodes;
  skip_ends = skip-returns runtime_pb;
  skip_moves = λ bytes n small e. skip_bounds runtime_pb bytes n small e;
}

abbrev uint64_of : ℕ ⊎ (Bytes ⊎ Option Params) → Pb ℕ
uint64_of (inl n) = ok n
uint64_of (inr v) = panic

abbrev string_of : ℕ ⊎ (Bytes ⊎ Option Params) → Pb Bytes
string_of (inl n) = panic
string_of (inr (inl s)) = ok s
string_of (inr (inr p)) = panic

abbrev params_of : ℕ ⊎ (Bytes ⊎ Option Params) → Pb (Option Params)
params_of (inl n) = panic
params_of (inr (inl s)) = panic
params_of (inr (inr p)) = ok p

abbrev values : Values
values = record {
  Value = ℕ ⊎ (Bytes ⊎ Option Params);
  of_uint64 = λ n. inl n;
  of_string = λ s. inr (inl s);
  of_params = λ p. inr (inr p);
  to_uint64 = uint64_of;
  to_string = string_of;
  to_params = params_of;
  uint64_back = λ n. refl;
  string_back = λ s. refl;
  params_back = λ p. refl;
}

-- Unknown fields are kept, and decoded fields are merged.
abbrev options : Options runtime
options = record {
  discard_unknown = false;
  merge = true;
  size = λ p. ParamsApi.size runtime (some p);
  marshal = λ p. ParamsApi.marshal runtime (λ q. ParamsApi.size runtime (some q)) [] (some p);
  unmarshal = λ bytes p. ParamsApi.decode_params runtime false bytes p;
  size_calls = λ p. refl;
  marshal_calls = λ p. refl;
  unmarshal_calls = λ bytes p. refl;
}

abbrev some_params : Params
some_params = record { max_supply = 300; unknown_fields = [] }

abbrev some_msg : Msg.MsgUpdateParams
some_msg = record {
  authority = codes "gov";
  params = some some_params;
  unknown_fields = 0x18 ∷ 7 ∷ [];
}

abbrev gogo_msg : TxPb.MsgUpdateParams
gogo_msg = record { authority = codes "gov"; params = record { max_supply = 300 } }

-- Notes the names that it is given, and goes on.
abbrev note_name : Bytes → values.Value → List Bytes → List Bytes × Bool
note_name name v seen = (name ∷ seen, true)

abbrev authority_name : Bytes
authority_name = codes "pointpay.pnp.MsgUpdateParams.authority"

abbrev params_name : Bytes
params_name = codes "pointpay.pnp.MsgUpdateParams.params"

abbrev text_value : Bytes → values.Value
text_value s = inr (inl s)

abbrev message_value : Option Params → values.Value
message_value p = inr (inr p)

abbrev view : Msg.MsgUpdateParams → View values.Value
view x = MsgLaws.view values x

set_msg_refines_example :
    (x' : Msg.MsgUpdateParams) × (Msg.set values authority_name
        (text_value (codes "gov"))
        (some Msg.new_message)
      ≡ ok x')
    × (view x' ≡ update (view Msg.new_message) authority_name (view some_msg))
unfolding Msg.get Msg.fields get_in case_of receiver string_field params_field bytes_eq
set_msg_refines_example =
    set_msg_refines values authority_name Msg.new_message some_msg (text_value (codes "gov")) refl

clear_msg_refines_example :
    view (record some_msg { authority = [] })
    ≡ update (view some_msg) authority_name (view Msg.new_message)
unfolding Msg.clear Msg.fields clear_in case_of receiver string_field params_field bytes_eq
clear_msg_refines_example =
    clear_msg_refines values authority_name some_msg (record some_msg { authority = [] }) refl

mutable_msg_refines_example :
    view (record Msg.new_message { params = some new_params })
    ≡ update (view Msg.new_message) params_name (λ name. ok (true, message_value (some new_params)))
unfolding Msg.mutable Msg.fields mutable_in case_of receiver string_field params_field bytes_eq
mutable_msg_refines_example =
    mutable_msg_refines values params_name Msg.new_message
      (record Msg.new_message { params = some new_params }) (message_value (some new_params)) refl

range_msg_refines_example :
    Msg.range values note_name (some some_msg) []
    ≡ walk (names_of (Msg.fields values)) (view some_msg) note_name []
range_msg_refines_example = range_msg_refines values note_name some_msg []

unset_params_panics_example :
    (Msg.get values params_name (some Msg.new_message) ≡ ok (message_value none))
    × (ParamsApi.is_valid none ≡ false)
    × (ParamsApi.has values authority_name none ≡ panic)
    × (ParamsApi.get values authority_name none ≡ panic)
    × (ParamsApi.range values note_name none [] ≡ panic)
unset_params_panics_example =
    unset_params_panics values Msg.new_message authority_name note_name [] refl

-- The size that the options give of a message.
abbrev msg_size : Msg.MsgUpdateParams → ℕ
msg_size x = Msg.size runtime options (some x)

marshal_msg_lem_example :
    Msg.marshal runtime options msg_size (9 ∷ []) (some some_msg)
    ≡ ok ((9 ∷ []) ++ (MsgCodec.fields_bytes some_msg ++ (0x18 ∷ 7 ∷ [])))
unfolding authority_bytes pointer_bytes encoding groups
marshal_msg_lem_example =
    marshal_msg_lem runtime options msg_size (9 ∷ []) some_msg
      ((omega arith, omega arith), omega arith) refl

marshal_msg-same_example :
    Msg.marshal runtime options msg_size [] (some (MsgCodec.from_gogo gogo_msg))
    ≡ TxPb.marshal gogo_msg
unfolding authority_bytes field_bytes encoding groups
marshal_msg-same_example =
    marshal_msg-same runtime options msg_size gogo_msg (omega arith, omega arith) refl

decode_msg-marshal_example :
    (Msg.marshal runtime options msg_size [] (some (MsgCodec.from_gogo gogo_msg)) >>= λ bz.
    Msg.unmarshal runtime options bz (some Msg.new_message))
    ≡ ok (some (MsgCodec.from_gogo gogo_msg))
unfolding authority_bytes field_bytes encoding groups
decode_msg-marshal_example =
    decode_msg-marshal runtime options msg_size gogo_msg (omega arith, omega arith) refl

decode_msg-returns_example :
    returns (Msg.unmarshal runtime options (0x12 ∷ 2 ∷ 8 ∷ 5 ∷ 0x18 ∷ 7 ∷ []) (some some_msg))
    ≡ true
decode_msg-returns_example =
    decode_msg-returns runtime options (0x12 ∷ 2 ∷ 8 ∷ 5 ∷ 0x18 ∷ 7 ∷ []) some_msg (omega arith)

marshal_msg_response-unmarshal_example :
    Response.marshal
      (λ x. Response.size (some x))
      []
      (some (record { unknown_fields = 0x18 ∷ 7 ∷ [] }))
    ≡ ok (0x18 ∷ 7 ∷ [])
unfolding bytes_from kept slice advance Response.unmarshal Response.decode_message Response.switch
    unmarshal_of keep_unknown unmarshal unmarshal_loop skip skip_loop skip_value skip_varint
    skip_length end_of_group read_varint varint_loop
marshal_msg_response-unmarshal_example =
    marshal_msg_response-unmarshal runtime (λ x. Response.size (some x)) (0x18 ∷ 7 ∷ [])
      (record { unknown_fields = 0x18 ∷ 7 ∷ [] }) (omega arith) refl refl

decode_config-marshal_example :
    (Config.marshal runtime
        (λ x. Config.size runtime (some x))
        []
        (some (record { authority = codes "gov"; unknown_fields = [] }))
      >>= λ bz. Config.unmarshal runtime false bz (some Config.new_message))
    ≡ ok (some (record { authority = codes "gov"; unknown_fields = [] }))
unfolding authority_bytes groups
decode_config-marshal_example =
    decode_config-marshal runtime false (λ x. Config.size runtime (some x)) (codes "gov")
      (omega arith) refl
