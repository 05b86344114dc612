-- ===== src/Api/Tx/Response.antt =====
-- `MsgUpdateParamsResponse` of pointpay/api/pointpay/pnp/tx.pulsar.go, which has no fields but the unknown ones: its
-- reflection and its fast paths.
pub mod Codec
use pointpay_chain.Prelude.{
  Bool, List, [], ◌∷◌, ◌++◌, Option, none, some, ℕ, ◌+◌, ◌==◌, if◌then◌else◌, ok, ◌>>=◌,
}
use pointpay_chain.Prelude.Text.{Bytes, codes}
use pointpay_chain.Wire.Error.{Pb, msg_update_params_response_msg}
use pointpay_chain.Wire.Message.{Handler, Switch}
use pointpay_chain.Api.Runtime.{Runtime}
use pointpay_chain.Api.Value.{Values}
use pointpay_chain.Api.Reflect.{
  Field, has_in, clear_in, get_in, set_in, mutable_in, new_field_in, range_in, which_oneof_of,
  receiver, is_valid_of,
}
use pointpay_chain.Api.Frame.{size_of, marshal_of, keep_unknown, decode, unmarshal_of}

pub record MsgUpdateParamsResponse : Type 0 where
  pub unknown_fields : List ℕ

-- `new(MsgUpdateParamsResponse)`
abbrev pub new_message : MsgUpdateParamsResponse
new_message = record { unknown_fields = [] }

module _ (vs : Values) where
  unfoldable pub fields : List (Field vs.Value MsgUpdateParamsResponse)
  fields = []

  unfoldable pub range :
      {S : Type 0} → (Bytes → vs.Value → S → S × Bool) → Option MsgUpdateParamsResponse → S → Pb S
  range visit x s = range_in fields visit x s

  unfoldable pub has : Bytes → Option MsgUpdateParamsResponse → Pb Bool
  has fd x = has_in fields fd x

  unfoldable pub clear : Bytes → Option MsgUpdateParamsResponse → Pb MsgUpdateParamsResponse
  clear fd x = clear_in fields fd x

  unfoldable pub get : Bytes → Option MsgUpdateParamsResponse → Pb vs.Value
  get fd x = get_in fields fd x

  unfoldable pub set :
      Bytes → vs.Value → Option MsgUpdateParamsResponse → Pb MsgUpdateParamsResponse
  set fd v x = set_in fields fd v x

  unfoldable pub mutable :
      Bytes → Option MsgUpdateParamsResponse → Pb (MsgUpdateParamsResponse × vs.Value)
  mutable fd x = mutable_in fields fd x

  unfoldable pub new_field : Bytes → Pb vs.Value
  new_field fd = new_field_in fields fd

unfoldable pub which_oneof : Bytes → Option MsgUpdateParamsResponse → Pb Bytes
which_oneof d x = which_oneof_of d x

unfoldable pub get_unknown : Option MsgUpdateParamsResponse → Pb (List ℕ)
get_unknown x = do m ← receiver x; ok m.unknown_fields

unfoldable pub set_unknown : List ℕ → Option MsgUpdateParamsResponse → Pb MsgUpdateParamsResponse
set_unknown raw x = do m ← receiver x; ok (record m { unknown_fields = raw })

unfoldable pub is_valid : Option MsgUpdateParamsResponse → Bool
is_valid x = is_valid_of x

unfoldable pub fields_size : MsgUpdateParamsResponse → ℕ
fields_size x = 0

unfoldable pub size : Option MsgUpdateParamsResponse → ℕ
size x = size_of fields_size (λ m. m.unknown_fields) x

-- The part of `marshal` between the unknown fields and the append.
unfoldable pub write_fields : MsgUpdateParamsResponse → List ℕ → ℕ → Pb (List ℕ × ℕ)
write_fields x dAtA i = ok (dAtA, i)

unfoldable pub marshal :
    (MsgUpdateParamsResponse → ℕ) → List ℕ → Option MsgUpdateParamsResponse → Pb (List ℕ)
marshal options_size buf x = marshal_of write_fields (λ m. m.unknown_fields) options_size buf x

unfoldable pub switch : Switch MsgUpdateParamsResponse
switch number = none

module _ (rt : Runtime) where
  unfoldable pub decode_message :
      Bool → List ℕ → MsgUpdateParamsResponse → Pb MsgUpdateParamsResponse
  decode_message discard dAtA x =
      decode msg_update_params_response_msg switch
        (keep_unknown rt.skip (λ m raw. record m { unknown_fields = m.unknown_fields ++ raw })
          discard)
        dAtA x

  unfoldable pub unmarshal :
      Bool → List ℕ → Option MsgUpdateParamsResponse → Pb (Option MsgUpdateParamsResponse)
  unmarshal discard dAtA x = unmarshal_of (decode_message discard) dAtA x
