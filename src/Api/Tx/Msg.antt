-- ===== src/Api/Tx/Msg.antt =====
-- `MsgUpdateParams` of pointpay/api/pointpay/pnp/tx.pulsar.go: its accessors, its reflection and its fast paths.
pub mod Laws
pub mod Codec
use pointpay_chain.Prelude.{
  Bool, List, [], ◌∷◌, ◌++◌, Option, none, some, ℕ, ◌+◌, ◌==◌, if◌then◌else◌, ok, ◌>>=◌,
}
use pointpay_chain.Prelude.Text.{Bytes, codes}
use pointpay_chain.Wire.Error.{Pb, msg_update_params_msg}
use pointpay_chain.Wire.Message.{Handler, Switch}
use pointpay_chain.Api.Runtime.{Runtime}
use pointpay_chain.Api.Value.{Values, Params}
use pointpay_chain.Api.Reflect.{
  Field, has_in, clear_in, get_in, set_in, mutable_in, new_field_in, range_in, which_oneof_of,
  receiver, is_valid_of,
}
use pointpay_chain.Api.Reflect.Fields.{params_field, string_field}
use pointpay_chain.Api.Frame.{size_of, marshal_of, keep_unknown, decode, unmarshal_of}
use pointpay_chain.Api.Text.{text_size, write_text, text_field}
use pointpay_chain.Api.Pointer.{Options, pointer_size, write_pointer, pointer_field}

pub record MsgUpdateParams : Type 0 where
  pub authority : Bytes
  pub params : Option Params
  pub unknown_fields : List ℕ

-- `new(MsgUpdateParams)`
abbrev pub new_message : MsgUpdateParams
new_message = record { authority = []; params = none; unknown_fields = [] }

-- `GetAuthority`
unfoldable pub get_authority : Option MsgUpdateParams → Bytes
get_authority none = []
get_authority (some x) = x.authority

-- `GetParams`
unfoldable pub get_params : Option MsgUpdateParams → Option Params
get_params none = none
get_params (some x) = x.params

module _ (vs : Values) where
  unfoldable pub fields : List (Field vs.Value MsgUpdateParams)
  fields =
      string_field vs (codes "pointpay.pnp.MsgUpdateParams.authority") (λ x. x.authority)
        (λ s x. record x { authority = s })
      ∷ params_field vs (codes "pointpay.pnp.MsgUpdateParams.params") (λ x. x.params)
          (λ p x. record x { params = p })
      ∷ []

  unfoldable pub range :
      {S : Type 0} → (Bytes → vs.Value → S → S × Bool) → Option MsgUpdateParams → S → Pb S
  range visit x s = range_in fields visit x s

  unfoldable pub has : Bytes → Option MsgUpdateParams → Pb Bool
  has fd x = has_in fields fd x

  unfoldable pub clear : Bytes → Option MsgUpdateParams → Pb MsgUpdateParams
  clear fd x = clear_in fields fd x

  unfoldable pub get : Bytes → Option MsgUpdateParams → Pb vs.Value
  get fd x = get_in fields fd x

  unfoldable pub set : Bytes → vs.Value → Option MsgUpdateParams → Pb MsgUpdateParams
  set fd v x = set_in fields fd v x

  unfoldable pub mutable : Bytes → Option MsgUpdateParams → Pb (MsgUpdateParams × vs.Value)
  mutable fd x = mutable_in fields fd x

  unfoldable pub new_field : Bytes → Pb vs.Value
  new_field fd = new_field_in fields fd

unfoldable pub which_oneof : Bytes → Option MsgUpdateParams → Pb Bytes
which_oneof d x = which_oneof_of d x

unfoldable pub get_unknown : Option MsgUpdateParams → Pb (List ℕ)
get_unknown x = do m ← receiver x; ok m.unknown_fields

unfoldable pub set_unknown : List ℕ → Option MsgUpdateParams → Pb MsgUpdateParams
set_unknown raw x = do m ← receiver x; ok (record m { unknown_fields = raw })

unfoldable pub is_valid : Option MsgUpdateParams → Bool
is_valid x = is_valid_of x

module _ (rt : Runtime) (options : Options rt) where
  unfoldable pub fields_size : MsgUpdateParams → ℕ
  fields_size x = text_size rt x.authority + pointer_size rt options x.params

  unfoldable pub size : Option MsgUpdateParams → ℕ
  size x = size_of fields_size (λ m. m.unknown_fields) x

  -- The part of `marshal` between the unknown fields and the append, the second field first.
  unfoldable pub write_fields : MsgUpdateParams → List ℕ → ℕ → Pb (List ℕ × ℕ)
  write_fields x dAtA i = do
    (dAtA', i') ← write_pointer rt options 0x12 x.params dAtA i
    write_text rt x.authority dAtA' i'

  unfoldable pub marshal : (MsgUpdateParams → ℕ) → List ℕ → Option MsgUpdateParams → Pb (List ℕ)
  marshal options_size buf x = marshal_of write_fields (λ m. m.unknown_fields) options_size buf x

  -- `case 1`
  unfoldable pub authority_field : Handler MsgUpdateParams
  authority_field = text_field msg_update_params_msg (λ s m. record m { authority = s })

  -- `case 2`
  unfoldable pub params_case : Handler MsgUpdateParams
  params_case =
      pointer_field rt options msg_update_params_msg 2 (λ m. m.params)
        (λ p m. record m { params = some p })

  unfoldable pub switch : Switch MsgUpdateParams
  switch number =
      if number == 1 then some authority_field else if number == 2 then some params_case else none

  unfoldable pub decode_message : List ℕ → MsgUpdateParams → Pb MsgUpdateParams
  decode_message dAtA x =
      decode msg_update_params_msg switch
        (keep_unknown rt.skip (λ m raw. record m { unknown_fields = m.unknown_fields ++ raw })
          options.discard_unknown)
        dAtA x

  unfoldable pub unmarshal : List ℕ → Option MsgUpdateParams → Pb (Option MsgUpdateParams)
  unmarshal dAtA x = unmarshal_of decode_message dAtA x
