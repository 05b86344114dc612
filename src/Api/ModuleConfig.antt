-- ===== src/Api/ModuleConfig.antt =====
-- `Module` of pointpay/api/pointpay/pnp/module/module.pulsar.go, the configuration of the module: its accessors, its
-- reflection and its fast paths.
pub mod Laws
pub mod Codec
use pointpay_chain.Prelude.{
  Bool, List, [], ◌∷◌, ◌++◌, Option, none, some, ℕ, ◌+◌, ◌==◌, if◌then◌else◌, ok, ◌>>=◌,
}
use pointpay_chain.Prelude.Text.{Bytes, codes}
use pointpay_chain.Wire.Error.{Pb, module_msg}
use pointpay_chain.Wire.Message.{Handler, Switch}
use pointpay_chain.Api.Runtime.{Runtime}
use pointpay_chain.Api.Value.{Values}
use pointpay_chain.Api.Reflect.{
  Field, has_in, clear_in, get_in, set_in, mutable_in, new_field_in, range_in, which_oneof_of,
  receiver, is_valid_of,
}
use pointpay_chain.Api.Reflect.Fields.{string_field}
use pointpay_chain.Api.Frame.{size_of, marshal_of, keep_unknown, decode, unmarshal_of}
use pointpay_chain.Api.Text.{text_size, write_text, text_field}

pub record Module : Type 0 where
  pub authority : Bytes
  pub unknown_fields : List ℕ

-- `new(Module)`
abbrev pub new_message : Module
new_message = record { authority = []; unknown_fields = [] }

-- `GetAuthority`
unfoldable pub get_authority : Option Module → Bytes
get_authority none = []
get_authority (some x) = x.authority

module _ (vs : Values) where
  unfoldable pub fields : List (Field vs.Value Module)
  fields =
      string_field vs (codes "pointpay.pnp.module.Module.authority") (λ x. x.authority)
        (λ s x. record x { authority = s })
      ∷ []

  unfoldable pub range : {S : Type 0} → (Bytes → vs.Value → S → S × Bool) → Option Module → S → Pb S
  range visit x s = range_in fields visit x s

  unfoldable pub has : Bytes → Option Module → Pb Bool
  has fd x = has_in fields fd x

  unfoldable pub clear : Bytes → Option Module → Pb Module
  clear fd x = clear_in fields fd x

  unfoldable pub get : Bytes → Option Module → Pb vs.Value
  get fd x = get_in fields fd x

  unfoldable pub set : Bytes → vs.Value → Option Module → Pb Module
  set fd v x = set_in fields fd v x

  unfoldable pub mutable : Bytes → Option Module → Pb (Module × vs.Value)
  mutable fd x = mutable_in fields fd x

  unfoldable pub new_field : Bytes → Pb vs.Value
  new_field fd = new_field_in fields fd

unfoldable pub which_oneof : Bytes → Option Module → Pb Bytes
which_oneof d x = which_oneof_of d x

unfoldable pub get_unknown : Option Module → Pb (List ℕ)
get_unknown x = do m ← receiver x; ok m.unknown_fields

unfoldable pub set_unknown : List ℕ → Option Module → Pb Module
set_unknown raw x = do m ← receiver x; ok (record m { unknown_fields = raw })

unfoldable pub is_valid : Option Module → Bool
is_valid x = is_valid_of x

module _ (rt : Runtime) where
  unfoldable pub fields_size : Module → ℕ
  fields_size x = text_size rt x.authority

  unfoldable pub size : Option Module → ℕ
  size x = size_of fields_size (λ m. m.unknown_fields) x

  -- The part of `marshal` between the unknown fields and the append.
  unfoldable pub write_fields : Module → List ℕ → ℕ → Pb (List ℕ × ℕ)
  write_fields x dAtA i = write_text rt x.authority dAtA i

  unfoldable pub marshal : (Module → ℕ) → List ℕ → Option Module → Pb (List ℕ)
  marshal options_size buf x = marshal_of write_fields (λ m. m.unknown_fields) options_size buf x

  -- `case 1`
  unfoldable pub authority_field : Handler Module
  authority_field = text_field module_msg (λ s m. record m { authority = s })

  unfoldable pub switch : Switch Module
  switch number = if number == 1 then some authority_field else none

  unfoldable pub decode_message : Bool → List ℕ → Module → Pb Module
  decode_message discard dAtA x =
      decode module_msg switch
        (keep_unknown rt.skip (λ m raw. record m { unknown_fields = m.unknown_fields ++ raw })
          discard)
        dAtA x

  unfoldable pub unmarshal : Bool → List ℕ → Option Module → Pb (Option Module)
  unmarshal discard dAtA x = unmarshal_of (decode_message discard) dAtA x
