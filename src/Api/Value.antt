-- ===== src/Api/Value.antt =====
-- The message `Params` of pointpay/api/pointpay/pnp/params.pulsar.go, the only message that is a field of
-- another one, and what the reflection uses of google.golang.org/protobuf/reflect/protoreflect.
use pointpay_chain.Prelude.{ℕ, ◌≡◌, List, [], Option, ok}
use pointpay_chain.Prelude.Text.{Bytes}
use pointpay_chain.Wire.Error.{Pb}

-- The state and the size cache of the message are no data of it.
pub record Params : Type 0 where
  pub max_supply : ℕ
  pub unknown_fields : List ℕ

-- `new(Params)`
abbrev pub new_params : Params
new_params = record { max_supply = 0; unknown_fields = [] }

-- `protoreflect.Value`: `ValueOfUint64`, `ValueOfString` and `ValueOfMessage` of a `*Params`, and
-- `Uint()`, `Interface().(string)` and `Message().Interface().(*Params)`, which panic on a value of
-- another kind.
pub record Values : Type 1 where
  pub Value : Type 0
  pub of_uint64 : ℕ → Value
  pub of_string : Bytes → Value
  pub of_params : Option Params → Value
  pub to_uint64 : Value → Pb ℕ
  pub to_string : Value → Pb Bytes
  pub to_params : Value → Pb (Option Params)
  pub uint64_back : (n : ℕ) → to_uint64 (of_uint64 n) ≡ ok n
  pub string_back : (s : Bytes) → to_string (of_string s) ≡ ok s
  pub params_back : (p : Option Params) → to_params (of_params p) ≡ ok p
