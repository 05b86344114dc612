-- ===== src/Api/Reflect/Fields.antt =====
-- The cases of a field by its kind: a uint64, a string, or a pointer to `Params`.
use pointpay_chain.Prelude.{
  ℕ, ◌==◌, not, Bool, true, false, [], ltb, length, if◌then◌else◌, Option, none, some, ok, panic,
  ◌>>=◌,
}
use pointpay_chain.Prelude.Text.{Bytes, bytes_eq}
use pointpay_chain.Wire.Error.{Pb}
use pointpay_chain.Api.Value.{Params, new_params, Values}
use pointpay_chain.Api.Reflect.{Field}

-- `x.F != nil`
abbrev pub present : Option Params → Bool
present none = false
present (some p) = true

-- `Mutable` puts a new message where there is none, and gives the one that is there then. The
-- reference itself, through which a caller may change it, is not kept.
abbrev pub renewed :
    {M : Type 0} → (vs : Values) → (Option Params → M → M) → Option Params → M → Pb (M × vs.Value)
renewed vs set none x = ok (set (some new_params) x, vs.of_params (some new_params))
renewed vs set (some p) x = ok (x, vs.of_params (some p))

module _ (vs : Values) {M : Type 0} (name : Bytes) where
  unfoldable pub uint64_field : (M → ℕ) → (ℕ → M → M) → Field vs.Value M
  uint64_field get set = record {
    name = name;
    populated = λ x. not (get x == 0);
    read = λ x. vs.of_uint64 (get x);
    visits = λ x. if get x == 0 then none else some (vs.of_uint64 (get x));
    store = λ v x. vs.to_uint64 v >>= λ n. ok (set n x);
    reset = λ x. set 0 x;
    renew = λ x. panic;
    fresh = vs.of_uint64 0;
  }

  -- `x.F != ""`
  unfoldable pub string_field : (M → Bytes) → (Bytes → M → M) → Field vs.Value M
  string_field get set = record {
    name = name;
    populated = λ x. ltb 0 (length (get x));
    read = λ x. vs.of_string (get x);
    visits = λ x. if bytes_eq (get x) [] then none else some (vs.of_string (get x));
    store = λ v x. vs.to_string v >>= λ s. ok (set s x);
    reset = λ x. set [] x;
    renew = λ x. panic;
    fresh = vs.of_string [];
  }

  unfoldable pub params_field : (M → Option Params) → (Option Params → M → M) → Field vs.Value M
  params_field get set = record {
    name = name;
    populated = λ x. present (get x);
    read = λ x. vs.of_params (get x);
    visits = λ x. elim (get x) [ none ↦ none | some p ↦ some (vs.of_params (some p)) ];
    store = λ v x. vs.to_params v >>= λ p. ok (set p x);
    reset = λ x. set none x;
    renew = λ x. renewed vs set (get x) x;
    fresh = vs.of_params (some new_params);
  }
