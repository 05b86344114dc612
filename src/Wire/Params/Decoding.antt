-- ===== src/Wire/Params/Decoding.antt =====
-- What `Params.Unmarshal` reads.
use pointpay_chain.Prelude.{
  ℕ, suc, ◌+◌, ◌^◌, ◌<◌, ◌≡◌, refl, sym, ap, ◌∙◌, true, List, [], ◌∷◌, ◌++◌, none, ◌==◌,
  if◌then◌else◌, length, Bool-cases, inl, inr, ok, ◌>>=◌, not, on_ok, passed, returns, arith,
}
use mathlib.Core.List.{append-nil}
use pointpay_chain.Wire.Error.{params_pb, params_msg, wrong_wire_type}
use pointpay_chain.Wire.Varint.{IsU64, read_varint}
use pointpay_chain.Wire.Varint.Groups.{varint}
use pointpay_chain.Wire.Varint.Decoding.{read_varint-varint, read_varint-Takes, read_varint-returns}
use pointpay_chain.Wire.Message.{skip_unknown, expect_wire_type, unmarshal}
use pointpay_chain.Wire.Message.Total.{
  skip_unknown-IsUnknown, skip_unknown-KeepsUnknown, IsHandler, IsSwitch, Keeps, unmarshal-returns,
  unmarshal_keeps, each_case, no_case,
}
use pointpay_chain.Wire.Message.Fields.{loop_known, loop_end}
use pointpay_chain.Wire.Params.{
  Params, no_params, marshal, max_supply_field, switch, unmarshal_params,
}
use pointpay_chain.Wire.Params.Encoding.{IsValid, encoding, marshal-encoding}

max_supply_field-IsHandler : IsHandler max_supply_field
unfolding max_supply_field expect_wire_type
max_supply_field-IsHandler = record {
  ends =
      λ wt l index bytes m place small. ground (arith, read_varint-returns params_pb bytes index);
  stays = λ wt l index bytes m m' index' rest place small e.
      let (_, e1) = passed (not (wt == 0)) (wrong_wire_type params_msg 1 wt) _ e in
      on_ok (read_varint params_pb index bytes) _ e1 λ (v, i, r) read done.
        let (t, _) = read_varint-Takes params_pb bytes index v i r read in
        let first : (index < i) × (i + length r ≡ l) = omega (arith, t.moves, t.keeps) in
        ground (arith, first, done);
}

switch-IsSwitch : IsSwitch switch
unfolding switch
switch-IsSwitch number =
    each_case IsHandler (number == 1) max_supply_field none max_supply_field-IsHandler
      (no_case IsHandler)

-- `Params.Unmarshal` ends with a message or an error on every slice of less than
-- 2 ^ 63 bytes: it never panics, and its loop never runs out of fuel.
pub unmarshal_params-returns :
    (dAtA : List ℕ) (m : Params) → length dAtA < 2 ^ 63 → returns (unmarshal_params dAtA m) ≡ true
unfolding unmarshal_params
unmarshal_params-returns dAtA m small =
    unmarshal-returns params_pb params_msg switch (skip_unknown params_pb) switch-IsSwitch
      (skip_unknown-IsUnknown params_pb) dAtA m small

max_supply_field-Keeps : Keeps IsValid max_supply_field
unfolding max_supply_field expect_wire_type
max_supply_field-Keeps wt l index bytes m m' index' rest p e =
    let (_, e1) = passed (not (wt == 0)) (wrong_wire_type params_msg 1 wt) _ e in
    on_ok (read_varint params_pb index bytes) _ e1 λ (v, i, r) read done.
      let (t, _) = read_varint-Takes params_pb bytes index v i r read in
      ground (arith, t.in_range, done)

-- Decoding any bytes into a valid message gives a valid message.
pub unmarshal_params-IsValid :
    (dAtA : List ℕ) (m m' : Params) → IsValid m → unmarshal_params dAtA m ≡ ok m' → IsValid m'
unfolding unmarshal_params switch
unmarshal_params-IsValid dAtA m m' p e =
    unmarshal_keeps IsValid params_pb params_msg switch (skip_unknown params_pb)
      (skip_unknown-KeepsUnknown IsValid params_pb)
      (λ number.
        each_case (Keeps IsValid) (number == 1) max_supply_field none max_supply_field-Keeps
          (no_case (Keeps IsValid)))
      dAtA m m' p e

read_max_supply :
    (v l index : ℕ) (rest : List ℕ) (m : Params)
    → IsU64 v
    → max_supply_field 0 l index (varint v ++ rest) m
      ≡ ok (record m { max_supply = v }, index + length (varint v), rest)
unfolding max_supply_field expect_wire_type
read_max_supply v l index rest m u = rw (read_varint-varint params_pb v index rest u)

unmarshal_nonzero :
    (m old : Params) → IsValid m → unmarshal_params (0x8 ∷ varint m.max_supply) old ≡ ok m
unfolding unmarshal_params unmarshal switch
unmarshal_nonzero m old u =
    let v = m.max_supply in
    let n = length (varint v) in
    loop_known params_pb params_msg switch (skip_unknown params_pb) 0x8 max_supply_field n (suc n) 0
      (varint v) old m (0 + 1 + n) [] (omega arith) refl refl refl
      (ap (λ (t : List ℕ). max_supply_field 0 (suc n) (0 + 1) t old) (sym (append-nil (varint v)))
        ∙ read_max_supply v (suc n) (0 + 1) [] old u)
    ∙ loop_end params_pb params_msg switch (skip_unknown params_pb) n (suc n) (0 + 1 + n) m
        (omega arith)

-- Decoding the encoding of a message into `old` gives the message, but that a zero field, which is
-- not encoded, leaves the old value.
pub unmarshal_params-encoding :
    (m old : Params)
    → IsValid m
    → unmarshal_params (encoding m) old ≡ ok (if m.max_supply == 0 then old else m)
unfolding encoding
unmarshal_params-encoding m old u = elim (Bool-cases (m.max_supply == 0)) [
  | inl z ↦ rw z (
      unfold unmarshal_params unmarshal in
      loop_end params_pb params_msg switch (skip_unknown params_pb) 0 0 0 old refl)
  | inr z ↦ rw z (unmarshal_nonzero m old u)
]

pub unmarshal_fresh : (m : Params) → IsValid m → unmarshal_params (encoding m) no_params ≡ ok m
unmarshal_fresh m u = unmarshal_params-encoding m no_params u ∙ ap ok (zero_is_fresh m)
  where
    zero_is_fresh : (p : Params) → (if p.max_supply == 0 then no_params else p) ≡ p
    zero_is_fresh p = ground arith

-- `Params.Unmarshal` into a fresh message reads back what `Marshal` wrote, for every uint64.
pub unmarshal_params-marshal :
    (m : Params) → IsValid m → (marshal m >>= λ bz. unmarshal_params bz no_params) ≡ ok m
unmarshal_params-marshal m u = rw (marshal-encoding m u) (unmarshal_fresh m u)
