-- ===== src/Wire/Tx/Decoding.antt =====
-- What `MsgUpdateParams.Unmarshal` reads.
use mathlib.Core.List.{append-nil, append_assoc}
use pointpay_chain.Prelude.{
  ℕ, suc, ◌+◌, ◌-◌, ◌^◌, ◌<◌, ◌≡◌, refl, sym, ap, ◌∙◌, true, not, ◌==◌, List, [], ◌∷◌, ◌++◌, none,
  some, if◌then◌else◌, length, length-append, ok, ◌>>=◌, on_ok, passed, returns, returns->>=,
  returns-fail_if, arith,
}
use pointpay_chain.Wire.Error.{
  Pb, tx_pb, msg_update_params_msg, msg_update_params_response_msg, wrong_wire_type,
}
use pointpay_chain.Wire.Varint.Groups.{varint}
use pointpay_chain.Wire.Message.{
  skip_unknown, expect_wire_type, read_slice, unmarshal, unmarshal_loop,
}
use pointpay_chain.Wire.Message.Total.{
  skip_unknown-IsUnknown, IsHandler, IsSwitch, unmarshal-returns, each_case, no_case,
}
use pointpay_chain.Wire.Message.Fields.{
  loop_known, loop_end, read_slice_lem, read_slice-returns, read_slice_stays,
}
use pointpay_chain.Wire.Params.{no_params}
use pointpay_chain.Wire.Params.Encoding.{encoding}
use pointpay_chain.Wire.Params.Decoding.{unmarshal_fresh}
use pointpay_chain.Wire.Embedded.Writing.{field_bytes}
use pointpay_chain.Wire.Embedded.Reading.{params_field-IsHandler, read_params_field}
use pointpay_chain.Wire.Tx.{
  MsgUpdateParams, MsgUpdateParamsResponse, no_msg, marshal, authority_field, msg_params_field,
  switch, unmarshal_msg, response_switch, unmarshal_response,
}
use pointpay_chain.Wire.Tx.Encoding.{IsMsg, authority_bytes, marshal-msg_bytes}

authority_field-IsHandler : IsHandler authority_field
unfolding authority_field expect_wire_type
authority_field-IsHandler = record {
  ends = λ wt l index bytes m place small.
      returns-fail_if (not (wt == 2)) (wrong_wire_type msg_update_params_msg 1 wt) _ (
        returns->>= (read_slice tx_pb l index bytes) _
          (read_slice-returns tx_pb l index bytes place small) (λ s e. refl));
  stays = λ wt l index bytes m m' index' rest place small e.
      let (_, e1) = passed (not (wt == 2)) (wrong_wire_type msg_update_params_msg 1 wt) _ e in
      on_ok (read_slice tx_pb l index bytes) _ e1 λ (slice, j, r) read done.
        let (ahead, there, _) = read_slice_stays tx_pb l index bytes slice j r place small read in
        ground (arith, ahead, there, done);
}

msg_params_field-IsHandler : IsHandler msg_params_field
unfolding msg_params_field
msg_params_field-IsHandler =
    params_field-IsHandler tx_pb msg_update_params_msg 2 (λ m. m.params)
      (λ m p. record m { params = p })

switch-IsSwitch : IsSwitch switch
unfolding switch
switch-IsSwitch number =
    each_case IsHandler (number == 1) authority_field
      (if number == 2 then some msg_params_field else none) authority_field-IsHandler
      (each_case IsHandler (number == 2) msg_params_field none msg_params_field-IsHandler
        (no_case IsHandler))

-- `MsgUpdateParams.Unmarshal` ends with a message or an error on every slice of less than
-- 2 ^ 63 bytes: it never panics, and its loop never runs out of fuel.
pub unmarshal_msg-returns :
    (dAtA : List ℕ) (m : MsgUpdateParams)
    → length dAtA < 2 ^ 63
    → returns (unmarshal_msg dAtA m) ≡ true
unfolding unmarshal_msg
unmarshal_msg-returns dAtA m small =
    unmarshal-returns tx_pb msg_update_params_msg switch (skip_unknown tx_pb) switch-IsSwitch
      (skip_unknown-IsUnknown tx_pb) dAtA m small

-- The empty response skips every field, and so ends too.
pub unmarshal_response_ends :
    (dAtA : List ℕ) (m : MsgUpdateParamsResponse)
    → length dAtA < 2 ^ 63
    → returns (unmarshal_response dAtA m) ≡ true
unfolding unmarshal_response response_switch
unmarshal_response_ends dAtA m small =
    unmarshal-returns tx_pb msg_update_params_response_msg response_switch (skip_unknown tx_pb)
      (λ number handler e. no_case IsHandler handler e) (skip_unknown-IsUnknown tx_pb) dAtA m small

-- The second field, at the end of the slice.
read_second :
    (fuel l index : ℕ) (m old : MsgUpdateParams)
    → IsMsg m
    → old.params ≡ no_params
    → old.authority ≡ m.authority
    → index + length (field_bytes 0x12 m.params) ≡ l
    → l < 2 ^ 63
    → unmarshal_loop tx_pb msg_update_params_msg switch
        (skip_unknown tx_pb)
        (suc fuel)
        l
        index
        (field_bytes 0x12 m.params)
        old
      ≡ ok m
unfolding switch field_bytes msg_params_field
read_second fuel l index m old (u, _) fresh same place small =
    let e = encoding m.params in
    let h = varint (length e) in
    let total : length (h ++ e) ≡ length h + length e = length-append h e in
    loop_known tx_pb msg_update_params_msg switch (skip_unknown tx_pb) 0x12 msg_params_field fuel l
      index (h ++ e) old m (index + 1 + length h + length e) [] (omega arith) refl refl refl
      (ap (λ (t : List ℕ). msg_params_field 2 l (index + 1) (h ++ t) old) (sym (append-nil e))
        ∙ read_params_field tx_pb msg_update_params_msg 2 (λ x. x.params)
            (λ x p. record x { params = p }) l (index + 1) e [] old m.params (omega arith) small
            (rw fresh (unmarshal_fresh m.params u))
        ∙ ap
            (λ (a : List ℕ).
              let x : MsgUpdateParams = record { authority = a; params = m.params } in
              let r : Pb (MsgUpdateParams × ℕ × List ℕ) =
                ok (x, index + 1 + length h + length e, []) in
              r)
            same)
    ∙ loop_end tx_pb msg_update_params_msg switch (skip_unknown tx_pb) fuel l
        (index + 1 + length h + length e) m (omega arith)

-- The first field, in front of the second.
read_first :
    (m : MsgUpdateParams) (c : ℕ) (cs rest : List ℕ) (fuel l : ℕ)
    → suc (length (varint (length (c ∷ cs)))) + length (c ∷ cs) + length rest ≡ l
    → l < 2 ^ 63
    → unmarshal_loop tx_pb msg_update_params_msg switch
        (skip_unknown tx_pb)
        (suc fuel)
        l
        0
        (0xa ∷ ((varint (length (c ∷ cs)) ++ (c ∷ cs)) ++ rest))
        no_msg
      ≡ unmarshal_loop tx_pb msg_update_params_msg switch
          (skip_unknown tx_pb)
          fuel
          l
          (0 + 1 + length (varint (length (c ∷ cs))) + length (c ∷ cs))
          rest
          (record no_msg { authority = c ∷ cs })
unfolding switch authority_field expect_wire_type
read_first m c cs rest fuel l place small =
    let h = varint (length (c ∷ cs)) in
    loop_known tx_pb msg_update_params_msg switch (skip_unknown tx_pb) 0xa authority_field fuel l 0
      ((h ++ (c ∷ cs)) ++ rest) no_msg (record no_msg { authority = c ∷ cs })
      (0 + 1 + length h + length (c ∷ cs)) rest (omega arith) refl refl refl
      (rw (
        append_assoc h (c ∷ cs) rest,
        read_slice_lem tx_pb l (0 + 1) (c ∷ cs) rest (omega arith) small,
      ))

read_both :
    (m : MsgUpdateParams) (s : List ℕ)
    → IsMsg m
    → m.authority ≡ s
    → length (authority_bytes s ++ field_bytes 0x12 m.params) < 2 ^ 63
    → unmarshal_msg (authority_bytes s ++ field_bytes 0x12 m.params) no_msg ≡ ok m
unfolding unmarshal_msg unmarshal authority_bytes
read_both m [] h e fits =
    let n = length (varint (length (encoding m.params)) ++ encoding m.params) in
    unfold field_bytes in read_second n (suc n) 0 m no_msg h refl (sym e) (omega arith) fits
read_both m (c ∷ cs) h e fits =
    let fb = field_bytes 0x12 m.params in
    let v = varint (length (c ∷ cs)) in
    let k = length ((v ++ (c ∷ cs)) ++ fb) in
    let total : k ≡ length v + length (c ∷ cs) + length fb =
      omega (arith, length-append (v ++ (c ∷ cs)) fb, length-append v (c ∷ cs)) in
    let small : suc k < 2 ^ 63 = fits in
    let more : k ≡ suc (k - 1) = omega (arith, total) in
    read_first m c cs fb k (suc k) (omega (arith, total)) small
    ∙ ap
        (λ (f : ℕ).
          unmarshal_loop tx_pb msg_update_params_msg switch (skip_unknown tx_pb) f (suc k)
            (0 + 1 + length v + length (c ∷ cs)) fb (record no_msg { authority = c ∷ cs }))
        more
    ∙ read_second (k - 1) (suc k) (0 + 1 + length v + length (c ∷ cs)) m
        (record no_msg { authority = c ∷ cs }) h refl (sym e) (omega (arith, total)) small

-- `MsgUpdateParams.Unmarshal` into a fresh message reads back what `Marshal` wrote, with an empty
-- authority too, for every uint64 and every encoding of less than 2 ^ 63 bytes.
pub unmarshal_msg-marshal :
    (m : MsgUpdateParams) → IsMsg m → (marshal m >>= λ bz. unmarshal_msg bz no_msg) ≡ ok m
unmarshal_msg-marshal m h = rw (marshal-msg_bytes m h) (read_both m m.authority h refl h.1)
