-- ===== src/Wire/Embedded/Reading.antt =====
-- What the case of the embedded field does.
use pointpay_chain.Prelude.{
  ℕ, ◌+◌, ◌^◌, ◌≤◌, ◌<◌, ◌≡◌, refl, not, ◌==◌, List, ◌++◌, length, ok, on_ok, passed, returns->>=,
  returns-fail_if, arith,
}
use pointpay_chain.Wire.Error.{PbFile, Message, wrong_wire_type}
use pointpay_chain.Wire.Varint.Groups.{varint}
use pointpay_chain.Wire.Message.{expect_wire_type, read_slice}
use pointpay_chain.Wire.Message.Total.{IsHandler, Keeps}
use pointpay_chain.Wire.Message.Fields.{read_slice_lem, read_slice-returns, read_slice_stays}
use pointpay_chain.Wire.Params.{Params, unmarshal_params}
use pointpay_chain.Wire.Params.Encoding.{IsValid}
use pointpay_chain.Wire.Params.Decoding.{unmarshal_params-returns, unmarshal_params-IsValid}
use pointpay_chain.Wire.Embedded.{params_field}

module _ {M : Type 0} (file : PbFile) (msg : Message) (number : ℕ) (get : M → Params)
    (set : M → Params → M) where
  pub params_field-IsHandler : IsHandler (params_field file msg number get set)
  unfolding params_field expect_wire_type
  params_field-IsHandler = record {
    ends = λ wt l index bytes m place small.
        returns-fail_if (not (wt == 2)) (wrong_wire_type msg number wt) _ (
          returns->>= (read_slice file l index bytes) _
            (read_slice-returns file l index bytes place small)
            λ (slice, index', rest) read.
              let (_, _, short) =
                read_slice_stays file l index bytes slice index' rest place small read in
              returns->>= (unmarshal_params slice (get m)) _
                (unmarshal_params-returns slice (get m) (omega (arith, short, small)))
                (λ p e. refl));
    stays = λ wt l index bytes m m' index' rest place small e.
        let (_, e1) = passed (not (wt == 2)) (wrong_wire_type msg number wt) _ e in
        on_ok (read_slice file l index bytes) _ e1 λ (slice, j, r) read e2.
          on_ok (unmarshal_params slice (get m)) _ e2 λ p sub done.
            let (ahead, there, _) =
              read_slice_stays file l index bytes slice j r place small read in
            ground (arith, ahead, there, done);
  }

  -- Every message whose field is valid keeps it so.
  pub params_field-Keeps :
      ((m : M) (p : Params) → get (set m p) ≡ p)
      → Keeps (λ m. IsValid (get m)) (params_field file msg number get set)
  unfolding params_field expect_wire_type
  params_field-Keeps law wt l index bytes m m' index' rest valid e =
      let (_, e1) = passed (not (wt == 2)) (wrong_wire_type msg number wt) _ e in
      on_ok (read_slice file l index bytes) _ e1 λ (slice, j, r) read e2.
        on_ok (unmarshal_params slice (get m)) _ e2 λ p sub done.
          let fine = unmarshal_params-IsValid slice (get m) p valid sub in
          let same : set m p ≡ m' = cc in rw (← same, law m p) fine

  -- The payload of the field: a length, and a message that decodes.
  pub read_params_field :
      (l index : ℕ) (s rest : List ℕ) (m : M) (p : Params)
      → index + length (varint (length s)) + length s ≤ l
      → l < 2 ^ 63
      → unmarshal_params s (get m) ≡ ok p
      → params_field file msg number get set 2 l index (varint (length s) ++ (s ++ rest)) m
        ≡ ok (set m p, index + length (varint (length s)) + length s, rest)
  unfolding params_field expect_wire_type
  read_params_field l index s rest m p fits small sub =
      rw (read_slice_lem file l index s rest fits small, sub)
