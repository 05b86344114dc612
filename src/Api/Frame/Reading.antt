-- ===== src/Api/Frame/Reading.antt =====
-- What the default case of the fast paths does, which keeps the fields that a message does not know.
use mathlib.Core.List.{append_assoc, append-nil}
use pointpay_chain.Prelude.{
  ◌-◌, returns_guarded, Bool-cases, inl, inr, zero, bit_and, ◌==◌, none, some, take-append-drop, ℕ,
  suc, ◌+◌, ◌^◌, ◌≤◌, ◌<◌, ◌≡◌, refl, ap, ◌∙◌, Bool, true, false, ◌||◌, List, [], ◌∷◌, ◌++◌, ltb,
  le→ltb-false, length, length-drop, if◌then◌else◌, take, drop, ok, on_ok, passed, returns,
  returns->>=, arith,
}
use pointpay_chain.Wire.Error.{
  Message, Pb, runtime_pb, invalid_length, unexpected_eof, end_group, illegal_tag,
}
use pointpay_chain.Wire.Varint.{is_negative, read_varint}
use pointpay_chain.Wire.Message.{slice, field_number, not_positive, unmarshal_loop, unmarshal}
use pointpay_chain.Wire.Skip.{add_int, beyond}
use pointpay_chain.Wire.Skip.Moves.{beyond-false, advance_lem}
use pointpay_chain.Wire.Message.Fields.{slice_lem}
use pointpay_chain.Wire.Message.Total.{IsUnknown}
use pointpay_chain.Api.Runtime.{Runtime}
use pointpay_chain.Api.Frame.{kept, keep_unknown, decode, unmarshal_of}

module _ (rt : Runtime) {M : Type 0} (append : M → List ℕ → M) (discard : Bool) where
  append_slice :
      (l index n : ℕ) (bytes : List ℕ) (m : M)
      → index + n ≤ l
      → kept append discard m (slice l index (index + n) bytes)
        ≡ ok (if discard then m else append m (take n bytes))
  unfolding kept
  append_slice l index n bytes m within =
      let back : index + n - index ≡ n = omega arith in
      rw (slice_lem l index (index + n) bytes (omega arith) within, back)
        (elim (Bool-cases discard) [ inl drops ↦ rw drops refl | inr keeps ↦ rw keeps refl ])

  -- What a successful default case has read: some bytes, which it keeps unless told not to.
  pub keep_unknown_reads :
      (l index : ℕ) (bytes : List ℕ) (m m' : M) (index' : ℕ) (rest : List ℕ)
      → index + length bytes ≡ l
      → l < 2 ^ 63
      → keep_unknown rt.skip append discard l index bytes m ≡ ok (m', index', rest)
      → (n : ℕ) × (index' ≡ index + n)
        × (0 < n)
        × (index + n ≤ l)
        × (rest ≡ drop n bytes)
        × (m' ≡ (if discard then m else append m (take n bytes)))
  unfolding keep_unknown
  keep_unknown_reads l index bytes m m' index' rest place small e =
      on_ok (rt.skip bytes) _ e λ n skipped e1.
        let (ahead, bounded) = rt.skip_moves bytes n (omega arith) skipped in
        let (sign, e2) =
          passed (is_negative n || is_negative (add_int index n)) (invalid_length runtime_pb) _
            e1 in
        let (fits, e3) = passed (beyond (add_int index n) l) unexpected_eof _ e2 in
        let sum : add_int index n ≡ index + n = omega arith in
        let near : index + n < 2 ^ 63 = ground arith in
        let within : index + n ≤ l = beyond-false (index + n) l near (rw sum at fits) in
        let found = append_slice l index n bytes m within in
        let e4 : ok (if discard then m else append m (take n bytes), index + n, drop n bytes)
            ≡ ok (m', index', rest) =
          rw (sum, found, advance_lem index n bytes near) at e3 in
        let there : index' ≡ index + n = cc in
        let behind : rest ≡ drop n bytes = cc in
        let kept_field : m' ≡ (if discard then m else append m (take n bytes)) = cc in
        (n, there, ahead, within, behind, kept_field)

  pub keep_unknown-IsUnknown : IsUnknown (keep_unknown rt.skip append discard)
  unfolding keep_unknown
  keep_unknown-IsUnknown = record {
    ends = λ l index bytes m place small.
        returns->>= (rt.skip bytes) _ (rt.skip_ends bytes (omega arith)) λ n skipped.
          let (ahead, bounded) = rt.skip_moves bytes n (omega arith) skipped in
          let sum : add_int index n ≡ index + n = omega arith in
          returns_guarded (is_negative n || is_negative (add_int index n))
            (invalid_length runtime_pb) _
            λ sign.
              let near : index + n < 2 ^ 63 = ground arith in
              returns_guarded (beyond (add_int index n) l) unexpected_eof _ λ fits.
                let within : index + n ≤ l = beyond-false (index + n) l near (rw sum at fits) in
                let found = append_slice l index n bytes m within in
                rw (sum, found, advance_lem index n bytes near) refl;
    stays = λ l index bytes m m' index' rest place small e.
        let (n, at, ahead, fits, same, _) =
          keep_unknown_reads l index bytes m m' index' rest place small e in
        omega (arith, at, ahead, fits, ap length same, length-drop n bytes);
  }

-- A message without fields: every field is unknown to it.
module _ (rt : Runtime) {M : Type 0} (raw : M → List ℕ) (append : M → List ℕ → M)
    (law : (m : M) (s : List ℕ) → raw (append m s) ≡ raw m ++ s) (discard : Bool)
    (msg : Message) where
  -- What is kept of the bytes behind the field, and of the field.
  kept_more :
      (n : ℕ) (bytes : List ℕ) (m m1 m' : M)
      → m1 ≡ (if discard then m else append m (take n bytes))
      → raw m' ≡ raw m1 ++ (if discard then [] else drop n bytes)
      → raw m' ≡ raw m ++ (if discard then [] else bytes)
  kept_more n bytes m m1 m' first more = by_flag discard first more
    where
      by_flag :
          (b : Bool)
          → m1 ≡ (if b then m else append m (take n bytes))
          → raw m' ≡ raw m1 ++ (if b then [] else drop n bytes)
          → raw m' ≡ raw m ++ (if b then [] else bytes)
      by_flag true first more = rw first at more
      by_flag false first more =
          more
          ∙ ap (λ t. raw t ++ drop n bytes) first
          ∙ ap (λ (t : List ℕ). t ++ drop n bytes) (law m (take n bytes))
          ∙ append_assoc (raw m) (take n bytes) (drop n bytes)
          ∙ ap (λ (t : List ℕ). raw m ++ t) (take-append-drop n bytes)

  nothing : (b : Bool) → ◌≡◌ {A = List ℕ} (if b then [] else []) []
  nothing true = refl
  nothing false = refl

  loop_keeps_all :
      (fuel l index : ℕ) (bytes : List ℕ) (m m' : M)
      → index + length bytes ≡ l
      → l < 2 ^ 63
      → unmarshal_loop runtime_pb msg
          (λ number. none)
          (keep_unknown rt.skip append discard)
          fuel
          l
          index
          bytes
          m
        ≡ ok m'
      → raw m' ≡ raw m ++ (if discard then [] else bytes)
  unfolding unmarshal_loop
  loop_keeps_all fuel l index [] m m' place small e =
      let inside : ltb l index ≡ false = le→ltb-false l index (omega arith) in
      let done : ok m ≡ ok m' = rw inside at e in
      let same : m ≡ m' = cc in rw (← same, nothing discard, append-nil (raw m)) refl
  loop_keeps_all zero l index (b ∷ bs) m m' place small e = cc
  loop_keeps_all (suc fuel) l index (b ∷ bs) m m' place small e =
      on_ok (read_varint runtime_pb index (b ∷ bs)) _ e λ (wire, i1, r1) read e1.
        let (_, e2) = passed (bit_and wire 0x7 == 4) (end_group msg) _ e1 in
        let (_, e3) =
          passed (not_positive (field_number wire)) (illegal_tag msg (field_number wire) wire) _
            e2 in
        on_ok _ _ e3 λ (m1, i2, r2) got e4.
          let (n, at, _, fits, behind, first) =
            keep_unknown_reads rt append discard l index (b ∷ bs) m m1 i2 r2 place small got in
          kept_more n (b ∷ bs) m m1 m' first (
            rw behind at (
              loop_keeps_all fuel l i2 r2 m1 m'
                (omega (arith, at, fits, place, ap length behind, length-drop n (b ∷ bs))) small
                e4))

  -- Every byte that is decoded is kept, unless unknown fields are discarded.
  pub decode_keeps_all :
      (dAtA : List ℕ) (m m' : M)
      → length dAtA < 2 ^ 63
      → decode msg (λ number. none) (keep_unknown rt.skip append discard) dAtA m ≡ ok m'
      → raw m' ≡ raw m ++ (if discard then [] else dAtA)
  unfolding unmarshal
  decode_keeps_all dAtA m m' small e =
      loop_keeps_all (length dAtA) (length dAtA) 0 dAtA m m' (omega arith) small e

-- The pointer that is given in is the one that is read into.
pub unmarshal_of-returns :
    {M : Type 0} (read : List ℕ → M → Pb M) (dAtA : List ℕ) (x : M)
    → returns (read dAtA x) ≡ true
    → returns (unmarshal_of read dAtA (some x)) ≡ true
unfolding unmarshal_of
unmarshal_of-returns read dAtA x e = returns->>= (read dAtA x) _ e λ x' got. refl

pub unmarshal_of_lem :
    {M : Type 0} (read : List ℕ → M → Pb M) (dAtA : List ℕ) (x x' : M)
    → read dAtA x ≡ ok x'
    → unmarshal_of read dAtA (some x) ≡ ok (some x')
unfolding unmarshal_of
unmarshal_of_lem read dAtA x x' e = rw e refl

pub unmarshal_of_reads :
    {M : Type 0} (read : List ℕ → M → Pb M) (dAtA : List ℕ) (x x' : M)
    → unmarshal_of read dAtA (some x) ≡ ok (some x')
    → read dAtA x ≡ ok x'
unfolding unmarshal_of
unmarshal_of_reads read dAtA x x' e =
    on_ok (read dAtA x) _ e λ y got done. let same : y ≡ x' = cc in got ∙ ap ok same
