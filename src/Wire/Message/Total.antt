-- ===== src/Wire/Message/Total.antt =====
-- The decoding loop ends on every slice that Go can have, if the known fields do.
use mathlib.Core.Path.{subst}
use mathlib.Core.Option.{some-injective}
use pointpay_chain.Prelude.{
  ℕ, zero, suc, ◌+◌, ◌^◌, ◌≤◌, ◌<◌, ◌≡◌, refl, bit_and, Bool, true, false, List, [], ◌∷◌, Option,
  none, some, ltb, ◌==◌, length, if◌then◌else◌, ok, err, ◌>>◌, fail_if, returns, returns->>=,
  returns-fail_if, on_ok, passed, arith,
}
use pointpay_chain.Wire.Error.{PbFile, Message, Pb, unexpected_eof, end_group, illegal_tag}
use pointpay_chain.Wire.Varint.{read_varint}
use pointpay_chain.Wire.Varint.Decoding.{read_varint-Takes, read_varint-returns}
use pointpay_chain.Wire.Skip.{skip_field}
use pointpay_chain.Wire.Skip.Total.{skip_field-returns}
use pointpay_chain.Wire.Skip.Moves.{skip_field-Moves}
use pointpay_chain.Wire.Message.{
  Handler, Switch, Unknown, field_number, not_positive, skip_unknown, run_case, unmarshal_loop,
  unmarshal,
}

-- A case of a switch that returns, and stays within the slice.
pub record IsHandler {M : Type 0} (handler : Handler M) : Type 0 where
  pub ends :
      (wt l index : ℕ) (bytes : List ℕ) (m : M)
      → index + length bytes ≡ l
      → l < 2 ^ 63
      → returns (handler wt l index bytes m) ≡ true
  pub stays :
      (wt l index : ℕ) (bytes : List ℕ) (m m' : M) (index' : ℕ) (rest : List ℕ)
      → index + length bytes ≡ l
      → l < 2 ^ 63
      → handler wt l index bytes m ≡ ok (m', index', rest)
      → (index ≤ index') × (index' + length rest ≡ l)

abbrev pub IsSwitch : {M : Type 0} → Switch M → Type 0
IsSwitch {M} switch =
    (number : ℕ) (handler : Handler M) → switch number ≡ some handler → IsHandler handler

-- A default case that returns, moves ahead and stays within the slice.
pub record IsUnknown {M : Type 0} (unknown : Unknown M) : Type 0 where
  pub ends :
      (l index : ℕ) (bytes : List ℕ) (m : M)
      → index + length bytes ≡ l
      → l < 2 ^ 63
      → returns (unknown l index bytes m) ≡ true
  pub stays :
      (l index : ℕ) (bytes : List ℕ) (m m' : M) (index' : ℕ) (rest : List ℕ)
      → index + length bytes ≡ l
      → l < 2 ^ 63
      → unknown l index bytes m ≡ ok (m', index', rest)
      → (index < index') × (index' + length rest ≡ l)

pub skip_unknown-IsUnknown : {M : Type 0} (file : PbFile) → IsUnknown (skip_unknown {M = M} file)
unfolding skip_unknown
skip_unknown-IsUnknown file = record {
  ends = λ l index bytes m place small.
      returns->>= (skip_field file l index bytes) _
        (skip_field-returns file l index bytes place small) (λ a e. refl);
  stays = λ l index bytes m m' index' rest place small e.
      on_ok (skip_field file l index bytes) _ e λ (j, r) skipped done.
        let (ahead, there) = skip_field-Moves file l index bytes j r place small skipped in
        ground (arith, ahead, there, done);
}

-- The two ways to go on from a tag, at once: `chosen` is the case of the switch.
module _ {M : Type 0} (unknown : Unknown M) (goes_on : IsUnknown unknown) (l : ℕ)
    (small : l < 2 ^ 63) where
  run_case-returns :
      (chosen : Option (Handler M))
      → ((handler : Handler M) → chosen ≡ some handler → IsHandler handler)
      → (wt pre index : ℕ) (from_pre bytes : List ℕ) (m : M) → pre + length from_pre ≡ l
      → index + length bytes ≡ l
      → returns (run_case chosen (unknown l pre from_pre m) wt l index bytes m) ≡ true
  run_case-returns none good wt pre index from_pre bytes m at_pre place =
      goes_on.ends l pre from_pre m at_pre small
  run_case-returns (some h) good wt pre index from_pre bytes m at_pre place =
      (good h refl).ends wt l index bytes m place small

  run_case_stays :
      (chosen : Option (Handler M))
      → ((handler : Handler M) → chosen ≡ some handler → IsHandler handler)
      → (wt pre index : ℕ) (from_pre bytes : List ℕ) (m m' : M) (index' : ℕ) (rest : List ℕ)
      → pre < index
      → pre + length from_pre ≡ l
      → index + length bytes ≡ l
      → run_case chosen (unknown l pre from_pre m) wt l index bytes m ≡ ok (m', index', rest)
      → (pre < index') × (index' + length rest ≡ l)
  run_case_stays none good wt pre index from_pre bytes m m' index' rest after at_pre place e =
      goes_on.stays l pre from_pre m m' index' rest at_pre small e
  run_case_stays (some h) good wt pre index from_pre bytes m m' index' rest after at_pre place e =
      let (ahead, there) = (good h refl).stays wt l index bytes m m' index' rest place small e in
      (omega arith, there)

module _ {M : Type 0} (file : PbFile) (msg : Message) (switch : Switch M) (unknown : Unknown M)
    (good : IsSwitch switch) (goes_on : IsUnknown unknown) where
  unmarshal_loop-returns :
      (fuel l index : ℕ) (bytes : List ℕ) (m : M)
      → l < 2 ^ 63
      → index + length bytes ≡ l
      → length bytes ≤ fuel
      → returns (unmarshal_loop file msg switch unknown fuel l index bytes m) ≡ true
  unfolding unmarshal_loop
  unmarshal_loop-returns fuel l index [] m small place h = ground arith
  unmarshal_loop-returns zero l index (b ∷ bs) m small place h = absurd (omega arith)
  unmarshal_loop-returns (suc fuel) l index (b ∷ bs) m small place h =
      returns->>= (read_varint file index (b ∷ bs)) _ (read_varint-returns file (b ∷ bs) index)
        λ (wire, i1, r1) read.
          let (t, _) = read_varint-Takes file (b ∷ bs) index wire i1 r1 read in
          let first : (index < i1) × (i1 + length r1 ≡ l) = omega (arith, t.moves, t.keeps) in
          returns-fail_if (bit_and wire 0x7 == 4) (end_group msg) _ (
            returns-fail_if (not_positive (field_number wire))
              (illegal_tag msg (field_number wire) wire) _
              (returns->>= _ _
                (run_case-returns unknown goes_on l small (switch (field_number wire))
                  (λ handler e. good (field_number wire) handler e) (bit_and wire 0x7) index i1
                  (b ∷ bs) r1 m place first.1)
                λ (m', i2, r2) got.
                  let (ahead, there) =
                    run_case_stays unknown goes_on l small (switch (field_number wire))
                      (λ handler e. good (field_number wire) handler e) (bit_and wire 0x7) index i1
                      (b ∷ bs) r1 m m' i2 r2 first.0 place first.1 got in
                  unmarshal_loop-returns fuel l i2 r2 m' small there (omega arith)))

  -- `Unmarshal` ends with a message or an error on every slice: its loop never runs out of fuel.
  pub unmarshal-returns :
      (dAtA : List ℕ) (m : M)
      → length dAtA < 2 ^ 63
      → returns (unmarshal file msg switch unknown dAtA m) ≡ true
  unfolding unmarshal
  unmarshal-returns dAtA m small =
      unmarshal_loop-returns (length dAtA) (length dAtA) 0 dAtA m small (omega arith) (omega arith)

-- A property of messages that every known field keeps is one of every decoded message.
abbrev pub Keeps : {M : Type 0} → (M → Type 0) → Handler M → Type 0
Keeps {M} P handler =
    (wt l index : ℕ) (bytes : List ℕ) (m m' : M) (index' : ℕ) (rest : List ℕ)
    → P m
    → handler wt l index bytes m ≡ ok (m', index', rest)
    → P m'

abbrev pub KeepsUnknown : {M : Type 0} → (M → Type 0) → Unknown M → Type 0
KeepsUnknown {M} P unknown =
    (l index : ℕ) (bytes : List ℕ) (m m' : M) (index' : ℕ) (rest : List ℕ)
    → P m
    → unknown l index bytes m ≡ ok (m', index', rest)
    → P m'

pub skip_unknown-KeepsUnknown :
    {M : Type 0} (P : M → Type 0) (file : PbFile) → KeepsUnknown P (skip_unknown file)
unfolding skip_unknown
skip_unknown-KeepsUnknown P file l pre from_pre m m' index' rest p e =
    on_ok (skip_field file l pre from_pre) _ e
      λ (j, r) skipped done. let same : m ≡ m' = cc in rw (← same) p

module _ {M : Type 0} (P : M → Type 0) (file : PbFile) (msg : Message) (switch : Switch M)
    (unknown : Unknown M) (keeps_unknown : KeepsUnknown P unknown)
    (keeps : (number : ℕ) (handler : Handler M)
      → switch number ≡ some handler
      → Keeps P handler) where
  run_case_keeps :
      (chosen : Option (Handler M))
      → ((handler : Handler M) → chosen ≡ some handler → Keeps P handler)
      → (l pre : ℕ) (from_pre : List ℕ) (wt index : ℕ) (bytes : List ℕ) (m m' : M) (index' : ℕ)
        (rest : List ℕ)
      → P m
      → run_case chosen (unknown l pre from_pre m) wt l index bytes m ≡ ok (m', index', rest)
      → P m'
  run_case_keeps none k l pre from_pre wt index bytes m m' index' rest p e =
      keeps_unknown l pre from_pre m m' index' rest p e
  run_case_keeps (some h) k l pre from_pre wt index bytes m m' index' rest p e =
      k h refl wt l index bytes m m' index' rest p e

  unmarshal_loop_keeps :
      (fuel l index : ℕ) (bytes : List ℕ) (m m' : M)
      → P m
      → unmarshal_loop file msg switch unknown fuel l index bytes m ≡ ok m'
      → P m'
  unfolding unmarshal_loop
  unmarshal_loop_keeps fuel l index [] m m' p e =
      let (_, same) =
        passed (ltb l index) unexpected_eof (ok m) {b = m'} (ended (ltb l index) m m' e) in
      let same' : m ≡ m' = cc in rw (← same') p
    where
      ended :
          (b : Bool) (x y : M)
          → (if b then err unexpected_eof else ok x) ≡ ok y
          → ◌≡◌ {A = Pb M} (fail_if b unexpected_eof >> ok x) (ok y)
      ended true x y h = h
      ended false x y h = h
  unmarshal_loop_keeps zero l index (b ∷ bs) m m' p e = cc
  unmarshal_loop_keeps (suc fuel) l index (b ∷ bs) m m' p e =
      on_ok (read_varint file index (b ∷ bs)) _ e λ (wire, i1, r1) read e1.
        let (_, e2) = passed (bit_and wire 0x7 == 4) (end_group msg) _ e1 in
        let (_, e3) =
          passed (not_positive (field_number wire)) (illegal_tag msg (field_number wire) wire) _
            e2 in
        on_ok _ _ e3 λ (m1, i2, r2) got e4.
          unmarshal_loop_keeps fuel l i2 r2 m1 m'
            (run_case_keeps (switch (field_number wire)) (λ h q. keeps (field_number wire) h q) l
              index (b ∷ bs) (bit_and wire 0x7) i1 r1 m m1 i2 r2 p got)
            e4

  pub unmarshal_keeps :
      (dAtA : List ℕ) (m m' : M) → P m → unmarshal file msg switch unknown dAtA m ≡ ok m' → P m'
  unfolding unmarshal
  unmarshal_keeps dAtA m m' p e = unmarshal_loop_keeps (length dAtA) (length dAtA) 0 dAtA m m' p e

-- What every known case of `if b then some h else more` has.
pub each_case :
    {M : Type 0} (Q : Handler M → Type 0) (b : Bool) (h : Handler M) (more : Option (Handler M))
    → Q h
    → ((handler : Handler M) → more ≡ some handler → Q handler)
    → (handler : Handler M) → (if b then some h else more) ≡ some handler
    → Q handler
each_case Q true h more q k handler e = subst Q (some-injective _ _ e) q
each_case Q false h more q k handler e = k handler e

pub no_case :
    {M : Type 0} (Q : Handler M → Type 0) (handler : Handler M) → none ≡ some handler → Q handler
no_case Q handler e = cc
