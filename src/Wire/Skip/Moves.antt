-- ===== src/Wire/Skip/Moves.antt =====
-- Where skipping ends: behind where it began, at a position that is a valid `int`.
use pointpay_chain.Prelude.{
  ◌>>=◌, ℕ, zero, suc, ◌+◌, ◌-◌, ◌^◌, ◌≤◌, ◌<◌, ◌≡◌, refl, ap, bit_and, true, false, ◌||◌, List, [],
  ◌∷◌, Bool-cases, inl, inr, ltb→lt, ltb-false→le, le→ltb-false, lt→leb-false, length, length-drop,
  drop, on_ok, passed, ok, arith,
}
use pointpay_chain.Wire.Error.{PbFile, Pb, invalid_length, unexpected_eof}
use pointpay_chain.Wire.Varint.{read_varint, is_negative}
use pointpay_chain.Wire.Varint.Decoding.{read_varint-Takes}
use pointpay_chain.Wire.Skip.{
  add_int, before, beyond, bytes_from, skip_varint, skip_length, end_of_group, skip_value,
  skip_loop, skip, advance, skip_field,
}

-- Tests of signs and ends, for positions that are valid `int`s.
pub not_negative : (i : ℕ) → i < 2 ^ 63 → is_negative i ≡ false
not_negative i h = lt→leb-false i (2 ^ 63) h

pub before-lt : (i l : ℕ) → i < 2 ^ 63 → before i l ≡ true → i < l
before-lt i l h e = ltb→lt i l (rw (not_negative i h) at e)

pub beyond-false : (i l : ℕ) → i < 2 ^ 63 → beyond i l ≡ false → i ≤ l
beyond-false i l h e = ltb-false→le l i (rw (not_negative i h) at e)

pub le→beyond-false : (i l : ℕ) → i < 2 ^ 63 → i ≤ l → beyond i l ≡ false
le→beyond-false i l h e = rw (not_negative i h) (le→ltb-false l i e)

pub bytes_from_lem : (dAtA : List ℕ) (i : ℕ) → i < 2 ^ 63 → bytes_from dAtA i ≡ ok (drop i dAtA)
unfolding bytes_from
bytes_from_lem dAtA i h = rw (not_negative i h) refl

pub advance_lem :
    (index n : ℕ) (bytes : List ℕ)
    → index + n < 2 ^ 63
    → advance index n bytes ≡ ok (index + n, drop n bytes)
unfolding advance
advance_lem index n bytes h =
    let sum : add_int index n ≡ index + n = omega arith in
    rw (sum, not_negative (index + n) h, not_negative n (omega arith)) refl

skip_varint-ahead :
    (file : PbFile) (shift index : ℕ) (bytes : List ℕ) (index' : ℕ) (rest : List ℕ)
    → skip_varint file shift index bytes ≡ ok (index', rest)
    → (index < index') × (index' ≤ index + length bytes)
unfolding skip_varint
skip_varint-ahead file shift index [] index' rest e = ground arith
skip_varint-ahead file shift index (b ∷ bs) index' rest e =
    ground (arith, skip_varint-ahead file (shift + 7) (index + 1) bs index' rest)

skip_length-ahead :
    (file : PbFile) (index : ℕ) (bytes : List ℕ) (index' : ℕ)
    → index + length bytes < 2 ^ 63
    → skip_length file index bytes ≡ ok index'
    → index < index'
unfolding skip_length
skip_length-ahead file index bytes index' small e =
    on_ok (read_varint file index bytes) _ e λ (len, index1, rest1) read more.
      let (sign, got) = passed (is_negative len) (invalid_length file) _ more in
      let (t, _) = read_varint-Takes file bytes index len index1 rest1 read in
      let first : (index < index1) × (index1 < 2 ^ 63) = omega (arith, t.moves, t.keeps) in
      let there : add_int index1 len ≡ index' = cc in
      let sum : add_int index1 len ≡ index1 + len = ground arith in omega arith

-- Any value moves the position on, or leaves it.
pub skip_value-ahead :
    (file : PbFile) (wt index : ℕ) (bytes : List ℕ) (depth index' depth' : ℕ)
    → index + length bytes < 2 ^ 63
    → skip_value file wt index bytes depth ≡ ok (index', depth')
    → index ≤ index'
unfolding skip_value
skip_value-ahead file wt index bytes depth index' depth' small e =
    ground (arith, varint_case, length_case, group_case)
  where
    varint_case :
        ◌≡◌ {A = Pb (ℕ × ℕ)}
          (do (i, rest) ← skip_varint file 0 index bytes; ok (i, depth))
          (ok (index', depth'))
        → index ≤ index'
    varint_case e1 = on_ok (skip_varint file 0 index bytes) _ e1 λ (i, rest) got done.
        let (ahead, _) = skip_varint-ahead file 0 index bytes i rest got in
        let same : i ≡ index' = cc in omega arith

    length_case :
        ◌≡◌ {A = Pb (ℕ × ℕ)}
          (do i ← skip_length file index bytes; ok (i, depth))
          (ok (index', depth'))
        → index ≤ index'
    length_case e1 = on_ok (skip_length file index bytes) _ e1 λ i got done.
        let ahead = skip_length-ahead file index bytes i small got in
        let same : i ≡ index' = cc in omega arith

    group_case :
        ◌≡◌ {A = Pb (ℕ × ℕ)} (do d ← end_of_group file depth; ok (index, d)) (ok (index', depth'))
        → index ≤ index'
    group_case e1 =
        on_ok (end_of_group file depth) _ e1
          λ d got done. let same : index ≡ index' = cc in omega arith

-- What a round leaves: the tag lies within the slice.
pub round_place :
    (file : PbFile) (dAtA : List ℕ) (index wire i1 : ℕ) (r1 : List ℕ)
    → index < length dAtA
    → read_varint file index (drop index dAtA) ≡ ok (wire, i1, r1)
    → (index < i1) × (i1 + length r1 ≡ length dAtA)
round_place file dAtA index wire i1 r1 inside read =
    let (t, _) = read_varint-Takes file (drop index dAtA) index wire i1 r1 read in
    omega (arith, t.moves, t.keeps, length-drop index dAtA)

skip_loop-lt :
    (file : PbFile) (dAtA : List ℕ) (fuel index depth n : ℕ)
    → length dAtA < 2 ^ 63
    → index < 2 ^ 63
    → skip_loop file dAtA fuel index depth ≡ ok n
    → (index < n) × (n < 2 ^ 63)
unfolding skip_loop
skip_loop-lt file dAtA zero index depth n small low e =
    elim (Bool-cases (before index (length dAtA))) [
      | inl b ↦ let off = rw b at e in cc
      | inr b ↦ let off = rw b at e in cc
    ]
skip_loop-lt file dAtA (suc fuel) index depth n small low e =
    elim (Bool-cases (before index (length dAtA))) [
      | inr b ↦ let off = rw b at e in cc
      | inl b ↦
          let inside = before-lt index (length dAtA) low b in
          on_ok (read_varint file index (drop index dAtA)) _
            (rw (b, bytes_from_lem dAtA index low) at e)
            λ (wire, i1, r1) read e1.
              let (further, place) = round_place file dAtA index wire i1 r1 inside read in
              on_ok (skip_value file (bit_and wire 0x7) i1 r1 depth) _ e1 λ (i2, depth') got e2.
                let (sign, e3) = passed (is_negative i2) (invalid_length file) _ e2 in
                let ahead =
                  skip_value-ahead file (bit_and wire 0x7) i1 r1 depth i2 depth' (omega arith)
                    got in
                let low2 : i2 < 2 ^ 63 = ground arith in
                ground (arith, skip_loop-lt file dAtA fuel i2 depth' n small low2)
    ]

-- A field skipped in less than 2 ^ 63 bytes has one byte at least, and its length is a valid `int`.
pub skip_bounds :
    (file : PbFile) (dAtA : List ℕ) (n : ℕ)
    → length dAtA < 2 ^ 63
    → skip file dAtA ≡ ok n
    → (0 < n) × (n < 2 ^ 63)
unfolding skip
skip_bounds file dAtA n small e = skip_loop-lt file dAtA (length dAtA) 0 0 n small (omega arith) e

-- The default case moves ahead, stays within the slice, and leaves the bytes behind the field.
pub skip_field-Moves :
    (file : PbFile) (l index : ℕ) (bytes : List ℕ) (index' : ℕ) (rest : List ℕ)
    → index + length bytes ≡ l
    → l < 2 ^ 63
    → skip_field file l index bytes ≡ ok (index', rest)
    → (index < index') × (index' + length rest ≡ l)
unfolding skip_field
skip_field-Moves file l index bytes index' rest place small e =
    on_ok (skip file bytes) _ e λ n skipped e1.
      let (sign, e2) =
        passed (is_negative n || is_negative (add_int index n)) (invalid_length file) _ e1 in
      let (fits, e3) = passed (beyond (add_int index n) l) unexpected_eof _ e2 in
      let (low, high) = skip_bounds file bytes n (omega arith) skipped in
      let sum : add_int index n ≡ index + n = omega arith in
      let near : index + n < 2 ^ 63 = ground arith in
      let within : index + n ≤ l = beyond-false (index + n) l near (rw sum at fits) in
      let done : ok (index + n, drop n bytes) ≡ ok (index', rest) =
        rw (advance_lem index n bytes near) at e3 in
      let at : index + n ≡ index' = cc in
      let behind : drop n bytes ≡ rest = cc in
      let left : length (drop n bytes) ≡ length bytes - n = length-drop n bytes in
      omega (arith, ap length behind)
