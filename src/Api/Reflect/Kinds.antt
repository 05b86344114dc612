-- ===== src/Api/Reflect/Kinds.antt =====
-- A field of any kind keeps the laws, if its getter and its setter do.
use pointpay_chain.Prelude.{
  suc, ◌∷◌, ◌==◌, ltb, lt→ltb, length, Bool-cases, inl, inr, if◌then◌else◌, arith, ℕ, ◌≡◌, refl,
  true, [], Option, none, some, ok, ◌>>=◌, on_ok,
}
use pointpay_chain.Prelude.Text.{Bytes, bytes_eq}
use pointpay_chain.Wire.Error.{Pb}
use pointpay_chain.Api.Value.{Params, new_params, Values}
use pointpay_chain.Api.Reflect.Fields.{uint64_field, string_field, present, renewed, params_field}
use pointpay_chain.Api.Reflect.Laws.{Own, Agrees}

module _ (vs : Values) {M : Type 0} (empty : M) (name : Bytes) where
  pub uint64_field-Own :
      (get : M → ℕ) (set : ℕ → M → M)
      → ((n : ℕ) (x : M) → get (set n x) ≡ n)
      → get empty ≡ 0
      → Own empty (uint64_field vs name get set)
  unfolding uint64_field
  uint64_field-Own get set law zero = record {
    stores = λ x y. (
      set (get y) x,
      rw (vs.uint64_back (get y)) refl,
      record { has = rw (law (get y) x) refl; get = rw (law (get y) x) refl },
    );
    resets = λ x. record { has = rw (law 0 x, zero) refl; get = rw (law 0 x, zero) refl };
    renews = λ x x' v e. cc;
  }

  pub string_field-Own :
      (get : M → Bytes) (set : Bytes → M → M)
      → ((s : Bytes) (x : M) → get (set s x) ≡ s)
      → get empty ≡ []
      → Own empty (string_field vs name get set)
  unfolding string_field
  string_field-Own get set law zero = record {
    stores = λ x y. (
      set (get y) x,
      rw (vs.string_back (get y)) refl,
      record { has = rw (law (get y) x) refl; get = rw (law (get y) x) refl },
    );
    resets = λ x. record { has = rw (law [] x, zero) refl; get = rw (law [] x, zero) refl };
    renews = λ x x' v e. cc;
  }

  params_renews :
      (get : M → Option Params) (set : Option Params → M → M)
      → ((p : Option Params) (x : M) → get (set p x) ≡ p)
      → (x x' : M) (v : vs.Value) (o : Option Params) → get x ≡ o
      → renewed vs set o x ≡ ok (x', v)
      → (present (get x') ≡ true) × (vs.of_params (get x') ≡ v)
  params_renews get set law x x' v none at e =
      let same : set (some new_params) x ≡ x' = cc in
      let value : vs.of_params (some new_params) ≡ v = cc in
      rw (← same, law (some new_params) x) (refl, value)
  params_renews get set law x x' v (some p) at e =
      let same : x ≡ x' = cc in
      let value : vs.of_params (some p) ≡ v = cc in rw (← same, at) (refl, value)

  pub params_field-Own :
      (get : M → Option Params) (set : Option Params → M → M)
      → ((p : Option Params) (x : M) → get (set p x) ≡ p)
      → get empty ≡ none
      → Own empty (params_field vs name get set)
  unfolding params_field
  params_field-Own get set law zero = record {
    stores = λ x y. (
      set (get y) x,
      rw (vs.params_back (get y)) refl,
      record { has = rw (law (get y) x) refl; get = rw (law (get y) x) refl },
    );
    resets = λ x. record { has = rw (law none x, zero) refl; get = rw (law none x, zero) refl };
    renews = λ x x' v e. params_renews get set law x x' v (get x) refl e;
  }

-- The tests and values of `Range` are those of `Has` and `Get`.
module _ (vs : Values) {M : Type 0} (name : Bytes) where
  pub uint64_field-Agrees : (get : M → ℕ) (set : ℕ → M → M) → Agrees (uint64_field vs name get set)
  unfolding uint64_field
  uint64_field-Agrees get set x = elim (Bool-cases (get x == 0)) [
    | inl zero ↦ rw zero refl
    | inr more ↦ rw more refl
  ]

  pub string_field-Agrees :
      (get : M → Bytes) (set : Bytes → M → M) → Agrees (string_field vs name get set)
  unfolding string_field
  string_field-Agrees get set x = by_text (get x)
    where
      by_text :
          (s : Bytes)
          → ◌≡◌ {A = Option vs.Value}
              (if bytes_eq s [] then none else some (vs.of_string s))
              (if ltb 0 (length s) then some (vs.of_string s) else none)
      by_text [] = unfold bytes_eq in refl
      by_text (c ∷ cs) =
          let long : ltb 0 (suc (length cs)) ≡ true = lt→ltb 0 (suc (length cs)) (omega arith) in
          unfold bytes_eq in rw long refl

  pub params_field-Agrees :
      (get : M → Option Params) (set : Option Params → M → M)
      → Agrees (params_field vs name get set)
  unfolding params_field
  params_field-Agrees get set x = by_pointer (get x)
    where
      by_pointer :
          (p : Option Params)
          → ◌≡◌ {A = Option vs.Value}
              (elim p [ none ↦ none | some q ↦ some (vs.of_params (some q)) ])
              (if present p then some (vs.of_params p) else none)
      by_pointer none = refl
      by_pointer (some q) = refl

-- What `Set` and `Mutable` of a field leave as it was.
pub store_keeps :
    {A T M : Type 0} (read : M → A) (r : A) (made : Pb T) (set : T → M) (x' : M)
    → ((t : T) → read (set t) ≡ r)
    → (made >>= λ t. ok (set t)) ≡ ok x'
    → read x' ≡ r
store_keeps read r made set x' law e =
    on_ok made _ e λ t got done. let same : set t ≡ x' = cc in rw (← same) (law t)

pub renewed_keeps :
    {A M : Type 0} (vs : Values) (read : M → A) (set : Option Params → M → M) (x x' : M)
    (v : vs.Value) (o : Option Params)
    → ((p : Option Params) → read (set p x) ≡ read x)
    → renewed vs set o x ≡ ok (x', v)
    → read x' ≡ read x
renewed_keeps vs read set x x' v none law e =
    let same : set (some new_params) x ≡ x' = cc in rw (← same) (law (some new_params))
renewed_keeps vs read set x x' v (some p) law e = let same : x ≡ x' = cc in rw (← same) refl
