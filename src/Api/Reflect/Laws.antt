-- ===== src/Api/Reflect/Laws.antt =====
-- What the cases of a message owe each other: a method changes its own field and no other one.
use pointpay_chain.Prelude.{
  some, none, if◌then◌else◌, ◌≡◌, sym, ◌∙◌, true, false, Bool-cases, inl, inr, List, [], ◌∷◌, ok,
  panic, ◌>>=◌, refl,
}
use mathlib.Core.Path.{subst}
use pointpay_chain.Prelude.Text.{Bytes, bytes_eq, bytes_eq→eq, bytes_eq_refl}
use pointpay_chain.Wire.Error.{Pb}
use pointpay_chain.Api.Reflect.{Field, case_of}

-- Two messages agree on a field.
pub record Same {V M : Type 0} (f : Field V M) (x y : M) : Type 0 where
  pub has : f.populated x ≡ f.populated y
  pub get : f.read x ≡ f.read y

-- The value of the field of `y` can be stored, and is the field's afterwards; `Clear` makes the field
-- as it is in a new message; `Mutable` leaves it populated and gives its value.
pub record Own {V M : Type 0} (empty : M) (f : Field V M) : Type 0 where
  pub stores : (x y : M) → (x' : M) × (f.store (f.read y) x ≡ ok x') × Same f x' y
  pub resets : (x : M) → Same f (f.reset x) empty
  pub renews :
      (x x' : M) (v : V) → f.renew x ≡ ok (x', v) → (f.populated x' ≡ true) × (f.read x' ≡ v)

-- `Range` visits the field if `Has` says that it is populated, with the value of `Get`.
abbrev pub Agrees : {V M : Type 0} → Field V M → Type 0
Agrees {V} {M} f = (x : M) → f.visits x ≡ (if f.populated x then some (f.read x) else none)

-- What is done to the field `f` leaves the field `g` alone.
pub record Apart {V M : Type 0} (f g : Field V M) : Type 0 where
  pub stores : (v : V) (x x' : M) → f.store v x ≡ ok x' → Same g x' x
  pub resets : (x : M) → Same g (f.reset x) x
  pub renews : (x x' : M) (v : V) → f.renew x ≡ ok (x', v) → Same g x' x

pub record Laws {V M : Type 0} (empty : M) (fields : List (Field V M)) : Type 0 where
  pub own : (fd : Bytes) (f : Field V M) → case_of fields fd ≡ ok f → Own empty f
  pub apart :
      (fd other : Bytes) (f g : Field V M)
      → bytes_eq fd other ≡ false
      → case_of fields fd ≡ ok f
      → case_of fields other ≡ ok g
      → Apart f g

-- A case is that of the field in front, or a later one.
case_of-cases :
    {V M : Type 0} {P : Type 0} (f : Field V M) (fields : List (Field V M)) (fd : Bytes)
    (g : Field V M)
    → case_of (f ∷ fields) fd ≡ ok g
    → (f.name ≡ fd → f ≡ g → P)
    → (case_of fields fd ≡ ok g → P)
    → P
unfolding case_of
case_of-cases f fields fd g e first later = elim (Bool-cases (bytes_eq f.name fd)) [
  | inl same ↦ let here : ok f ≡ ok g = rw same at e in first (bytes_eq→eq f.name fd same) cc
  | inr differ ↦ later (rw differ at e)
]

-- A message without fields.
pub no_fields-Laws : {V M : Type 0} (empty : M) → Laws {V = V} empty []
unfolding case_of
no_fields-Laws empty = record { own = λ fd f e. cc; apart = λ fd other f g differ e e'. cc }

-- A name is not another one's.
one_name :
    {P : Type 0} (name fd other : Bytes) → bytes_eq fd other ≡ false → name ≡ fd → name ≡ other → P
one_name name fd other differ e e' =
    let same : bytes_eq fd other ≡ true = rw (sym e ∙ e') (bytes_eq_refl other) in cc

-- A message with one field.
pub field-Laws : {V M : Type 0} (empty : M) (f : Field V M) → Own empty f → Laws empty (f ∷ [])
unfolding case_of
field-Laws empty f own = record {
  own = λ fd g e. case_of-cases f [] fd g e (λ n same. subst (Own empty) same own) (λ e1. cc);
  apart = λ fd other g h differ e e'.
      case_of-cases f [] fd g e
        (λ n same.
          case_of-cases f [] other h e' (λ n' same'. one_name f.name fd other differ n n')
            (λ e1. cc))
        (λ e1. cc);
}

-- A message with two fields.
pub two_fields-Laws :
    {V M : Type 0} (empty : M) (f g : Field V M)
    → Own empty f
    → Own empty g
    → Apart f g
    → Apart g f
    → Laws empty (f ∷ g ∷ [])
unfolding case_of
two_fields-Laws {V} {M} empty f g own own' fg gf = record {
  own = λ fd h e.
      case_of-cases f (g ∷ []) fd h e (λ n same. subst (Own empty) same own)
        (λ e1. case_of-cases g [] fd h e1 (λ n same. subst (Own empty) same own') (λ e2. cc));
  apart = λ fd other h k differ e e'.
      case_of-cases f (g ∷ []) fd h e
        (λ n same.
          case_of-cases f (g ∷ []) other k e' (λ n' same'. one_name f.name fd other differ n n')
            (λ e1.
              later other k e1 λ n' same'. subst (Apart h) same' (subst (λ t. Apart t g) same fg)))
        (λ e1. later fd h e1 λ n same.
          case_of-cases f (g ∷ []) other k e'
            (λ n' same'. subst (Apart h) same' (subst (λ t. Apart t f) same gf))
            (λ e2. later other k e2 λ n' same'. one_name g.name fd other differ n n'));
}
  where
    later :
        {P : Type 0} (fd : Bytes) (k : Field V M)
        → case_of (g ∷ []) fd ≡ ok k
        → (g.name ≡ fd → g ≡ k → P)
        → P
    later fd k e go = case_of-cases g [] fd k e go (λ e1. unfold case_of in cc)

-- Where the code panics in every case, it panics for every name.
pub every_case_panics :
    {V M B : Type 0} (fields : List (Field V M)) (fd : Bytes) (go : Field V M → Pb B)
    → ((f : Field V M) → go f ≡ panic)
    → (case_of fields fd >>= go) ≡ panic
unfolding case_of
every_case_panics [] fd go panics = refl
every_case_panics (f ∷ fields) fd go panics = elim (Bool-cases (bytes_eq f.name fd)) [
  | inl same ↦ rw same (panics f)
  | inr differ ↦ rw differ (every_case_panics fields fd go panics)
]
