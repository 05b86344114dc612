-- ===== src/Api/Reflect/Contract.antt =====
-- What the methods promise, as an abstract state: from the name of a field to its value and whether
-- it is populated. `Set` and `Clear` update it at one name.
use mathlib.Core.Path.{fun_ext, subst}
use pointpay_chain.Prelude.{
  ◌≡◌, refl, sym, ap₂, ◌∙◌, Bool, true, false, Bool-cases, inl, inr, List, [], ◌∷◌, Option, some,
  none, if◌then◌else◌, ok, err, panic, stuck, ◌>>=◌, on_ok,
}
use pointpay_chain.Prelude.Text.{Bytes, bytes_eq, bytes_eq→eq}
use pointpay_chain.Wire.Error.{Pb}
use pointpay_chain.Api.Reflect.{
  Field, receiver, case_of, has_in, get_in, clear_in, set_in, mutable_in, visit_one, range_in,
}
use pointpay_chain.Api.Reflect.Laws.{Same, Agrees, Laws}

-- The abstract state: a name that the message does not have panics.
abbrev pub View : Type 0 → Type 0
View V = Bytes → Pb (Bool × V)

-- The abstract state of a message, by its `Has` and its `Get`.
abbrev pub view_of :
    {V M : Type 0} → (Bytes → Option M → Pb Bool) → (Bytes → Option M → Pb V) → M → View V
view_of has get x fd = do populated ← has fd (some x); v ← get fd (some x); ok (populated, v)

unfoldable pub view_in : {V M : Type 0} → List (Field V M) → M → View V
view_in fields x = view_of (has_in fields) (get_in fields) x

-- The state `new` at one name, and `old` at the others.
abbrev pub update : {V : Type 0} → View V → Bytes → View V → View V
update old fd new other = if bytes_eq fd other then new other else old other

-- The view through the case that a name has.
abbrev view_case : {V M : Type 0} → Pb (Field V M) → M → Pb (Bool × V)
view_case c x = c >>= λ f. ok (f.populated x, f.read x)

view_case_lem :
    {V M : Type 0} (c : Pb (Field V M)) (x : M)
    → ((c >>= λ f. ok (f.populated x)) >>= λ (p : Bool).
        (c >>= λ f. ok (f.read x)) >>= λ (v : V). ok (p, v))
      ≡ view_case c x
view_case_lem (ok f) x = refl
view_case_lem (err e) x = refl
view_case_lem panic x = refl
view_case_lem stuck x = refl

agree_case :
    {V M : Type 0} (c : Pb (Field V M)) (x y : M)
    → ((f : Field V M) → c ≡ ok f → Same f x y)
    → view_case c x ≡ view_case c y
agree_case (ok f) x y same = let s = same f refl in ap₂ (λ (p : Bool) v. ok (p, v)) s.has s.get
agree_case (err e) x y same = refl
agree_case panic x y same = refl
agree_case stuck x y same = refl

module _ {V M : Type 0} (fields : List (Field V M)) where
  agree_view :
      (x y : M) (fd : Bytes)
      → ((f : Field V M) → case_of fields fd ≡ ok f → Same f x y)
      → view_in fields x fd ≡ view_in fields y fd
  unfolding view_in has_in get_in receiver
  agree_view x y fd same =
      view_case_lem (case_of fields fd) x
      ∙ agree_case (case_of fields fd) x y same
      ∙ sym (view_case_lem (case_of fields fd) y)

  -- A message that agrees with `y` at one name, and with `x` at the others.
  view_update :
      (x x' y : M) (fd : Bytes) (f : Field V M)
      → case_of fields fd ≡ ok f
      → Same f x' y
      → ((other : Bytes) (g : Field V M)
          → bytes_eq fd other ≡ false
          → case_of fields other ≡ ok g
          → Same g x' x)
      → view_in fields x' ≡ update (view_in fields x) fd (view_in fields y)
  view_update x x' y fd f found here there = fun_ext λ other.
      elim (Bool-cases (bytes_eq fd other)) [
        | inl one ↦
            rw (one, sym (bytes_eq→eq fd other one))
              (agree_view x' y fd
                λ g e. let one_case : f ≡ g = cc in subst (λ t. Same t x' y) one_case here)
        | inr two ↦ rw two (agree_view x' x other (λ g e. there other g two e))
      ]

  -- `f` is the case of its own name.
  view_at :
      (x : M) (fd : Bytes) (f : Field V M)
      → case_of fields fd ≡ ok f
      → view_in fields x fd ≡ ok (f.populated x, f.read x)
  unfolding view_in has_in get_in receiver
  view_at x fd f e = rw e refl

module _ {V M : Type 0} (empty : M) (fields : List (Field V M)) (laws : Laws empty fields) where
  -- `Clear` makes its field as in a new message.
  pub view-clear :
      (fd : Bytes) (x x' : M)
      → clear_in fields fd (some x) ≡ ok x'
      → view_in fields x' ≡ update (view_in fields x) fd (view_in fields empty)
  unfolding clear_in receiver
  view-clear fd x x' e = on_ok (case_of fields fd) _ e λ f found done.
      let same : f.reset x ≡ x' = cc in
      view_update fields x x' empty fd f found
        (subst (λ t. Same f t empty) same ((laws.own fd f found).resets x))
        λ other g differ there.
          subst (λ t. Same g t x) same ((laws.apart fd other f g differ found there).resets x)

  -- `Set` takes the value that `Get` gives of any message, and makes the field as it is there.
  pub view-set :
      (fd : Bytes) (x y : M) (v : V)
      → get_in fields fd (some y) ≡ ok v
      → (x' : M) × (set_in fields fd v (some x) ≡ ok x')
        × (view_in fields x' ≡ update (view_in fields x) fd (view_in fields y))
  unfolding get_in set_in receiver
  view-set fd x y v e = on_ok (case_of fields fd) _ e λ f found done.
      let same : f.read y ≡ v = cc in
      let (x', stored, here) = (laws.own fd f found).stores x y in
      let set : f.store v x ≡ ok x' = rw (← same) stored in
      (
        x',
        rw found set,
        view_update fields x x' y fd f found here
            λ other g differ there. (laws.apart fd other f g differ found there).stores v x x' set,
      )

  -- `Mutable` leaves the field populated with the value that it gives.
  pub view-mutable :
      (fd : Bytes) (x x' : M) (v : V)
      → mutable_in fields fd (some x) ≡ ok (x', v)
      → view_in fields x' ≡ update (view_in fields x) fd (λ name. ok (true, v))
  unfolding mutable_in receiver
  view-mutable fd x x' v e = on_ok (case_of fields fd) _ e λ f found done.
      let (has, get) = (laws.own fd f found).renews x x' v done in
      view_update fields x x' x' fd f found (record { has = refl; get = refl })
        (λ other g differ there. (laws.apart fd other f g differ found there).renews x x' v done)
      ∙ fun_ext λ other. elim (Bool-cases (bytes_eq fd other)) [
        | inl one ↦
            rw (one, sym (bytes_eq→eq fd other one))
              (view_at fields x' fd f found ∙ ap₂ (λ (p : Bool) w. ok (p, w)) has get)
        | inr two ↦ rw two refl
      ]

-- What `Range` does by names alone: every name whose field is populated is visited, in order, until
-- the callback stops.
unfoldable pub walk : {V S : Type 0} → List Bytes → View V → (Bytes → V → S → S × Bool) → S → Pb S
walk [] view visit s = ok s
walk (name ∷ names) view visit s = do
  (populated, v) ← view name
  let seen = visit name v s
  let more = walk names view visit seen.0
  let skipped = walk names view visit s
  if populated then (if seen.1 then more else ok seen.0) else skipped

-- Every field of a part of the list is the case of its own name, and `Range` agrees with the others on it.
abbrev pub Listed : {V M : Type 0} → List (Field V M) → List (Field V M) → Type 0
Listed fields [] = Unit
Listed fields (f ∷ part) = (case_of fields f.name ≡ ok f) × Agrees f × Listed fields part

abbrev pub names_of : {V M : Type 0} → List (Field V M) → List Bytes
names_of [] = []
names_of (f ∷ fields) = f.name ∷ names_of fields

pub range_in-walk :
    {V M S : Type 0} (fields part : List (Field V M)) (visit : Bytes → V → S → S × Bool) (x : M)
    (s : S)
    → Listed fields part
    → range_in part visit (some x) s ≡ walk (names_of part) (view_in fields x) visit s
unfolding range_in walk receiver visit_one
range_in-walk fields [] visit x s listed = refl
range_in-walk fields (f ∷ part) visit x s (own, agrees, listed) =
    let more = range_in-walk fields part visit x (visit f.name (f.read x) s).0 listed in
    let skipped = range_in-walk fields part visit x s listed in
    elim (Bool-cases (f.populated x)) [
      | inl there ↦
          let seen : f.visits x ≡ some (f.read x) = agrees x ∙ rw there refl in
          rw (view_at fields x f.name f own, seen, there, more) refl
      | inr not_there ↦
          let unseen : f.visits x ≡ none = agrees x ∙ rw not_there refl in
          rw (view_at fields x f.name f own, unseen, not_there, skipped) refl
    ]
