-- ===== src/App/Export/Table.antt =====
-- Loops that rewrite the values of a store one by one: what a reader of the store finds afterwards.
use mathlib.Core.Option as Option
use pointpay_chain.Prelude.{
  ◌≡◌, refl, sym, ap, ◌∙◌, ◌⊎◌, Bool, true, false, Bool-cases, inl, inr, List, [], ◌∷◌, All, Option,
  some, if◌then◌else◌,
}
use pointpay_chain.Prelude.Text.{Bytes, bytes_eq, bytes_eq→eq}
use pointpay_chain.App.Process.{Call, done, or_panic, each}

-- A part of the state that is written by `put`, under the key of the value, and read by `get`. A write
-- succeeds, and leaves the values under other keys alone.
pub record Keyed {S V : Type 0} (get : Bytes → S → Option V) (key : V → Bytes) (put : V → Call S)
    : Type 0 where
  pub succeeds : (v : V) (s : S) → (put v s).0 ≡ false
  pub get-put_self : (v : V) (s : S) → get (key v) (put v s).1 ≡ some v
  pub get-put_ne :
      (k : Bytes) (v : V) (s : S) → bytes_eq (key v) k ≡ false → get k (put v s).1 ≡ get k s

-- Whether a key is that of some value.
unfoldable pub covers : {V : Type 0} → (V → Bytes) → List V → Bytes → Bool
covers key [] k = false
covers key (v ∷ vs) k = if bytes_eq (key v) k then true else covers key vs k

pub either_way : {A : Type 0} (c : Bool) (x y : A) → x ≡ y → (if c then x else y) ≡ x
either_way true x y e = refl
either_way false x y e = sym e

module _ {S V : Type 0} (get : Bytes → S → Option V) (key : V → Bytes) (put : V → Call S)
    (table : Keyed get key put) (f : V → V) (keeps : (v : V) → key (f v) ≡ key v) where
  pub get-put :
      (k : Bytes) (v : V) (s : S)
      → get k (put (f v) s).1 ≡ (if bytes_eq (key v) k then some (f v) else get k s)
  get-put k v s = elim (Bool-cases (bytes_eq (key v) k)) [
    | inl same ↦ rw same (
        ap (λ t. get t (put (f v) s).1) (sym (keeps v ∙ bytes_eq→eq (key v) k same))
        ∙ table.get-put_self (f v) s)
    | inr differ ↦ rw differ (table.get-put_ne k (f v) s (rw keeps differ))
  ]

  -- After a loop over values that the store `s0` holds, from a state that agrees with `s0` or with the
  -- rewritten values.
  pub rewrite_each :
      (vs : List V) (s0 s : S)
      → All (λ v. get (key v) s0 ≡ some v) vs
      → (s' : S) × (each vs (λ v. or_panic (put (f v))) s ≡ done tt s')
        × ((k : Bytes) → get k s' ≡ (if covers key vs k then Option.map f (get k s0) else get k s))
  unfolding each covers
  rewrite_each [] s0 s held = (s, refl, λ k. refl)
  rewrite_each (v ∷ vs) s0 s (here, held) =
      let s1 = (put (f v) s).1 in
      let (s', runs, reads) = rewrite_each vs s0 s1 held in
      (s', rw (table.succeeds (f v) s) runs, λ k. reads k ∙ at k (Bool-cases (bytes_eq (key v) k)))
    where
      at :
          (k : Bytes)
          → (bytes_eq (key v) k ≡ true) ⊎ (bytes_eq (key v) k ≡ false)
          → (if covers key vs k then Option.map f (get k s0) else get k (put (f v) s).1)
            ≡ (if covers key (v ∷ vs) k then Option.map f (get k s0) else get k s)
      at k (inl same) =
          let old : get k s0 ≡ some v =
            ap (λ t. get t s0) (sym (bytes_eq→eq (key v) k same)) ∙ here in
          let new : get k (put (f v) s).1 ≡ some (f v) = get-put k v s ∙ rw same refl in
          rw (same, old, new) (either_way (covers key vs k) (some (f v)) (some (f v)) refl)
      at k (inr differ) =
          let kept : get k (put (f v) s).1 ≡ get k s = get-put k v s ∙ rw differ refl in
          rw (differ, kept) refl
