-- ===== src/App/Export/Heights.antt =====
-- The creation heights of redelegations and unbonding delegations after the export's loops over them
-- (pointpay/app/export.go).
use mathlib.Core.Option as Option
use mathlib.Core.List as List
use pointpay_chain.Prelude.{
  ℕ, ◌≡◌, refl, ap, ◌∙◌, ◌⊎◌, [], ◌∷◌, Bool, true, false, inl, inr, List, All, Option, none, some,
  Option-cases, if◌then◌else◌,
}
use pointpay_chain.Prelude.Text.{Bytes}
use pointpay_chain.App.Process.{Call, done, or_panic, panic_on, iterate, go_on}
use pointpay_chain.App.Export.{zero_entries, reset_entries, reset_redelegations, reset_unbonding}
use pointpay_chain.App.Export.Env.{Entry, Unbonding, Sdk}
use pointpay_chain.App.Export.Table.{Keyed, covers, either_way, rewrite_each}

-- An iteration that visits every value that the state holds, and no other, and does not fail.
pub record Complete {S V : Type 0} (get : Bytes → S → Option V) (key : V → Bytes)
    (visits : S → List V × Bool) (s : S) : Type 0 where
  pub ends : (visits s).1 ≡ false
  pub held : All (λ v. get (key v) s ≡ some v) (visits s).0
  pub every : (k : Bytes) (v : V) → get k s ≡ some v → covers key (visits s).0 k ≡ true

-- The loop over such an iteration that writes every value as `f` makes it.
rewrite_all :
    {S Item : Type 0} (get : Bytes → S → Option Item) (key : Item → Bytes) (put : Item → Call S)
    (visits : S → List Item × Bool) (f : Item → Item) (s : S)
    → Keyed get key put
    → ((v : Item) → key (f v) ≡ key v)
    → Complete get key visits s
    → (s' : S) × (go_on (iterate visits (λ v. or_panic (put (f v))) s) panic_on ≡ done tt s')
      × ((k : Bytes) → get k s' ≡ Option.map f (get k s))
unfolding iterate
rewrite_all {Item = Item} get key put visits f s table keeps all =
    let (s', runs, reads) = rewrite_each get key put table f keeps (visits s).0 s s all.held in
    (s', rw (runs, all.ends) refl, λ k. reads k ∙ at k (Option-cases (get k s)))
  where
    at :
        (k : Bytes)
        → (get k s ≡ none) ⊎ ((v : Item) × (get k s ≡ some v))
        → (if covers key (visits s).0 k then Option.map f (get k s) else get k s)
          ≡ Option.map f (get k s)
    at k (inl gone) = rw gone (either_way (covers key (visits s).0 k) none none refl)
    at k (inr (v, there)) = rw (all.every k v there) refl

-- What a redelegation or an unbonding delegation is to be for a genesis of height zero, told
-- independently of the code: every entry was created at height zero, and nothing else differs.
abbrev pub from_zero : {D : Type 0} → Unbonding D → Unbonding D
from_zero u = record {
  entries = List.map (λ e. record { creation_height = 0; details = e.details }) u.entries;
  details = u.details;
}

zero_entries_lem :
    {D : Type 0} (es : List (Entry D))
    → zero_entries es ≡ List.map (λ e. record { creation_height = 0; details = e.details }) es
unfolding zero_entries
zero_entries_lem [] = refl
zero_entries_lem (e ∷ es) = ap (λ t. record e { creation_height = 0 } ∷ t) (zero_entries_lem es)

reset_entries_lem : {D : Type 0} (u : Unbonding D) → reset_entries u ≡ from_zero u
unfolding reset_entries
reset_entries_lem u = ap (λ es. record u { entries = es }) (zero_entries_lem u.entries)

reset_found :
    {D : Type 0} (o : Option (Unbonding D)) → Option.map reset_entries o ≡ Option.map from_zero o
reset_found none = refl
reset_found (some u) = ap some (reset_entries_lem u)

module _ (sdk : Sdk) (h : ℕ) (find : Bytes → sdk.State → Option (Unbonding sdk.Data))
    (key : sdk.Data → Bytes) (s : sdk.State) where
  -- If a write of a redelegation succeeds and leaves those under other keys alone, and the iteration
  -- visits every redelegation of the state, then the loop ends, and every redelegation is as before
  -- but for its creation heights, which are zero.
  pub reset_redelegations_lem :
      Keyed find (λ u. key u.details) (sdk.set_redelegation h)
      → Complete find (λ u. key u.details) (sdk.iterate_redelegations h) s
      → (s' : sdk.State) × (reset_redelegations sdk h s ≡ done tt s')
        × ((k : Bytes) → find k s' ≡ Option.map from_zero (find k s))
  unfolding reset_redelegations reset_entries
  reset_redelegations_lem table all =
      let (s', runs, reads) =
        rewrite_all find (λ u. key u.details) (sdk.set_redelegation h) (sdk.iterate_redelegations h)
          reset_entries s table (λ u. refl) all in
      (s', runs, λ k. reads k ∙ reset_found (find k s))

  -- The same of the unbonding delegations.
  pub reset_unbonding_lem :
      Keyed find (λ u. key u.details) (sdk.set_unbonding h)
      → Complete find (λ u. key u.details) (sdk.iterate_unbonding h) s
      → (s' : sdk.State) × (reset_unbonding sdk h s ≡ done tt s')
        × ((k : Bytes) → find k s' ≡ Option.map from_zero (find k s))
  unfolding reset_unbonding reset_entries
  reset_unbonding_lem table all =
      let (s', runs, reads) =
        rewrite_all find (λ u. key u.details) (sdk.set_unbonding h) (sdk.iterate_unbonding h)
          reset_entries s table (λ u. refl) all in
      (s', runs, λ k. reads k ∙ reset_found (find k s))
