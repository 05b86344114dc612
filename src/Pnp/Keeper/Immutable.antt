-- ===== src/Pnp/Keeper/Immutable.antt =====
-- What a message of pointpay/x/pnp can do to the stored parameters: nothing that a reader could see.
use mathlib.Core.Path.{subst}
use pointpay_chain.Prelude.{
  ◌≡◌, ◌≢◌, ◌⊎◌, inl, inr, refl, sym, ap, ◌∙◌, true, false, Outcome, ok, err, panic, stuck,
  Bool-cases, arith,
}
use pointpay_chain.Prelude.Text.{bytes_eq, bytes_eq→eq, bytes_eq_refl}
use pointpay_chain.Wire.Params.{Params}
use pointpay_chain.Wire.Params.Encoding.{IsValid}
use pointpay_chain.Wire.Tx.{MsgUpdateParams, MsgUpdateParamsResponse, response}
use pointpay_chain.Pnp.Types.{
  AppError, invalid_authority, supply_immutable, default_max_supply, new_params, default_params,
}
use pointpay_chain.Pnp.Keeper.Env.{Codec, KvStore}
use pointpay_chain.Pnp.Keeper.{Keeper, set_params, update_params, pure, ◌>>◌, go_on, raise_if}
use pointpay_chain.Pnp.Keeper.Storage.{stored, get_params-stored}
use pointpay_chain.Pnp.Keeper.Updates.{
  params_of, whole_read, changes_supply, after_reading, update_params_accepts,
}

module _ (cdc : Codec) (kv : KvStore) where
  open kv use {Store, get, set}

  default_params-IsValid : IsValid default_params
  unfolding default_params
  default_params-IsValid = omega arith

  asks_default :
      (req : MsgUpdateParams) (cur : Params)
      → changes_supply cdc kv req cur ≡ false
      → req.params.max_supply ≡ default_max_supply
  asks_default req cur e = ground arith

  holds_default :
      (req : MsgUpdateParams) (cur : Params)
      → changes_supply cdc kv req cur ≡ false
      → cur.max_supply ≡ default_max_supply
  holds_default req cur e = ground arith

  -- A supply that no test objects to is the default supply, stored already.
  keeps_supply :
      (req : MsgUpdateParams) (cur : Params)
      → changes_supply cdc kv req cur ≡ false
      → (req.params ≡ default_params) × (cur ≡ default_params)
  unfolding default_params new_params
  keeps_supply req cur e =
      (ap new_params (asks_default req cur e), ap new_params (holds_default req cur e))

  -- The outcomes of a message: refused or panicking with the store as it was, or accepted with the
  -- default parameters written to a store that holds them.
  abbrev pub Effect : Store → Outcome AppError MsgUpdateParamsResponse × Store → Type 0
  Effect s (r, s') =
      ((r ≢ ok response) × (s' ≡ s))
      ⊎ ((r ≡ ok response)
          × (params_of cdc kv s ≡ ok default_params)
          × (s' ≡ stored cdc kv default_params s))

  refused :
      (s : Store) (x : Outcome AppError MsgUpdateParamsResponse × Store)
      (r : Outcome AppError MsgUpdateParamsResponse)
      → r ≢ ok response
      → x ≡ (r, s)
      → Effect s x
  refused s x r bad e = subst (Effect s) (sym e) (inl (bad, refl))

  other_sender :
      (k : Keeper) (req : MsgUpdateParams) (s : Store)
      → bytes_eq k.authority req.authority ≡ false
      → update_params cdc kv k req s ≡ (err (invalid_authority k.authority req.authority), s)
  unfolding update_params
  other_sender k req s differs = rw differs

  same_params :
      (s : Store) (x : Outcome AppError MsgUpdateParamsResponse × Store)
      → Effect s x
      → params_of cdc kv x.1 ≡ params_of cdc kv s
  same_params s x (inl (bad, e)) = ap (params_of cdc kv) e
  same_params s x (inr (good, holds, e)) =
      ap (params_of cdc kv) e
      ∙ ap (λ r. r.0) (get_params-stored cdc kv default_params s default_params-IsValid)
      ∙ sym holds

  -- A read that did not give parameters ends the authority's message.
  unread :
      (k : Keeper) (req : MsgUpdateParams) (s : Store) (r : Outcome AppError Params)
      → req.authority ≡ k.authority
      → params_of cdc kv s ≡ r
      → update_params cdc kv k req s
        ≡ go_on
            (r, s)
            λ cur.
              raise_if (changes_supply cdc kv req cur) supply_immutable
              >> (set_params cdc kv req.params >> pure response)
  unfolding update_params
  unread k req s r same read = rw (← same, bytes_eq_refl req.authority, whole_read cdc kv s r read)

  accepted-Effect :
      (k : Keeper) (req : MsgUpdateParams) (s : Store) (cur : Params)
      → req.authority ≡ k.authority
      → params_of cdc kv s ≡ ok cur
      → changes_supply cdc kv req cur ≡ false
      → Effect s (update_params cdc kv k req s)
  accepted-Effect k req s cur same read keeps =
      let (asks, holds) = keeps_supply req cur keeps in
      subst (Effect s) (sym (update_params_accepts cdc kv k req s same (read ∙ ap ok holds) asks))
        (inr (refl, read ∙ ap ok holds, refl))

  -- The authority's message, by what the store holds.
  authority-Effect :
      (k : Keeper) (req : MsgUpdateParams) (s : Store) (r : Outcome AppError Params)
      → req.authority ≡ k.authority
      → params_of cdc kv s ≡ r
      → Effect s (update_params cdc kv k req s)
  authority-Effect k req s (ok cur) same read = elim (Bool-cases (changes_supply cdc kv req cur)) [
    | inl change ↦
        refused s _ (err supply_immutable) (λ e. cc)
          (after_reading cdc kv k req s cur true same read change)
    | inr keeps ↦ accepted-Effect k req s cur same read keeps
  ]
  authority-Effect k req s (err x) same read =
      refused s _ (err x) (λ e. cc) (unread k req s (err x) same read)
  authority-Effect k req s panic same read =
      refused s _ panic (λ e. cc) (unread k req s panic same read)
  authority-Effect k req s stuck same read =
      refused s _ stuck (λ e. cc) (unread k req s stuck same read)

  -- Whatever a message asks for and whoever sends it: it is not accepted and leaves the store alone, or
  -- the store holds the default parameters and gets the default parameters written again.
  pub update_params-Effect :
      (k : Keeper) (req : MsgUpdateParams) (s : Store) → Effect s (update_params cdc kv k req s)
  update_params-Effect k req s = elim (Bool-cases (bytes_eq k.authority req.authority)) [
    | inl same ↦
        authority-Effect k req s (params_of cdc kv s)
          (sym (bytes_eq→eq k.authority req.authority same)) refl
    | inr differs ↦
        refused s _ (err (invalid_authority k.authority req.authority)) (λ e. cc)
          (other_sender k req s differs)
  ]

  -- No message changes the parameters that a later read finds.
  pub params_of-update_params :
      (k : Keeper) (req : MsgUpdateParams) (s : Store)
      → params_of cdc kv (update_params cdc kv k req s).1 ≡ params_of cdc kv s
  params_of-update_params k req s = same_params s _ (update_params-Effect k req s)
