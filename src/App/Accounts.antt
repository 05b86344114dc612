-- ===== src/App/Accounts.antt =====
-- Which accounts pass `Validate`.
use pointpay_chain.Prelude.{
  ◌≡◌, ◌↔◌, ◌⊎◌, inl, inr, refl, Bool, true, false, not, ◌&&◌, List, [], Outcome, ok, err, panic,
  stuck, ◌>>◌, fail_if, if◌then◌else◌, ltb→lt, lt→ltb,
}
use pointpay_chain.Prelude.Text.{Bytes, bytes_eq, bytes_eq→eq, bytes_eq_refl}
use pointpay_chain.Prelude.Int.{ltb_ℤ, ◌<ℤ◌}
use pointpay_chain.App.{AccountError, vesting_times, GenesisAccount, validate_account}

err-ne-ok : {E : Type 0} (e : E) → ◌≡◌ {A = Outcome E (Unit {0})} (err e) (ok tt) → ⊥
err-ne-ok e h = cc

neither : (false ≡ true) ⊎ (false ≡ true) → ⊥
neither (inl h) = cc
neither (inr h) = cc

both : {E : Type 0} (m b : Outcome E (Unit {0})) → ((m >> b) ≡ ok tt) ↔ ((m ≡ ok tt) × (b ≡ ok tt))
both (ok u) b = (λ h. (refl, h), λ h. h.1)
both (err e) b = (λ h. cc, λ h. cc)
both panic b = (λ h. cc, λ h. cc)
both stuck b = (λ h. cc, λ h. cc)

needed : {E : Type 0} (m : Outcome E (Unit {0})) → (false ≡ true) ⊎ (m ≡ ok tt) → m ≡ ok tt
needed m (inl h) = cc
needed m (inr h) = h

is_empty : (s : Bytes) → s ≡ [] → bytes_eq s [] ≡ true
is_empty s e = rw e (bytes_eq_refl [])

-- Three tests in a row, of which the second may be left out.
all_pass :
    {E : Type 0} (zero_coins ordered no_module : Bool) (e : E) (m b : Outcome E (Unit {0}))
    → ((fail_if (not zero_coins && not ordered) e >> ((if no_module then ok tt else m) >> b))
        ≡ ok tt)
      ↔ (((zero_coins ≡ true) ⊎ (ordered ≡ true))
          × ((no_module ≡ true) ⊎ (m ≡ ok tt))
          × (b ≡ ok tt))
all_pass true ordered true e m b = (λ h. (inl refl, inl refl, h), λ h. h.2)
all_pass false true true e m b = (λ h. (inr refl, inl refl, h), λ h. h.2)
all_pass false false no_module e m b = (λ h. absurd (err-ne-ok e h), λ h. absurd (neither h.0))
all_pass true ordered false e m b = (
  λ h. (inl refl, inr ((both m b).0 h).0, ((both m b).0 h).1),
  λ h. (both m b).1 (needed m h.1, h.2),
)
all_pass false true false e m b = (
  λ h. (inr refl, inr ((both m b).0 h).0, ((both m b).0 h).1),
  λ h. (both m b).1 (needed m h.1, h.2),
)

on_sum : {A B C D : Type 0} → (A → C) → (B → D) → A ⊎ B → C ⊎ D
on_sum f g (inl a) = inl (f a)
on_sum f g (inr b) = inr (g b)

-- An account passes exactly if its vesting coins are zero or its start time is before its end time,
-- its module name is empty or the module account passes the SDK's validation, and its base account
-- passes the SDK's validation.
pub validate_account_iff :
    {Base Coins E : Type 0} (is_zero : Coins → Bool)
    (validate_module : Base → Bytes → List Bytes → Outcome (AccountError E) (Unit {0}))
    (validate_base : Base → Outcome (AccountError E) (Unit {0})) (sga : GenesisAccount Base Coins)
    → (validate_account is_zero validate_module validate_base sga ≡ ok tt) ↔ (
        ((is_zero sga.original_vesting ≡ true) ⊎ (sga.start_time <ℤ sga.end_time))
        × ((sga.module_name ≡ [])
            ⊎ (validate_module sga.base_account sga.module_name sga.module_permissions ≡ ok tt))
        × (validate_base sga.base_account ≡ ok tt))
unfolding validate_account
validate_account_iff is_zero validate_module validate_base sga =
    let (there, back) =
      all_pass (is_zero sga.original_vesting) (ltb_ℤ sga.start_time sga.end_time)
        (bytes_eq sga.module_name []) vesting_times
        (validate_module sga.base_account sga.module_name sga.module_permissions)
        (validate_base sga.base_account) in
    (
      λ h. (
        on_sum (λ z. z) (ltb→lt _ _) (there h).0,
        on_sum (bytes_eq→eq sga.module_name []) (λ z. z) (there h).1,
        (there h).2,
      ),
      λ h.
          back
            (on_sum (λ z. z) (lt→ltb _ _) h.0, on_sum (is_empty sga.module_name) (λ z. z) h.1, h.2),
    )
