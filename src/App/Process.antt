-- ===== src/App/Process.antt =====
-- A call of the application on its state. It ends with a value, with a panic, or with the end of the
-- process, `log.Fatal` and `tmos.Exit`; each time with the state that it leaves.
use pointpay_chain.Prelude.{Bool, true, false, List, [], ◌∷◌, Option, none, some}

pub data Ended (S A : Type 0) : Type 0 where
  done : A → S → Ended S A
  panicked : S → Ended S A
  exited : S → Ended S A

abbrev pub Process : Type 0 → Type 0 → Type 0
Process S A = S → Ended S A

abbrev pub go_on : {S A B : Type 0} → Ended S A → (A → Process S B) → Ended S B
go_on (done a s) f = f a s
go_on (panicked s) f = panicked s
go_on (exited s) f = exited s

infixl 5 ◌>>=◌ ◌>>◌
abbrev pub ◌>>=◌ : {S A B : Type 0} → Process S A → (A → Process S B) → Process S B
◌>>=◌ m f s = go_on (m s) f

abbrev pub ◌>>◌ : {S B : Type 0} → Process S (Unit {0}) → Process S B → Process S B
m >> k = m >>= λ _. k

abbrev pub pure : {S A : Type 0} → A → Process S A
pure a s = done a s

-- A call of the SDK that changes the state and may return an error: whether it did, and the state.
abbrev pub Call : Type 0 → Type 0
Call S = S → Bool × S

abbrev pub panic_on : {S : Type 0} → Bool → Process S (Unit {0})
panic_on true s = panicked s
panic_on false s = done tt s

abbrev pub exit_on : {S : Type 0} → Bool → Process S (Unit {0})
exit_on true s = exited s
exit_on false s = done tt s

-- `if err != nil { panic(err) }` after the call
abbrev pub or_panic : {S : Type 0} → Call S → Process S (Unit {0})
or_panic call s = panic_on (call s).0 (call s).1

-- `if err != nil { log.Fatal(err) }` after the call
abbrev pub or_exit : {S : Type 0} → Call S → Process S (Unit {0})
or_exit call s = exit_on (call s).0 (call s).1

-- The error is dropped.
abbrev pub ignored : {S : Type 0} → Call S → Process S (Unit {0})
ignored call s = done tt (call s).1

abbrev pub change : {S : Type 0} → (S → S) → Process S (Unit {0})
change f s = done tt (f s)

-- A value, or a panic where there is none.
abbrev pub value_or_panic : {S A : Type 0} → Option A → Process S A
value_or_panic none s = panicked s
value_or_panic (some a) s = done a s

abbrev pub value_or_exit : {S A : Type 0} → Option A → Process S A
value_or_exit none s = exited s
value_or_exit (some a) s = done a s

-- What is read of the state, or a panic.
abbrev pub read_or_panic : {S A : Type 0} → (S → Option A) → Process S A
read_or_panic read s = value_or_panic (read s) s

-- `for _, x := range xs`
unfoldable pub each : {S A : Type 0} → List A → (A → Process S (Unit {0})) → Process S (Unit {0})
each [] body s = done tt s
each (x ∷ xs) body s = go_on (body x s) (λ _. each xs body)

-- An iteration of the SDK with a callback that never stops it: what it visits, as it stands when the
-- iteration begins, and whether it ends with an error, which is the value.
unfoldable pub iterate :
    {S A : Type 0} → (S → List A × Bool) → (A → Process S (Unit {0})) → Process S Bool
iterate visits body s = go_on (each (visits s).0 body s) (λ _ s'. done (visits s).1 s')
