-- ===== src/Prelude/Actions.antt =====
-- Fallible calls that pass a state along: what an async function with `?` does to a server's state.
-- What was done before an error stays done.
use mathlib.Core.Path.{◌≡◌, refl}
use agent_execution_platform.Prelude.Results.{Result, ok, err, map_err}

abbrev pub Action : Type 0 → Type 0 → Type 0 → Type 0
Action S E A = S → Result E A × S

module _ {S E A : Type 0} where
  abbrev pub pure : A → Action S E A
  pure a s = (ok a, s)

  abbrev pub raise : E → Action S E A
  raise e s = (err e, s)

  abbrev pub lift : Result E A → Action S E A
  lift r s = (r, s)

  -- `map_err`, or a `context` that changes the kind of the error.
  abbrev pub raise_as : {F : Type 0} → (E → F) → Action S E A → Action S F A
  raise_as f m s = let (r, s') = m s in (map_err f r, s')

  -- `let _ = f().await`, or an error that is only logged.
  abbrev pub ignore : Action S E A → Action S E (Unit {0})
  ignore m s = (ok tt, (m s).1)

infixl 5 ◌>>=◌ ◌>>◌
abbrev pub ◌>>=◌ : {S E A B : Type 0} → Action S E A → (A → Action S E B) → Action S E B
◌>>=◌ m f s = let (r, s') = m s in elim r [ ok a ↦ f a s' | err e ↦ (err e, s') ]

abbrev pub ◌>>◌ : {S E A B : Type 0} → Action S E A → Action S E B → Action S E B
m >> k = m >>= λ _. k

module _ {S E A B : Type 0} (Q : S → Type 0) (f : A → Action S E B) where
  after : Result E A → Action S E B
  after r s' = elim r [ ok a ↦ f a s' | err e ↦ (err e, s') ]

  after_inv :
      (r : Result E A) (s' : S) → Q s' → ((a : A) → r ≡ ok a → Q (f a s').1) → Q (after r s').1
  unfolding after
  after_inv (ok a) s' h next = next a refl
  after_inv (err e) s' h next = h

  -- A state that is fit after `m`, and after each continuation of it, is fit after the whole.
  pub bind_inv :
      (m : Action S E A) (s : S)
      → Q (m s).1
      → ((a : A) → (m s).0 ≡ ok a → Q (f a (m s).1).1)
      → Q ((m >>= f) s).1
  unfolding after
  bind_inv m s h next = after_inv (m s).0 (m s).1 h next
