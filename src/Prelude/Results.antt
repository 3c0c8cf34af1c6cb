-- ===== src/Prelude/Results.antt =====
-- Rust's `Result`, `?` as the bind of a do block, and the combinators that the program calls on it.
use mathlib.Core.Bool.{Bool, true, false}
use mathlib.Core.Option.{Option, none, some}
use mathlib.Core.Path.{◌≡◌, refl}
use mathlib.Core.Logic.{◌⊎◌, inl, inr}
use native.Mathlib.Omega.{arith}

pub data Result (E A : Type 0) : Type 0 where
  ok : A → Result E A
  err : E → Result E A

module _ {E A : Type 0} where
  -- `ok_or` and `ok_or_else`.
  abbrev pub or_err : Option A → E → Result E A
  or_err o e = elim o [ some a ↦ ok a | none ↦ err e ]

  abbrev pub is_ok : Result E A → Bool
  is_ok r = elim r [ ok a ↦ true | err e ↦ false ]

  abbrev pub map_err : {F : Type 0} → (E → F) → Result E A → Result F A
  map_err f r = elim r [ ok a ↦ ok a | err e ↦ err (f e) ]

-- `if test { return Err(e) }`.
abbrev pub fail_if : {E : Type 0} → Bool → E → Result E (Unit {0})
fail_if test e = elim test [ true ↦ err e | false ↦ ok tt ]

infixl 5 ◌>>=◌ ◌>>◌
abbrev pub ◌>>=◌ : {E A B : Type 0} → Result E A → (A → Result E B) → Result E B
r >>= next = elim r [ err e ↦ err e | ok a ↦ next a ]

abbrev pub ◌>>◌ : {E A B : Type 0} → Result E A → Result E B → Result E B
r >> next = elim r [ err e ↦ err e | ok a ↦ next ]

module _ {E A : Type 0} where
  -- A check that lets the rest go on was not met, and the other way round.
  pub fail_if_ok :
      (b : Bool) (e : E) (r : Result E A) {a : A}
      → (fail_if b e >> r) ≡ ok a
      → (b ≡ false) × (r ≡ ok a)
  fail_if_ok true e r h = absurd (ground arith)
  fail_if_ok false e r h = (refl, h)

  pub fail_if_passed :
      (b : Bool) (e : E) (r : Result E A) {a : A} → b ≡ false → r ≡ ok a → (fail_if b e >> r) ≡ ok a
  fail_if_passed true e r p h = absurd (ground arith)
  fail_if_passed false e r p h = h

-- A bind that succeeds has succeeded in both parts.
pub bind_ok :
    {E A B : Type 0} (r : Result E A) (next : A → Result E B) {b : B}
    → (r >>= next) ≡ ok b
    → (a : A) × (r ≡ ok a) × (next a ≡ ok b)
bind_ok (ok a) next h = (a, refl, h)
bind_ok (err e) next h = absurd (ground arith)

pub ok_inj : {E A : Type 0} (a b : A) → ◌≡◌ {A = Result E A} (ok a) (ok b) → a ≡ b
ok_inj a b h = ground arith

-- What a bind of known parts is.
pub bind_eq :
    {E A B : Type 0} (r : Result E A) (next : A → Result E B) (a : A) {q : Result E B}
    → r ≡ ok a
    → next a ≡ q
    → (r >>= next) ≡ q
bind_eq (ok b) next a p h = ground (arith, h, ok_inj b a p)
bind_eq (err e) next a p h = absurd (ground arith)

pub Result-cases :
    {E A : Type 0} (r : Result E A) → ((a : A) × (r ≡ ok a)) ⊎ ((e : E) × (r ≡ err e))
Result-cases (ok a) = inl (a, refl)
Result-cases (err e) = inr (e, refl)
