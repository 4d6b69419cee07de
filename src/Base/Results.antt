-- ===== src/Base/Results.antt =====
-- A Go function that returns `(T, error)`, or `error` beside a mutated receiver.
use mathlib.Core.Path.{◌≡◌, refl}
use mathlib.Core.Bool.{Bool, true, false}
use mathlib.Core.Option.{Option, none, some}

pub data Result {ℓ} (E A : Type ℓ) : Type ℓ where
  ok : A → Result E A
  err : E → Result E A

infixl 5 ◌>>=◌ ◌>>◌
abbrev pub ◌>>=◌ {ℓ} : {E A B : Type ℓ} → Result E A → (A → Result E B) → Result E B
ok a >>= f = f a
err e >>= f = err e

abbrev pub ◌>>◌ {ℓ} : {E B : Type ℓ} → Result E Unit → Result E B → Result E B
m >> k = m >>= λ _. k

-- `if bad { return e }`
abbrev pub reject_if {ℓ} : {E : Type ℓ} → Bool → E → Result E Unit
reject_if true e = err e
reject_if false e = ok tt

-- `v, ok := m[k]; if !ok { return e }`
abbrev pub or_fail {ℓ} : {E A : Type ℓ} → Option A → E → Result E A
or_fail none e = err e
or_fail (some a) e = ok a

-- The receiver after a call: a call that fails has written nothing.
abbrev pub after {ℓ} : {E A : Type ℓ} → A → Result E A → A
after a (ok b) = b
after a (err e) = a

abbrev pub is_ok {ℓ} : {E A : Type ℓ} → Result E A → Bool
is_ok (ok a) = true
is_ok (err e) = false

pub Result-cases {ℓ} :
    {E A : Type ℓ} (P : Result E A → Type ℓ) (r : Result E A)
    → ((a : A) → r ≡ ok a → P (ok a))
    → ((e : E) → r ≡ err e → P (err e))
    → P r
Result-cases P (ok a) good bad = good a refl
Result-cases P (err e) good bad = bad e refl
