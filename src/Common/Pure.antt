-- ===== src/Common/Pure.antt =====
-- The operators for computations that may raise and touch no object.
use mathlib.Core.Path.{◌≡◌, refl}
use mathlib.Core.Bool.{Bool, true, false}
use mathlib.Core.Option.{Option, none, some}
use personal_assistant.Common.Exec.{Exn, Result, ok, err}

abbrev pub raise_if : Bool → Exn → Result (Unit {0})
raise_if true x = err x
raise_if false x = ok tt

abbrev pub or_raise {ℓ} : {A : Type ℓ} → Option A → Exn → Result A
or_raise none x = err x
or_raise (some a) x = ok a

infixl 5 ◌>>=◌ ◌>>◌
abbrev pub ◌>>=◌ {ℓ κ} : {A : Type ℓ} {B : Type κ} → Result A → (A → Result B) → Result B
ok a >>= k = k a
err x >>= k = err x

abbrev pub ◌>>◌ {ℓ κ} : {A : Type ℓ} {B : Type κ} → Result A → Result B → Result B
m >> k = m >>= λ _. k

-- A chain that returns has returned at its first step.
pub bind-ok {ℓ κ} :
    {A : Type ℓ} {B : Type κ} (m : Result A) (k : A → Result B) {b : B}
    → (m >>= k) ≡ ok b
    → (a : A) × (m ≡ ok a) × (k a ≡ ok b)
bind-ok (ok a) k h = (a, refl, h)
bind-ok (err x) k h = cc
