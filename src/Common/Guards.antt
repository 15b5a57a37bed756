-- ===== src/Common/Guards.antt =====
-- What holds of an object after a chain of tests and of reads that raise.
use mathlib.Core.Path.{◌≡◌, refl}
use mathlib.Core.Bool.{Bool, true, false}
use mathlib.Core.Option.{Option, none, some}
use personal_assistant.Common.Exec.{
  Exn, Result, ok, err, Exec, lift, or_raise, raise_if, ◌>>=◌, ◌>>◌, err-ne-ok,
}

module _ {ℓ κ μ} {S : Type ℓ} {B : Type κ} (P : S → Type μ) (s : S) (start : P s) where
  pub after-raise_if :
      (test : Bool) (x : Exn) (k : Exec S B)
      → (test ≡ false → P (k s).1)
      → P ((raise_if test x >> k) s).1
  after-raise_if true x k h = start
  after-raise_if false x k h = h refl

  pub after-lift {ν} :
      {A : Type ν} (r : Result A) (k : A → Exec S B)
      → ((a : A) → r ≡ ok a → P (k a s).1)
      → P ((lift r >>= k) s).1
  after-lift (ok a) k h = h a refl
  after-lift (err x) k h = start

  pub after-or_raise {ν} :
      {A : Type ν} (o : Option A) (x : Exn) (k : A → Exec S B)
      → ((a : A) → o ≡ some a → P (k a s).1)
      → P ((or_raise o x >>= k) s).1
  after-or_raise none x k h = start
  after-or_raise (some a) x k h = h a refl

-- A chain that returns has passed its first test.
pub raise_if-ok {ℓ κ} :
    {S : Type ℓ} {B : Type κ} (test : Bool) (x : Exn) (k : Exec S B) (s : S) {b : B}
    → ((raise_if test x >> k) s).0 ≡ ok b
    → (test ≡ false) × ((k s).0 ≡ ok b)
raise_if-ok true x k s h = absurd (err-ne-ok h)
raise_if-ok false x k s h = (refl, h)
