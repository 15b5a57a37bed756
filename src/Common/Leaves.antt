-- ===== src/Common/Leaves.antt =====
-- Computations that leave a part of the object as it is, and what they return.
use mathlib.Core.Path.{◌≡◌, refl, sym, subst}
use mathlib.Core.Logic.{inl, inr}
use mathlib.Core.Bool.{Bool, true, false}
use personal_assistant.Common.Exec.{
  Exec, Exn, Result, ok, pure, raise, lift, raise_if, Result-cases, err-ne-ok, ok_inj, ◌>>=◌,
}

-- Where the view of the object is `v`, it stays `v`, and what is returned satisfies `Q`.
pub record Leaves {ℓ κ μ ν} {S : Type ℓ} {V : Type κ} {A : Type μ} (view : S → V) (v : V)
    (Q : A → Type ν) (m : Exec S A) : Type (ℓ ⊔ κ ⊔ μ ⊔ ν) where
  pub runs : (s : S) → view s ≡ v → (view (m s).1 ≡ v) × ((a : A) → (m s).0 ≡ ok a → Q a)

module _ {ℓ κ} {S : Type ℓ} {V : Type κ} (view : S → V) (v : V) where
  pub lift-Leaves {μ ν} :
      {A : Type μ} {Q : A → Type ν} (r : Result A)
      → ((a : A) → r ≡ ok a → Q a)
      → Leaves view v Q (lift r)
  lift-Leaves r h = record { runs = λ s e. (e, h) }

  pub pure-Leaves {μ ν} : {A : Type μ} {Q : A → Type ν} (a : A) → Q a → Leaves view v Q (pure a)
  pure-Leaves {A} {Q} a q = record { runs = λ s e. (e, λ b h. subst Q (ok_inj a b h) q) }

  pub raise-Leaves {μ ν} :
      {A : Type μ} {Q : A → Type ν} (x : Exn) → Leaves view v Q (raise {A = A} x)
  raise-Leaves x = record { runs = λ s e. (e, λ a h. absurd (err-ne-ok h)) }

  pub raise_if-Leaves : (b : Bool) (x : Exn) → Leaves view v (λ _. Unit {0}) (raise_if b x)
  raise_if-Leaves true x = record { runs = λ s e. (e, λ a h. tt) }
  raise_if-Leaves false x = record { runs = λ s e. (e, λ a h. tt) }

  pub bind-Leaves {μ ν ξ π} :
      {A : Type μ} {B : Type ν} {Q : A → Type ξ} {R : B → Type π} (m : Exec S A) (k : A → Exec S B)
      → Leaves view v Q m
      → ((a : A) → Q a → Leaves view v R (k a))
      → Leaves view v R (m >>= k)
  bind-Leaves {A} {B} {Q} {R} m k lm lk = record {
    runs = λ s e.
        let (still, found) = lm.runs s e in
        elim (Result-cases (m s).0) [
          | inl (x, raised) ↦ rw raised (still, λ b h. absurd (err-ne-ok h))
          | inr (a, returned) ↦ rw returned ((lk a (found a returned)).runs (m s).1 still)
        ];
  }

-- A computation that is looked at from one object only.
pub here-Leaves {ℓ μ ν} :
    {S : Type ℓ} {A : Type μ} {Q : A → Type ν} (m : Exec S A) (s : S)
    → (m s).1 ≡ s
    → ((a : A) → (m s).0 ≡ ok a → Q a)
    → Leaves (λ s. s) s Q m
here-Leaves {S} {A} {Q} m s still found = record {
  runs = λ s' e.
      subst (λ (x : S). ((m x).1 ≡ s) × ((a : A) → (m x).0 ≡ ok a → Q a)) (sym e) (still, found);
}

-- Where one of the two computations leaves the stores, the other decides.
module _ {ℓ κ μ ν} {S : Type ℓ} {A : Type μ} {B : Type ν} (P : S → Type κ) (s : S) where
  pub after_leaving {ξ} :
      {Q : A → Type ξ} (m : Exec S A) (k : A → Exec S B)
      → Leaves (λ s. s) s Q m
      → P s
      → ((a : A) → Q a → P (k a s).1)
      → P ((m >>= k) s).1
  after_leaving m k lm kept rest =
      let (still, found) = lm.runs s refl in
      elim (Result-cases (m s).0) [
        | inl (x, raised) ↦ rw (raised, still) kept
        | inr (a, returned) ↦ rw (returned, still) (rest a (found a returned))
      ]

  pub before_leaving :
      (m : Exec S A) (k : A → Exec S B)
      → P (m s).1
      → ((a : A) (t : S) → Leaves (λ s. s) t (λ _. Unit {0}) (k a))
      → P ((m >>= k) s).1
  before_leaving m k whole rest = elim (Result-cases (m s).0) [
    | inl (x, raised) ↦ rw raised whole
    | inr (a, returned) ↦ rw (returned, ((rest a (m s).1).runs (m s).1 refl).0) whole
  ]
