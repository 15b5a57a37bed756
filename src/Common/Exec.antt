-- ===== src/Common/Exec.antt =====
-- Python exceptions, results, and methods that read and write an object and may raise. What was
-- written before a raise stays written, so the object comes back beside an exception too.
use mathlib.Core.Path.{◌≡◌, refl}
use mathlib.Core.Logic.{◌⊎◌, inl, inr}
use mathlib.Core.Bool.{Bool, true, false}
use mathlib.Core.Option.{Option, none, some}

-- `ErrorCode` (domain/common/exceptions.py)
pub data ErrorCode : Type 0 where
  validation_failed authentication_required permission_denied tenant_required : ErrorCode
  token_budget_exceeded guardrail_blocked pii_detected prompt_injection_detected : ErrorCode
  not_found conflict internal_error payload_too_large : ErrorCode

-- An `AssistantError` with its code, or a built-in exception by its class. A pydantic
-- `ValidationError` is a `ValueError`. Messages are not kept.
pub data Exn : Type 0 where
  assistant : ErrorCode → Exn
  value_error type_error runtime_error overflow_error key_error index_error : Exn

pub data Result {ℓ} (A : Type ℓ) : Type ℓ where
  ok : A → Result A
  err : Exn → Result A

abbrev pub Exec {ℓ κ} : Type ℓ → Type κ → Type (ℓ ⊔ κ)
Exec S A = S → Result A × S

module _ {ℓ κ} {S : Type ℓ} {A : Type κ} where
  abbrev pub pure : A → Exec S A
  pure a s = (ok a, s)

  abbrev pub raise : Exn → Exec S A
  raise x s = (err x, s)

  abbrev pub lift : Result A → Exec S A
  lift r s = (r, s)

  abbrev pub gets : (S → A) → Exec S A
  gets f s = (ok (f s), s)

  abbrev pub or_raise : Option A → Exn → Exec S A
  or_raise none x s = (err x, s)
  or_raise (some a) x s = (ok a, s)

module _ {ℓ} {S : Type ℓ} where
  abbrev pub modify : (S → S) → Exec S (Unit {0})
  modify f s = (ok tt, f s)

  -- `if test: raise x`
  abbrev pub raise_if : Bool → Exn → Exec S (Unit {0})
  raise_if true x s = (err x, s)
  raise_if false x s = (ok tt, s)

module _ {ℓ κ μ} {S : Type ℓ} {A : Type κ} {B : Type μ} where
  abbrev pub continue : Result A → (A → Exec S B) → Exec S B
  continue (ok a) k s = k a s
  continue (err x) k s = (err x, s)

  infixl 5 ◌>>=◌ ◌>>◌
  abbrev pub ◌>>=◌ : Exec S A → (A → Exec S B) → Exec S B
  ◌>>=◌ m k s = continue (m s).0 k (m s).1

  abbrev pub ◌>>◌ : Exec S A → Exec S B → Exec S B
  m >> k = m >>= λ _. k

-- A step that only computes leaves the object alone.
pub bind-pure_state {ℓ κ μ} :
    {S : Type ℓ} {A : Type κ} {B : Type μ} (m : Exec S A) (f : A → B) (s : S)
    → ((m >>= λ a. pure (f a)) s).1 ≡ (m s).1
bind-pure_state {S} {A} m f s = after (m s).0 (m s).1
  where
    after : (r : Result A) (s' : S) → (continue r (λ a. pure (f a)) s').1 ≡ s'
    after (ok a) s' = refl
    after (err x) s' = refl

pub err-ne-ok {ℓ} : {A : Type ℓ} {x : Exn} {a : A} → ◌≡◌ {A = Result A} (err x) (ok a) → ⊥
err-ne-ok h = cc

pub ok_inj {ℓ} : {A : Type ℓ} (a b : A) → ◌≡◌ {A = Result A} (ok a) (ok b) → a ≡ b
ok_inj a b h = cc

-- A chain that returns has returned at its first step.
pub bind-ok {ℓ κ μ} :
    {S : Type ℓ} {A : Type κ} {B : Type μ} (m : Exec S A) (k : A → Exec S B) (s : S) {b : B}
    → ((m >>= k) s).0 ≡ ok b
    → (a : A) × ((m s).0 ≡ ok a) × ((k a (m s).1).0 ≡ ok b)
bind-ok {S} {A} m k s {b} h = after (m s).0 refl
  where
    after : (r : Result A) → (m s).0 ≡ r → (a : A) × ((m s).0 ≡ ok a) × ((k a (m s).1).0 ≡ ok b)
    after (ok a) e = (a, e, rw e at h)
    after (err x) e = absurd (err-ne-ok (rw e at h))

pub bind-lift_state {ℓ κ μ} :
    {S : Type ℓ} {A : Type κ} {B : Type μ} (m : Exec S A) (f : A → Result B) (s : S)
    → ((m >>= λ a. lift (f a)) s).1 ≡ (m s).1
bind-lift_state {S} {A} m f s = after (m s).0 (m s).1
  where
    after : (r : Result A) (s' : S) → (continue r (λ a. lift (f a)) s').1 ≡ s'
    after (ok a) s' = refl
    after (err x) s' = refl

pub Result-cases {ℓ} :
    {A : Type ℓ} (r : Result A) → ((x : Exn) × (r ≡ err x)) ⊎ ((a : A) × (r ≡ ok a))
Result-cases (err x) = inl (x, refl)
Result-cases (ok a) = inr (a, refl)

-- `try: m` with handlers by the exception; what `m` wrote before it raised stays written
module _ {ℓ κ} {S : Type ℓ} {A : Type κ} where
  abbrev handle : Result A → (Exn → Exec S A) → Exec S A
  handle (ok a) handler s = (ok a, s)
  handle (err x) handler s = handler x s

  abbrev pub catch : Exec S A → (Exn → Exec S A) → Exec S A
  catch m handler s = handle (m s).0 handler (m s).1
