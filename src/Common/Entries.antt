-- ===== src/Common/Entries.antt =====
-- Lists of entries taken from a dict: all stored there, no key twice. Both survive sorting,
-- selection and truncation.
use mathlib.Core.Path.{◌≡◌, sym, ◌∙◌}
use mathlib.Core.Logic.{◌≢◌, inl, inr}
use mathlib.Core.Bool.{Bool, true}
use mathlib.Core.Option.{none, some}
use mathlib.Core.List.{List, [], ◌∷◌}
use Prim.Native.Nat.{ℕ, zero, suc}
use native.Mathlib.Omega.{arith}
use personal_assistant.Common.Tests.{Eq, Bool-cases}
use personal_assistant.Common.Lists.{All, take, select}
use personal_assistant.Common.Dict.{Dict, get, put, Distinct, get-put_ne}
use personal_assistant.Common.Sort.{insert_by, sort_by, All-insert_by, All-sort_by}

module _ {ℓ κ} {A : Type ℓ} where
  pub All-map : (P Q : A → Type κ) → ((a : A) → P a → Q a) → (xs : List A) → All P xs → All Q xs
  All-map P Q f [] h = tt
  All-map P Q f (x ∷ xs) h = (f x h.0, All-map P Q f xs h.1)

  pub All-take : (P : A → Type κ) (n : ℕ) (xs : List A) → All P xs → All P (take n xs)
  All-take P zero xs h = tt
  All-take P (suc n) [] h = tt
  All-take P (suc n) (x ∷ xs) h = (h.0, All-take P n xs h.1)

  pub All-select : (P : A → Type κ) (p : A → Bool) (xs : List A) → All P xs → All P (select p xs)
  All-select P p [] h = tt
  All-select P p (x ∷ xs) h = elim (Bool-cases (p x)) [
    | inl kept ↦ rw kept (h.0, All-select P p xs h.1)
    | inr dropped ↦ rw dropped (All-select P p xs h.1)
  ]

  pub All-zip : (P Q : A → Type κ) (xs : List A) → All P xs → All Q xs → All (λ a. P a × Q a) xs
  All-zip P Q [] h k = tt
  All-zip P Q (x ∷ xs) h k = ((h.0, k.0), All-zip P Q xs h.1 k.1)

module _ {ℓ} {A : Type ℓ} where
  -- What is selected passes the test.
  pub select-passes : (p : A → Bool) (xs : List A) → All (λ a. p a ≡ true) (select p xs)
  select-passes p [] = tt
  select-passes p (x ∷ xs) = elim (Bool-cases (p x)) [
    | inl kept ↦ rw kept (kept, select-passes p xs)
    | inr dropped ↦ rw dropped (select-passes p xs)
  ]

module _ {ℓ κ} {K : Type ℓ} {V : Type κ} where
  -- No key occurs twice.
  abbrev pub Unique : List (K × V) → Type ℓ
  Unique [] = Unit
  Unique (e ∷ es) = All (λ f. f.0 ≢ e.0) es × Unique es

  Unique-insert_by :
      (le : K × V → K × V → Bool) (e : K × V) (es : List (K × V))
      → All (λ f. f.0 ≢ e.0) es
      → Unique es
      → Unique (insert_by le e es)
  unfolding insert_by
  Unique-insert_by le e [] h u = (tt, tt)
  Unique-insert_by le e (f ∷ es) h u = elim (Bool-cases (le e f)) [
    | inl first ↦ rw first (h, u)
    | inr later ↦ rw later (
      All-insert_by le (λ g. g.0 ≢ f.0) e es (λ q. h.0 (sym q)) u.0,
      Unique-insert_by le e es h.1 u.1,
    )
  ]

  pub Unique-sort_by :
      (le : K × V → K × V → Bool) (es : List (K × V)) → Unique es → Unique (sort_by le es)
  unfolding sort_by
  Unique-sort_by le [] u = tt
  Unique-sort_by le (e ∷ es) u =
      Unique-insert_by le e (sort_by le es) (All-sort_by le (λ f. f.0 ≢ e.0) es u.0)
        (Unique-sort_by le es u.1)

  pub Unique-take : (n : ℕ) (es : List (K × V)) → Unique es → Unique (take n es)
  Unique-take zero es u = tt
  Unique-take (suc n) [] u = tt
  Unique-take (suc n) (e ∷ es) u = (All-take (λ f. f.0 ≢ e.0) n es u.0, Unique-take n es u.1)

  pub Unique-select : (p : K × V → Bool) (es : List (K × V)) → Unique es → Unique (select p es)
  Unique-select p [] u = tt
  Unique-select p (e ∷ es) u = elim (Bool-cases (p e)) [
    | inl kept ↦ rw kept (All-select (λ f. f.0 ≢ e.0) p es u.0, Unique-select p es u.1)
    | inr dropped ↦ rw dropped (Unique-select p es u.1)
  ]

module _ {ℓ κ} {K : Type ℓ} {V : Type κ} ⦃e : Eq K⦄ where
  -- Every entry of the list is stored in the dict.
  abbrev pub StoredIn : Dict K V → List (K × V) → Type κ
  StoredIn d es = All (λ f. get f.0 d ≡ some f.1) es

  absent-key : (k : K) (d : Dict K V) → get k d ≡ none → All (λ f. f.0 ≢ k) d
  unfolding get
  absent-key k [] h = tt
  absent-key k ((j, v) ∷ d) h = elim (Bool-cases (e.is_equal j k)) [
    | inl same ↦ absurd (ground arith)
    | inr other ↦ (λ q. ground (arith, e.is_equal_iff j k), absent-key k d (ground arith))
  ]

  pub Distinct-Unique : (d : Dict K V) → Distinct d → Unique d
  Distinct-Unique [] h = tt
  Distinct-Unique ((k, v) ∷ d) h = (absent-key k d h.0, Distinct-Unique d h.1)

  get-cons_ne : (j k : K) (v : V) (d : Dict K V) → j ≢ k → get j ((k, v) ∷ d) ≡ get j d
  unfolding get
  get-cons_ne j k v d ne = ground (arith, e.is_equal_iff k j)

  get-cons_self : (k : K) (v : V) (d : Dict K V) → get k ((k, v) ∷ d) ≡ some v
  unfolding get
  get-cons_self k v d = ground (arith, e.is_equal_iff k k)

  stored-cons :
      (k : K) (v : V) (d : Dict K V) (es : List (K × V))
      → All (λ f. f.0 ≢ k) es
      → StoredIn d es
      → StoredIn ((k, v) ∷ d) es
  stored-cons k v d [] ne h = tt
  stored-cons k v d (f ∷ es) ne h =
      (get-cons_ne f.0 k v d ne.0 ∙ h.0, stored-cons k v d es ne.1 h.1)

  -- A dict with distinct keys stores its own entries.
  pub own-StoredIn : (d : Dict K V) → Distinct d → StoredIn d d
  own-StoredIn [] h = tt
  own-StoredIn ((k, v) ∷ d) h =
      (get-cons_self k v d, stored-cons k v d d (absent-key k d h.0) (own-StoredIn d h.1))

  -- A write under another key leaves the entries stored.
  pub StoredIn-put :
      (k : K) (v : V) (d : Dict K V) (es : List (K × V))
      → All (λ f. f.0 ≢ k) es
      → StoredIn d es
      → StoredIn (put k v d) es
  StoredIn-put k v d [] ne h = tt
  StoredIn-put k v d (f ∷ es) ne h =
      (get-put_ne k f.0 v d (λ q. ne.0 (sym q)) ∙ h.0, StoredIn-put k v d es ne.1 h.1)
