-- ===== src/Common/Dict.antt =====
-- A Python dict: an association list in insertion order, which an update keeps.
use mathlib.Core.Path.{◌≡◌, refl, subst}
use mathlib.Core.Logic.{◌≢◌, inl, inr}
use mathlib.Core.Bool.{Bool, true}
use mathlib.Core.Option.{Option, none, some}
use mathlib.Core.List.{List, [], ◌∷◌}
use native.Mathlib.Omega.{arith}
use personal_assistant.Common.Tests.{Eq, if◌then◌else◌, Bool-cases}
use personal_assistant.Common.Lists.{All}

abbrev pub Dict {ℓ κ} : Type ℓ → Type κ → Type (ℓ ⊔ κ)
Dict K V = List (K × V)

-- `for key, value in d.items(): if p(key, value): …; return`
module _ {ℓ κ} {K : Type ℓ} {V : Type κ} where
  unfoldable pub find : (K → V → Bool) → Dict K V → Option (K × V)
  find p [] = none
  find p ((k, v) ∷ d) = if p k v then some (k, v) else find p d

  -- An entry that is found passes the test.
  pub find-passes :
      (p : K → V → Bool) (d : Dict K V) {e : K × V} → find p d ≡ some e → p e.0 e.1 ≡ true
  unfolding find
  find-passes p [] h = ground arith
  find-passes p ((k, v) ∷ d) {e} h = elim (Bool-cases (p k v)) [
    | inl found ↦ ground arith
    | inr other ↦ find-passes p d {e = e} (ground arith)
  ]

  -- What holds of every entry holds of the one that is found.
  pub find-All {μ} :
      (P : K × V → Type μ) (p : K → V → Bool) (d : Dict K V) {e : K × V}
      → All P d
      → find p d ≡ some e
      → P e
  unfolding find
  find-All P p [] all h = ground arith
  find-All P p ((k, v) ∷ d) all h = elim (Bool-cases (p k v)) [
    | inl found ↦ ground arith
    | inr other ↦ find-All P p d all.1 (ground arith)
  ]

module _ {ℓ κ} {K : Type ℓ} {V : Type κ} ⦃e : Eq K⦄ where
  -- `d.get(key)`
  unfoldable pub get : K → Dict K V → Option V
  get k [] = none
  get k ((j, v) ∷ d) = if e.is_equal j k then some v else get k d

  -- `d[key] = value`
  unfoldable pub put : K → V → Dict K V → Dict K V
  put k v [] = (k, v) ∷ []
  put k v ((j, w) ∷ d) = if e.is_equal j k then (j, v) ∷ d else (j, w) ∷ put k v d

  pub get-put :
      (k j : K) (v : V) (d : Dict K V)
      → get j (put k v d) ≡ (if e.is_equal k j then some v else get j d)
  unfolding get put
  get-put k j v [] = refl
  get-put k j v ((i, w) ∷ d) =
      ground (arith, e.is_equal_iff i k, e.is_equal_iff i j, e.is_equal_iff k j, get-put k j v d)

  pub get-put_self : (k : K) (v : V) (d : Dict K V) → get k (put k v d) ≡ some v
  get-put_self k v d = ground (arith, get-put k k v d, e.is_equal_iff k k)

  pub get-put_ne : (k j : K) (v : V) (d : Dict K V) → k ≢ j → get j (put k v d) ≡ get j d
  get-put_ne k j v d h = ground (arith, get-put k j v d, e.is_equal_iff k j)

  -- What holds of the new entry and of the old ones holds of all after a write.
  pub All-put {μ} :
      (P : K × V → Type μ) (k : K) (v : V) (d : Dict K V) → P (k, v) → All P d → All P (put k v d)
  unfolding put
  All-put P k v [] new all = (new, tt)
  All-put P k v ((j, w) ∷ d) new all = elim (Bool-cases (e.is_equal j k)) [
    | inl same ↦ rw same (subst_key same, all.1)
    | inr other ↦ rw other (all.0, All-put P k v d new all.1)
  ]
    where
      subst_key : e.is_equal j k ≡ true → P (j, v)
      subst_key same = rw ((e.is_equal_iff j k).0 same) new

  -- No key occurs twice.
  abbrev pub Distinct : Dict K V → Type κ
  Distinct [] = Unit
  Distinct ((k, v) ∷ d) = (get k d ≡ none) × Distinct d

  pub Distinct-put : (k : K) (v : V) (d : Dict K V) → Distinct d → Distinct (put k v d)
  unfolding put get
  Distinct-put k v [] h = (refl, tt)
  Distinct-put k v ((j, w) ∷ d) h =
      ground
        (arith, Distinct-put k v d h.1, get-put k j v d, e.is_equal_iff j k, e.is_equal_iff k j)

  -- With distinct keys the entry that is found is the one stored at its key.
  pub find-get :
      (p : K → V → Bool) (d : Dict K V) {k : K} {v : V}
      → Distinct d
      → find p d ≡ some (k, v)
      → get k d ≡ some v
  unfolding find get
  find-get p [] h found = ground arith
  find-get p ((j, w) ∷ d) {k} {v} h found = elim (Bool-cases (p j w)) [
    | inl here ↦ ground (arith, e.is_equal_iff j k)
    | inr later ↦ elim (Bool-cases (e.is_equal j k)) [
      | inl same ↦ ground (arith, e.is_equal_iff j k, find-get p d {k = k} {v = v} h.1)
      | inr other ↦ ground (arith, find-get p d {k = k} {v = v} h.1)
    ]
  ]

  -- A stored value passes what every entry passes.
  pub get-All {μ} :
      (P : K × V → Type μ) (k : K) (d : Dict K V) {v : V} → All P d → get k d ≡ some v → P (k, v)
  unfolding get
  get-All P k [] all h = ground arith
  get-All P k ((j, w) ∷ d) {v} all h = elim (Bool-cases (e.is_equal j k)) [
    | inl same ↦ subst P (entry same) all.0
    | inr other ↦ get-All P k d all.1 (ground arith)
  ]
    where
      entry : e.is_equal j k ≡ true → ◌≡◌ {A = K × V} (j, w) (k, v)
      entry same = ground (arith, e.is_equal_iff j k)

  -- The entry that is found is found again after its value is replaced, if it still passes.
  pub find-put :
      (p : K → V → Bool) (k : K) (v w : V) (d : Dict K V)
      → Distinct d
      → find p d ≡ some (k, v)
      → p k w ≡ true
      → find p (put k w d) ≡ some (k, w)
  unfolding find put
  find-put p k v w [] h found passes = ground arith
  find-put p k v w ((j, x) ∷ d) h found passes = elim (Bool-cases (p j x)) [
    | inl here ↦ ground (arith, e.is_equal_iff j k)
    | inr later ↦ elim (Bool-cases (e.is_equal j k)) [
      | inl same ↦ ground (arith, e.is_equal_iff j k, find-get p d {k = k} {v = v} h.1)
      | inr other ↦ ground (arith, find-put p k v w d h.1)
    ]
  ]
