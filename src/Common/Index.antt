-- ===== src/Common/Index.antt =====
-- A store keyed by (tenant, idempotency key), with an index from (tenant, id) to the key.
use text.Mathlib.TextEquality.{eq_iff}
use Prim.Native.String.{String}
use mathlib.Core.Path.{◌≡◌, refl, sym, ◌∙◌, ap, subst}
use mathlib.Core.Logic.{inl, inr}
use mathlib.Core.Bool.{Bool, true, false, not}
use mathlib.Core.Option.{Option, none, some}
use native.Mathlib.Omega.{arith}
use personal_assistant.Common.Tests.{Eq, ◌==◌, text_eq, pair_eq, Bool-cases}
use personal_assistant.Common.Dict.{Dict, get, put, get-put, get-put_self}

-- (tenant, key)
abbrev pub Key : Type 0
Key = String × String

abbrev pub key_eq : Eq Key
key_eq = pair_eq ⦃e = text_eq⦄ ⦃f = text_eq⦄

-- `existing_key is not None and existing_key != idempotency_key`
abbrev pub is_taken : Option String → String → Bool
is_taken none key = false
is_taken (some k) key = not (k == key)

not_taken : (o : Option String) (k key : String) → is_taken o key ≡ false → o ≡ some k → k ≡ key
not_taken o k key h e = ground (arith, eq_iff k key)

-- An index entry that is not taken by another key is the same before and after the write.
pub index_kept :
    (i j : Key) (key k : String) (d : Dict Key String)
    → is_taken (get i d) key ≡ false
    → get j d ≡ some k
    → get j (put i key d) ≡ some k
index_kept i j key k d free old = elim (Bool-cases (key_eq.is_equal i j)) [
  | inr other ↦ rw get-put (rw other old)
  | inl same ↦
      let e : i ≡ j = (key_eq.is_equal_iff i j).0 same in
      rw get-put (rw same (ap some (sym (not_taken (get i d) k key free (rw e old)))))
]

-- The value read after a write is the one written, or an old one under another key.
pub get-put_cases {ℓ κ} :
    {V : Type ℓ} (P : Key → V → Type κ) (i k : Key) (v w : V) (d : Dict Key V)
    → P i v
    → (get k d ≡ some w → P k w)
    → get k (put i v d) ≡ some w
    → P k w
get-put_cases P i k v w d new old h = elim (Bool-cases (key_eq.is_equal i k)) [
  | inl same ↦ let (e, f) = key_at same in subst (λ j. P j w) e (subst (P i) f new)
  | inr other ↦ old (sym (rw get-put (rw other refl)) ∙ h)
]
  where
    key_at : key_eq.is_equal i k ≡ true → (i ≡ k) × (v ≡ w)
    key_at same = ((key_eq.is_equal_iff i k).0 same, ground (arith, get-put i k v d))

module _ {ℓ} {V : Type ℓ} (tenant_of key_of id_of : V → String) where
  -- Every value stands under its tenant and key, and the index finds that key by the value's id.
  abbrev pub IsIndexed : Dict Key V → Dict Key String → Type ℓ
  IsIndexed d index =
      (k : Key) (v : V)
      → get k d ≡ some v
      → (k ≡ (tenant_of v, key_of v)) × (get (tenant_of v, id_of v) index ≡ some (key_of v))

  module _ (v : V) (d : Dict Key V) (index : Dict Key String) where
    abbrev own_key : Key
    own_key = (tenant_of v, key_of v)

    abbrev own_id : Key
    own_id = (tenant_of v, id_of v)

    -- A value is stored, and its id is indexed, if no other key has that id.
    pub insert-IsIndexed :
        is_taken (get (tenant_of v, id_of v) index) (key_of v) ≡ false
        → IsIndexed d index
        → IsIndexed (put (tenant_of v, key_of v) v d) (put (tenant_of v, id_of v) (key_of v) index)
    insert-IsIndexed free old k w =
        get-put_cases
          (λ j x.
            (j ≡ (tenant_of x, key_of x))
            × (get (tenant_of x, id_of x) (put own_id (key_of v) index) ≡ some (key_of x)))
          own_key k v w d (refl, get-put_self own_id (key_of v) index)
          (λ h. (
            (old k w h).0,
            index_kept own_id (tenant_of w, id_of w) (key_of v) (key_of w) index free (old k w h).1,
          ))

    -- A value is replaced by one with the same tenant, key and id.
    pub replace-IsIndexed :
        (k : Key) (w : V)
        → get k d ≡ some w
        → tenant_of v ≡ tenant_of w
        → key_of v ≡ key_of w
        → id_of v ≡ id_of w
        → IsIndexed d index
        → IsIndexed (put k v d) index
    replace-IsIndexed k w h same_tenant same_key same_id old j x =
        get-put_cases
          (λ j x.
            (j ≡ (tenant_of x, key_of x)) × (get (tenant_of x, id_of x) index ≡ some (key_of x)))
          k j v x d (rw (same_tenant, same_key, same_id) (old k w h)) (old j x)

  -- In one tenant an id has one key.
  pub one_key :
      (d : Dict Key V) (index : Dict Key String) (j k : Key) (v w : V)
      → IsIndexed d index
      → get j d ≡ some v
      → get k d ≡ some w
      → tenant_of v ≡ tenant_of w
      → id_of v ≡ id_of w
      → j ≡ k
  one_key d index j k v w valid h g same_tenant same_id =
      let (e, a) = valid j v h in
      let (f, b) = valid k w g in e ∙ (λ i. (same_tenant i, same_key a b i)) ∙ sym f
    where
      same_key :
          get (tenant_of v, id_of v) index ≡ some (key_of v)
          → get (tenant_of w, id_of w) index ≡ some (key_of w)
          → key_of v ≡ key_of w
      same_key a b = cc
