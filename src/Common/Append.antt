-- ===== src/Common/Append.antt =====
-- Text that begins with a text that is not empty.
use Prim.Native.Nat.{◌<◌}
use Prim.Native.String.{String, ◌++◌, count}
use mathlib.Core.Path.{◌≡◌, ap}
use mathlib.Core.Logic.{inl, inr}
use mathlib.Core.Bool.{false}
use native.Mathlib.Omega.{arith}
use text.Mathlib.TextEquality.{eq_iff}
use text.Mathlib.TextLemmas.{length-append}
use personal_assistant.Common.Tests.{Bool-cases}
use personal_assistant.Common.Text.{is_empty}

-- A text with a prefix that is not empty is not empty.
pub append-not_empty : (s t : String) → 0 < count s → is_empty (s ++ t) ≡ false
append-not_empty s t h = elim (Bool-cases (is_empty (s ++ t))) [
  | inr filled ↦ filled
  | inl empty ↦
      let e : count (s ++ t) ≡ count "" = ap count ((eq_iff (s ++ t) "").0 empty) in
      absurd (omega (arith, length-append s t, e))
]
