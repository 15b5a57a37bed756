-- ===== src/Permissions/Tiers.antt =====
-- The tiers P0 to P6 (src/personal_assistant/domain/common/permissions.py).
use personal_assistant.Common.{
  ℕ, Bool, List, [], ◌∷◌, String, leb, ltb, ◌==◌, text_eq, if◌then◌else◌,
}
use personal_assistant.Common.Exec.{Result, ok, err, value_error}
use personal_assistant.Common.Pure.{◌>>=◌}

pub data PermissionTier : Type 0 where
  p0 p1 p2 p3 p4 p5 p6 : PermissionTier

-- `int(self.value[1])`
abbrev pub rank : PermissionTier → ℕ
rank p0 = 0
rank p1 = 1
rank p2 = 2
rank p3 = 3
rank p4 = 4
rank p5 = 5
rank p6 = 6

-- `self.allows(required)`
abbrev pub allows : PermissionTier → PermissionTier → Bool
allows tier required = leb (rank required) (rank tier)

-- `PermissionTier(value)` for a text
unfoldable pub parse_tier : String → Result PermissionTier
parse_tier s =
    if s == "P0"
    then ok p0
    else if s == "P1"
    then ok p1
    else if s == "P2"
    then ok p2
    else if s == "P3"
    then ok p3
    else if s == "P4"
    then ok p4
    else if s == "P5"
    then ok p5
    else if s == "P6"
    then ok p6
    else err value_error

-- `PermissionTier | str`
pub data TierInput : Type 0 where
  tier : PermissionTier → TierInput
  text : String → TierInput

unfoldable pub coerce_tier : TierInput → Result PermissionTier
coerce_tier (tier t) = ok t
coerce_tier (text s) = parse_tier s

-- Python's `max` keeps the first of the highest.
max_from : PermissionTier → List TierInput → Result PermissionTier
max_from best [] = ok best
max_from best (x ∷ xs) = do
  t ← coerce_tier x
  max_from (if ltb (rank best) (rank t) then t else best) xs

unfoldable pub max_tier : List TierInput → Result PermissionTier
unfolding max_from
max_tier [] = ok p0
max_tier (x ∷ xs) = do t ← coerce_tier x; max_from t xs
