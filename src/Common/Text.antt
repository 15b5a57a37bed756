-- ===== src/Common/Text.antt =====
-- Python text: blank space, order and the empty text.
use Prim.Native.Nat.{ℕ, suc}
use Prim.Native.Char.{Char, code}
use Prim.Native.String.{String}
use mathlib.Core.Path.{◌≡◌, refl}
use native.Mathlib.Omega.{arith}
use mathlib.Core.Bool.{Bool, true, false, ◌&&◌, ◌||◌}
use mathlib.Core.Option.{Option, none, some}
use text.Mathlib.Text.{◌==◌ as str_eq}
use personal_assistant.Common.Tests.{leb, ltb, nat_eq, if◌then◌else◌}

-- the code points that Unicode calls white space, which pydantic strips
unfoldable pub is_white_space : ℕ → Bool
is_white_space c =
    (leb 9 c && leb c 13)
    || nat_eq c 32
    || nat_eq c 0x85
    || nat_eq c 0xA0
    || nat_eq c 0x1680
    || (leb 0x2000 c && leb c 0x200A)
    || nat_eq c 0x2028
    || nat_eq c 0x2029
    || nat_eq c 0x202F
    || nat_eq c 0x205F
    || nat_eq c 0x3000

-- `str.isspace` also has the four separators 0x1c to 0x1f
unfoldable pub is_space : ℕ → Bool
unfolding is_white_space
is_space c = is_white_space c || (leb 0x1C c && leb c 0x1F)

module _ (space : ℕ → Bool) where
  unfoldable pub strip_left : String → String
  strip_left String.[] = String.[]
  strip_left (String.◌∷◌ c s) =
      let rest = strip_left s in if space (code c) then rest else String.◌∷◌ c s

  -- A character that is kept, or that has a kept one behind it, stays.
  abbrev keep_right : Char → String → String
  keep_right c String.[] = if space (code c) then String.[] else String.◌∷◌ c String.[]
  keep_right c rest = String.◌∷◌ c rest

  unfoldable pub strip_right : String → String
  strip_right String.[] = String.[]
  strip_right (String.◌∷◌ c s) = keep_right c (strip_right s)

-- `s.strip()`
unfoldable pub strip : String → String
unfolding strip_left strip_right is_space
strip s = strip_left is_space (strip_right is_space s)

-- `str_strip_whitespace=True` of a pydantic model
unfoldable pub strip_field : String → String
unfolding strip_left strip_right is_white_space
strip_field s = strip_left is_white_space (strip_right is_white_space s)

-- `not s`
abbrev pub is_empty : String → Bool
is_empty s = str_eq s ""

-- `not s`, for a text or `None`
abbrev pub is_falsy : Option String → Bool
is_falsy none = true
is_falsy (some s) = is_empty s

unfoldable pub count_chars : String → ℕ
count_chars String.[] = 0
count_chars (String.◌∷◌ c s) = suc (count_chars s)

-- `s <= t`, by code points
unfoldable pub text_leb : String → String → Bool
text_leb String.[] t = true
text_leb (String.◌∷◌ c s) String.[] = false
text_leb (String.◌∷◌ c s) (String.◌∷◌ d t) =
    ltb (code c) (code d) || (nat_eq (code c) (code d) && text_leb s t)

pub text_leb-total : (s t : String) → text_leb s t ≡ false → text_leb t s ≡ true
unfolding text_leb
text_leb-total String.[] t h = absurd (ground arith)
text_leb-total (String.◌∷◌ c s) String.[] h = refl
text_leb-total (String.◌∷◌ c s) (String.◌∷◌ d t) h = ground (arith, text_leb-total s t)

-- `all(p(c) for c in s)`
unfoldable pub all_chars : (ℕ → Bool) → String → Bool
all_chars p String.[] = true
all_chars p (String.◌∷◌ c s) = p (code c) && all_chars p s
