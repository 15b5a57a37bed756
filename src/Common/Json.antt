-- ===== src/Common/Json.antt =====
-- How `json.dumps(..., ensure_ascii=False)` writes a text, in front of what follows it, and how a
-- JSON reader takes it back.
use Prim.Native.Nat.{ℕ, zero, suc, ◌/◌, ◌%◌, ◌+◌, ◌-◌, ◌*◌, ◌<◌}
use Prim.Native.Char.{Char, code}
use Prim.Native.String.{String}
use mathlib.Core.Path.{◌≡◌, refl, sym, ◌∙◌, ap}
use mathlib.Core.Bool.{Bool, true, ◌&&◌}
use mathlib.Core.Option.{Option, none, some}
use native.Mathlib.Omega.{arith}
use text.Mathlib.TextEquality.{Char-path}
use text.Mathlib.TextLemmas.{tail-eq_of_cons-eq}
use personal_assistant.Common.Tests.{nat_eq, nat_eq_iff, ltb, leb, if◌then◌else◌}

-- `'{0:x}'.format(d)` of one digit
unfoldable pub hex_digit : ℕ → Char
hex_digit d =
    if nat_eq d 0
    then "0"
    else if nat_eq d 1
    then "1"
    else if nat_eq d 2
    then "2"
    else if nat_eq d 3
    then "3"
    else if nat_eq d 4
    then "4"
    else if nat_eq d 5
    then "5"
    else if nat_eq d 6
    then "6"
    else if nat_eq d 7
    then "7"
    else if nat_eq d 8
    then "8"
    else if nat_eq d 9
    then "9"
    else if nat_eq d 10
    then "a"
    else if nat_eq d 11
    then "b"
    else if nat_eq d 12
    then "c"
    else if nat_eq d 13
    then "d"
    else if nat_eq d 14
    then "e"
    else "f"

-- a backslash and the character
abbrev pair_of : Char → String → String
pair_of c rest = String.◌∷◌ "\\" (String.◌∷◌ c rest)

-- `\u00XY`
abbrev unicode_of : ℕ → String → String
unicode_of c rest = pair_of "u" (
    String.◌∷◌ "0"
      (String.◌∷◌ "0" (String.◌∷◌ (hex_digit (c / 16)) (String.◌∷◌ (hex_digit (c % 16)) rest))))

unfoldable pub escape_char : Char → String → String
escape_char c rest =
    if nat_eq (code c) 34
    then pair_of "\"" rest
    else if nat_eq (code c) 92
    then pair_of "\\" rest
    else if nat_eq (code c) 8
    then pair_of "b" rest
    else if nat_eq (code c) 12
    then pair_of "f" rest
    else if nat_eq (code c) 10
    then pair_of "n" rest
    else if nat_eq (code c) 13
    then pair_of "r" rest
    else if nat_eq (code c) 9
    then pair_of "t" rest
    else if ltb (code c) 32
    then unicode_of (code c) rest
    else String.◌∷◌ c rest

unfoldable pub write_text : String → String → String
write_text String.[] rest = String.◌∷◌ "\"" rest
write_text (String.◌∷◌ c s) rest = escape_char c (write_text s rest)

-- the quoted text
unfoldable pub quote : String → String → String
unfolding write_text
quote s rest = String.◌∷◌ "\"" (write_text s rest)

-- the value of a lower-case hexadecimal digit
hex_value : ℕ → ℕ
hex_value c = if leb 97 c then c - 87 else c - 48

-- after `\u00`
read_hex : String → Option (ℕ × String)
read_hex (String.◌∷◌ x (String.◌∷◌ y s)) = some (hex_value (code x) * 16 + hex_value (code y), s)
read_hex _ = none

read_unicode : String → Option (ℕ × String)
read_unicode (String.◌∷◌ a (String.◌∷◌ b s)) = read_hex s
read_unicode _ = none

-- after a backslash
read_escape : String → Option (ℕ × String)
read_escape String.[] = none
read_escape (String.◌∷◌ c s) =
    if nat_eq (code c) 98
    then some (8, s)
    else if nat_eq (code c) 102
    then some (12, s)
    else if nat_eq (code c) 110
    then some (10, s)
    else if nat_eq (code c) 114
    then some (13, s)
    else if nat_eq (code c) 116
    then some (9, s)
    else if nat_eq (code c) 117
    then read_unicode s
    else some (code c, s)

-- the next character of a quoted text, or `none` at the closing quote
read_char : String → Option (ℕ × String)
read_char String.[] = none
read_char (String.◌∷◌ c s) =
    if nat_eq (code c) 92
    then read_escape s
    else if nat_eq (code c) 34
    then none
    else some (code c, s)

all_below : ℕ → (ℕ → Bool) → Bool
all_below zero p = true
all_below (suc n) p = p n && all_below n p

all_below_lem : (n : ℕ) (p : ℕ → Bool) (d : ℕ) → all_below n p ≡ true → d < n → p d ≡ true
unfolding all_below
all_below_lem zero p d h lt = absurd (omega arith)
all_below_lem (suc n) p d h lt = ground (arith, all_below_lem n p d)

hex_table : all_below 16 (λ d. nat_eq (hex_value (code (hex_digit d))) d) ≡ true
unfolding all_below hex_digit hex_value
hex_table = refl

hex_back : (d : ℕ) → d < 16 → hex_value (code (hex_digit d)) ≡ d
hex_back d h =
    (nat_eq_iff (hex_value (code (hex_digit d))) d).0
      (all_below_lem 16 (λ d. nat_eq (hex_value (code (hex_digit d))) d) d hex_table h)

read_char-escape_char :
    (c : Char) (rest : String) → read_char (escape_char c rest) ≡ some (code c, rest)
unfolding escape_char read_char read_escape read_unicode read_hex
read_char-escape_char c rest = ground (arith, hex_back (code c / 16), hex_back (code c % 16))

some_inj :
    (a b : ℕ) (s t : String)
    → ◌≡◌ {A = Option (ℕ × String)} (some (a, s)) (some (b, t))
    → (a ≡ b) × (s ≡ t)
some_inj a b s t h = ground arith

-- An escaped character is not taken for another one, nor for the closing quote.
escape_char_inj :
    (c d : Char) (s t : String) → escape_char c s ≡ escape_char d t → (c ≡ d) × (s ≡ t)
escape_char_inj c d s t h =
    let (e, r) =
      some_inj (code c) (code d) s t
        (sym (read_char-escape_char c s) ∙ ap read_char h ∙ read_char-escape_char d t) in
    (Char-path c d e, r)

closing : (s : String) → read_char (String.◌∷◌ "\"" s) ≡ none
unfolding read_char
closing s = refl

some-ne-none : (x : ℕ × String) → ◌≡◌ {A = Option (ℕ × String)} (some x) none → ⊥
some-ne-none x h = cc

write_text_inj : (s t r q : String) → write_text s r ≡ write_text t q → (s ≡ t) × (r ≡ q)
unfolding write_text
write_text_inj String.[] String.[] r q h = (refl, tail-eq_of_cons-eq h)
write_text_inj String.[] (String.◌∷◌ d t) r q h = absurd (
    some-ne-none (code d, write_text t q)
      (sym (read_char-escape_char d (write_text t q)) ∙ sym (ap read_char h) ∙ closing r))
write_text_inj (String.◌∷◌ c s) String.[] r q h = absurd (
    some-ne-none (code c, write_text s r)
      (sym (read_char-escape_char c (write_text s r)) ∙ ap read_char h ∙ closing q))
write_text_inj (String.◌∷◌ c s) (String.◌∷◌ d t) r q h =
    let (e, rest) = escape_char_inj c d (write_text s r) (write_text t q) h in
    let (same, after) = write_text_inj s t r q rest in (λ i. String.◌∷◌ (e i) (same i), after)

-- Quoting is free of delimiter ambiguity, whatever stands behind the text.
pub quote_inj : (s t r q : String) → quote s r ≡ quote t q → (s ≡ t) × (r ≡ q)
unfolding quote
quote_inj s t r q h = write_text_inj s t r q (tail-eq_of_cons-eq h)
