-- ===== src/Prelude/Decimal/Parsing.antt =====
-- `std::stoll` in base ten: blanks, a sign, digits, and whether the number fits. A number outside the
-- bounds and a text without a number are exceptions, which have no result.
use Prim.Native.Nat.{ℕ, zero, suc, ◌+◌, ◌-◌, ◌*◌}
use Prim.Native.Char.{Char, code}
use Prim.Native.String.{String}
use mathlib.Core.Bool.{Bool, true, false, ◌&&◌, ◌||◌}
use mathlib.Core.Option.{Option, none, some}
use mathlib.Core.Path.{◌≡◌, refl}
use native.Mathlib.Omega.{arith}
use text.Mathlib.TextLemmas.{nil-append, cons-append}
use architecture_course.Prelude.Tests.{nat_beq, ltb, leb, if◌then◌else◌}
use architecture_course.Prelude.Int.{ℤ, pos, negsuc}
use architecture_course.Prelude.Decimal.{to_string}
use architecture_course.Prelude.Decimal.Reading.{
  IsNumeral, IsFilled, number_after, IsWritten, to_string-IsWritten,
}
use architecture_course.Prelude.Decimal.Signed.{signed_to_string}

-- `isspace` in the "C" locale
abbrev pub is_space : Char → Bool
is_space c = nat_beq (code c) 32 || (leb 9 (code c) && leb (code c) 13)

abbrev pub is_digit : Char → Bool
is_digit c = leb 48 (code c) && leb (code c) 57

unfoldable pub skip_spaces : String → String
skip_spaces String.[] = ""
skip_spaces (String.◌∷◌ c s) =
    let rest = skip_spaces s in if is_space c then rest else String.◌∷◌ c s

-- Whether there is a minus, and the text after the sign.
unfoldable pub take_sign : String → Bool × String
take_sign String.[] = (false, "")
take_sign (String.◌∷◌ c s) =
    if nat_beq (code c) 45
    then (true, s)
    else if nat_beq (code c) 43
    then (false, s)
    else (false, String.◌∷◌ c s)

-- The number of the digits, after `read` so far, and the text after them.
unfoldable pub read_digits : ℕ → String → ℕ × String
read_digits read String.[] = (read, "")
read_digits read (String.◌∷◌ c s) =
    let rest = read_digits (read * 10 + (code c - 48)) s in
    if is_digit c then rest else (read, String.◌∷◌ c s)

abbrev pub starts_with_digit : String → Bool
starts_with_digit String.[] = false
starts_with_digit (String.◌∷◌ c s) = is_digit c

abbrev pub minus : ℕ → ℤ
minus zero = pos 0
minus (suc n) = negsuc n

-- Whether -bound ≤ z < bound.
abbrev pub fits : ℕ → ℤ → Bool
fits bound (pos n) = ltb n bound
fits bound (negsuc n) = ltb n bound

abbrev pub signed : Bool → ℕ → ℤ
signed true n = minus n
signed false n = pos n

-- A number of a type whose values are those from -bound to bound - 1, and the text after it.
abbrev pub bounded : ℕ → ℤ → String → Option (ℤ × String)
bounded bound z rest = if fits bound z then some (z, rest) else none

unfoldable pub parse_signed : ℕ → String → Option (ℤ × String)
parse_signed bound s =
    let (negative, t) = take_sign (skip_spaces s) in
    let (n, rest) = read_digits 0 t in
    if starts_with_digit t then bounded bound (signed negative n) rest else none

read_digits-IsNumeral :
    (read : ℕ) (s : String) → IsNumeral s → read_digits read s ≡ (number_after read s, "")
unfolding read_digits
read_digits-IsNumeral read String.[] h = refl
read_digits-IsNumeral read (String.◌∷◌ c s) (a, b, h) =
    ground (arith, read_digits-IsNumeral (read * 10 + (code c - 48)) s h)

-- The digits of a number, after its sign.
parse_digits :
    (bound n : ℕ) (negative : Bool) (s : String)
    → IsWritten n s
    → (let (k, rest) = read_digits 0 s in
        if starts_with_digit s then bounded bound (signed negative k) rest else none)
      ≡ bounded bound (signed negative n) ""
parse_digits bound n negative String.[] w = absurd w.filled
parse_digits bound n negative (String.◌∷◌ c s) w =
    let (a, b, _) = w.numeral in
    let first : is_digit c ≡ true = ground arith in
    rw (read_digits-IsNumeral 0 (String.◌∷◌ c s) w.numeral, w.number, first) refl

spaces_numeral : (s : String) → IsNumeral s → IsFilled s → take_sign (skip_spaces s) ≡ (false, s)
unfolding skip_spaces take_sign
spaces_numeral String.[] h k = absurd k
spaces_numeral (String.◌∷◌ c s) (a, b, h) k = ground arith

-- A number in decimal digits is read back exactly if it fits.
pub parse_signed-signed_to_string :
    (bound : ℕ) (z : ℤ) → parse_signed bound (signed_to_string z) ≡ bounded bound z ""
unfolding parse_signed signed_to_string take_sign skip_spaces
parse_signed-signed_to_string bound (pos n) =
    let w = to_string-IsWritten n in
    rw (spaces_numeral (to_string n) w.numeral w.filled)
      (parse_digits bound n false (to_string n) w)
parse_signed-signed_to_string bound (negsuc n) =
    let w = to_string-IsWritten (suc n) in
    rw (cons-append "-" String.[] (to_string (suc n)), nil-append)
      (parse_digits bound (suc n) true (to_string (suc n)) w)
