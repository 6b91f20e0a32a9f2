-- ===== src/Prelude/Decimal/Reading.antt =====
-- Decimal numerals are read back, so that different numbers have different numerals.
use Prim.Native.Nat.{ℕ, zero, suc, ◌+◌, ◌*◌, ◌-◌, ◌/◌, ◌%◌, ◌≤◌, ◌<◌}
use Prim.Native.Char.{code}
use Prim.Native.String.{String, ◌++◌}
use mathlib.Core.Logic.{dite}
use text.Mathlib.TextLemmas.{nil-append, cons-append}
use mathlib.Core.Path.{◌≡◌, refl, ◌∙◌, ap}
use mathlib.Core.WellFounded.{Acc}
use native.Mathlib.Decide.{dec_lt}
use native.Mathlib.Omega.{arith}
use architecture_course.Prelude.Decimal.{lt_wf, tenth_lt, digit, digits, to_string}

-- Every character is a digit.
abbrev pub IsNumeral : String → Type 0
IsNumeral String.[] = Unit {0}
IsNumeral (String.◌∷◌ c s) = (48 ≤ code c) × (code c ≤ 57) × IsNumeral s

-- There is a character.
abbrev pub IsFilled : String → Type 0
IsFilled String.[] = ⊥
IsFilled (String.◌∷◌ c s) = Unit {0}

IsFilled-append : (s t : String) → IsFilled t → IsFilled (s ++ t)
IsFilled-append String.[] t h = rw nil-append h
IsFilled-append (String.◌∷◌ c s) t h = rw cons-append tt

-- The number that is read after `read` so far.
abbrev pub number_after : ℕ → String → ℕ
number_after read String.[] = read
number_after read (String.◌∷◌ c s) = number_after (read * 10 + (code c - 48)) s

IsNumeral-append : (s t : String) → IsNumeral s → IsNumeral t → IsNumeral (s ++ t)
IsNumeral-append String.[] t h k = rw nil-append k
IsNumeral-append (String.◌∷◌ c s) t (a, b, h) k = rw cons-append (a, b, IsNumeral-append s t h k)

number_after-append :
    (read : ℕ) (s t : String) → number_after read (s ++ t) ≡ number_after (number_after read s) t
number_after-append read String.[] t = rw nil-append refl
number_after-append read (String.◌∷◌ c s) t =
    rw cons-append (number_after-append (read * 10 + (code c - 48)) s t)

-- What the digit of `d` reads as.
record IsDigit (d : ℕ) (s : String) : Type 0 where
  number : (read : ℕ) → number_after read s ≡ read * 10 + d
  numeral : IsNumeral s
  filled : IsFilled s

digit-IsDigit : (d : ℕ) → d < 10 → IsDigit d (digit d)
digit-IsDigit zero h = record { number = λ read. refl; numeral = omega arith; filled = tt }
digit-IsDigit (suc zero) h = record { number = λ read. refl; numeral = omega arith; filled = tt }
digit-IsDigit (suc (suc zero)) h = record {
  number = λ read. refl;
  numeral = omega arith;
  filled = tt;
}
digit-IsDigit (suc (suc (suc zero))) h = record {
  number = λ read. refl;
  numeral = omega arith;
  filled = tt;
}
digit-IsDigit (suc (suc (suc (suc zero)))) h = record {
  number = λ read. refl;
  numeral = omega arith;
  filled = tt;
}
digit-IsDigit (suc (suc (suc (suc (suc zero))))) h = record {
  number = λ read. refl;
  numeral = omega arith;
  filled = tt;
}
digit-IsDigit (suc (suc (suc (suc (suc (suc zero)))))) h = record {
  number = λ read. refl;
  numeral = omega arith;
  filled = tt;
}
digit-IsDigit (suc (suc (suc (suc (suc (suc (suc zero))))))) h = record {
  number = λ read. refl;
  numeral = omega arith;
  filled = tt;
}
digit-IsDigit (suc (suc (suc (suc (suc (suc (suc (suc zero)))))))) h = record {
  number = λ read. refl;
  numeral = omega arith;
  filled = tt;
}
digit-IsDigit (suc (suc (suc (suc (suc (suc (suc (suc (suc zero))))))))) h = record {
  number = λ read. refl;
  numeral = omega arith;
  filled = tt;
}
digit-IsDigit (suc (suc (suc (suc (suc (suc (suc (suc (suc (suc d)))))))))) h = absurd (omega arith)

-- The numeral of a number: it has digits, and only digits, and it is read as the number.
pub record IsWritten (n : ℕ) (s : String) : Type 0 where
  pub numeral : IsNumeral s
  pub filled : IsFilled s
  pub number : number_after 0 s ≡ n

last_digit : (n : ℕ) → n / 10 * 10 + n % 10 ≡ n
last_digit n = omega arith

IsWritten-append :
    (n : ℕ) (s t : String) → IsWritten (n / 10) s → IsDigit (n % 10) t → IsWritten n (s ++ t)
IsWritten-append n s t w d = record {
  numeral = IsNumeral-append s t w.numeral d.numeral;
  filled = IsFilled-append s t d.filled;
  number =
      number_after-append 0 s t
      ∙ ap (λ r. number_after r t) w.number
      ∙ d.number (n / 10)
      ∙ last_digit n;
}

one_digit : (n : ℕ) → n < 10 → IsWritten n (digit n)
one_digit n h =
    let d = digit-IsDigit n h in
    record { numeral = d.numeral; filled = d.filled; number = d.number 0 ∙ omega arith }

-- One digit below ten, and the digits of the tenth before the last one from ten on.
dite-IsWritten :
    (n : ℕ) (b : Dec (9 < n)) (more : 9 < n → String)
    → ((h : 9 < n) → IsWritten n (more h))
    → IsWritten n (dite b more (λ _. digit n))
dite-IsWritten n (yes h) more w = w h
dite-IsWritten n (no h) more w = one_digit n (omega arith)

digits-IsWritten : (n : ℕ) (w : Acc ◌<◌ n) → IsWritten n (digits n w)
unfolding digits
digits-IsWritten n (Acc.intro _ smaller) = dite-IsWritten n (dec_lt 9 n) _ λ h.
    IsWritten-append n _ _ (digits-IsWritten (n / 10) (smaller (n / 10) (tenth_lt n h)))
      (digit-IsDigit (n % 10) (omega arith))

pub to_string-IsWritten : (n : ℕ) → IsWritten n (to_string n)
unfolding to_string
to_string-IsWritten n = digits-IsWritten n (lt_wf.apply n)
