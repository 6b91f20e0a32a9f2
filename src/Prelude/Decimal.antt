-- ===== src/Prelude/Decimal.antt =====
-- `std::to_string` of a natural number.
pub mod Reading
pub mod Signed
pub mod Parsing
use Prim.Native.Nat.{ℕ, zero, suc, ◌/◌, ◌%◌, ◌<◌}
use Prim.Native.String.{String, ◌++◌}
use mathlib.Core.Logic.{dite}
use mathlib.Core.Path.{◌≡◌, refl}
use mathlib.Core.WellFounded.{Acc, WellFounded}
use native.Mathlib.Decide.{dec_lt}
use native.Mathlib.Omega.{arith}
use architecture_course.Prelude.Tests.{nat_beq, if◌then◌else◌}

pub Acc-below : (k n : ℕ) → n < k → Acc ◌<◌ n
Acc-below zero n h = elim h [ ]
Acc-below (suc k) n h = Acc.intro n (λ m hm. Acc-below k m (omega arith))

pub lt_wf : WellFounded ◌<◌
unfolding Acc-below
lt_wf = record { apply = λ n. Acc-below (suc n) n (omega arith) }

pub tenth_lt : (n : ℕ) → 9 < n → n / 10 < n
tenth_lt n h = omega arith

abbrev pub digit : ℕ → String
digit d =
    if nat_beq d 0
    then "0"
    else if nat_beq d 1
    then "1"
    else if nat_beq d 2
    then "2"
    else if nat_beq d 3
    then "3"
    else if nat_beq d 4
    then "4"
    else if nat_beq d 5
    then "5"
    else if nat_beq d 6
    then "6"
    else if nat_beq d 7
    then "7"
    else if nat_beq d 8
    then "8"
    else "9"

pub digits : (n : ℕ) → Acc ◌<◌ n → String
digits n (Acc.intro _ smaller) =
    dite (dec_lt 9 n) (λ h. digits (n / 10) (smaller (n / 10) (tenth_lt n h)) ++ digit (n % 10))
      (λ _. digit n)

unfoldable pub to_string : ℕ → String
unfolding digits lt_wf dec_lt tenth_lt
to_string n = digits n (lt_wf.apply n)

to_string_runs : to_string 1905 ≡ "1905"
unfolding to_string
to_string_runs = refl
