-- ===== src/Prelude/Decimal/Signed.antt =====
-- `std::to_string` of a signed number, and texts that begin with one.
use Prim.Native.Nat.{ℕ, suc, ◌≤◌}
use Prim.Native.Char.{Char, code}
use Prim.Native.String.{String, ◌++◌}
use mathlib.Core.Path.{◌≡◌, refl, ◌∙◌, sym, ap, ap₂}
use native.Mathlib.Omega.{arith}
use text.Mathlib.TextLemmas.{nil-append, cons-append, append_cancel_left, append_assoc}
use architecture_course.Prelude.Int.{ℤ, pos, negsuc}
use architecture_course.Prelude.Decimal.{to_string}
use architecture_course.Prelude.Decimal.Reading.{
  IsNumeral, number_after, IsWritten, to_string-IsWritten,
}

unfoldable pub signed_to_string : ℤ → String
signed_to_string (pos n) = to_string n
signed_to_string (negsuc n) = "-" ++ to_string (suc n)

cons_injective :
    (c d : Char) (s t : String)
    → ◌≡◌ {A = String} (String.◌∷◌ c s) (String.◌∷◌ d t)
    → (c ≡ d) × (s ≡ t)
cons_injective c d s t e = (cc, cc)

marked : (l : String) → "_" ++ l ≡ String.◌∷◌ "_" l
marked l = cons-append "_" String.[] l ∙ ap (λ r. String.◌∷◌ "_" r) (nil-append l)

-- A text after a numeral does not begin with the mark.
not_marked : (l : String) (c : Char) (s : String) → code c ≤ 57 → "_" ++ l ≡ String.◌∷◌ c s → ⊥
not_marked l c s h e =
    let same : code "_" ≡ code c = ap code (cons_injective _ _ _ _ (sym (marked l) ∙ e)).0 in
    omega (arith, same)

-- The mark ends a numeral.
numeral_ends :
    (s t l m : String)
    → IsNumeral s
    → IsNumeral t
    → s ++ ("_" ++ l) ≡ t ++ ("_" ++ m)
    → (s ≡ t) × (l ≡ m)
numeral_ends String.[] String.[] l m h k e =
    (refl, append_cancel_left "_" l m (sym (nil-append _) ∙ e ∙ nil-append _))
numeral_ends String.[] (String.◌∷◌ d t) l m h (_, k, _) e =
    absurd (not_marked l d _ k (sym (nil-append _) ∙ e ∙ cons-append d t _))
numeral_ends (String.◌∷◌ c s) String.[] l m (_, h, _) k e =
    absurd (not_marked m c _ h (sym (nil-append _) ∙ sym e ∙ cons-append c s _))
numeral_ends (String.◌∷◌ c s) (String.◌∷◌ d t) l m (_, _, h) (_, _, k) e =
    let (first, rest) = cons_injective _ _ _ _ (sym (cons-append c s _) ∙ e ∙ cons-append d t _) in
    let (same, after) = numeral_ends s t l m h k rest in (ap₂ String.◌∷◌ first same, after)

-- A numeral does not begin with a minus.
not_minus : (s t l : String) → IsNumeral s → s ++ ("_" ++ l) ≡ "-" ++ t → ⊥
not_minus String.[] t l h e =
    let same : code "_" ≡ code "-" =
      ap code
        (cons_injective _ _ _ _
          (sym (nil-append _ ∙ marked l) ∙ e ∙ cons-append "-" String.[] t)).0 in
    omega (arith, same)
not_minus (String.◌∷◌ c s) t l (h, _, _) e =
    let same : code c ≡ code "-" =
      ap code
        (cons_injective _ _ _ _ (sym (cons-append c s _) ∙ e ∙ cons-append "-" String.[] t)).0 in
    omega (arith, same)

written_injective : (n k : ℕ) (s t : String) → IsWritten n s → IsWritten k t → s ≡ t → n ≡ k
written_injective n k s t v w e = sym v.number ∙ ap (number_after 0) e ∙ w.number

to_string_ends :
    (n k : ℕ) (l m : String)
    → to_string n ++ ("_" ++ l) ≡ to_string k ++ ("_" ++ m)
    → (n ≡ k) × (l ≡ m)
to_string_ends n k l m e =
    let v = to_string-IsWritten n in
    let w = to_string-IsWritten k in
    let (same, after) = numeral_ends _ _ l m v.numeral w.numeral e in
    (written_injective n k _ _ v w same, after)

without_minus :
    (n k : ℕ) (l m : String)
    → ("-" ++ to_string n) ++ ("_" ++ l) ≡ ("-" ++ to_string k) ++ ("_" ++ m)
    → to_string n ++ ("_" ++ l) ≡ to_string k ++ ("_" ++ m)
without_minus n k l m e =
    append_cancel_left "-" _ _ (sym (append_assoc "-" _ _) ∙ e ∙ append_assoc "-" _ _)

-- A number and the text after the mark can be told from the whole text.
pub signed_to_string_ends :
    (a b : ℤ) (l m : String)
    → signed_to_string a ++ ("_" ++ l) ≡ signed_to_string b ++ ("_" ++ m)
    → (a ≡ b) × (l ≡ m)
unfolding signed_to_string
signed_to_string_ends (pos n) (pos k) l m e =
    let (same, after) = to_string_ends n k l m e in (ap pos same, after)
signed_to_string_ends (pos n) (negsuc k) l m e =
    absurd (not_minus _ _ l (to_string-IsWritten n).numeral (e ∙ append_assoc "-" _ _))
signed_to_string_ends (negsuc n) (pos k) l m e =
    absurd (not_minus _ _ m (to_string-IsWritten k).numeral (sym e ∙ append_assoc "-" _ _))
signed_to_string_ends (negsuc n) (negsuc k) l m e =
    let (same, after) = to_string_ends (suc n) (suc k) l m (without_minus _ _ l m e) in
    (ap negsuc (omega (arith, same)), after)
