-- ===== src/Chat/Query.antt =====
-- main.cpp: `ParseInt64` and `QueryInt64`, and that they read what `std::to_string` writes.
use architecture_course.Prelude.{
  ℕ, String, Option, none, some, ◌≡◌, refl, is_empty, if◌then◌else◌, Bool-cases, inl, inr,
}
use architecture_course.Prelude.Int.{ℤ}
use architecture_course.Prelude.Decimal.Signed.{signed_to_string}
use architecture_course.Prelude.Decimal.Parsing.{fits, parse_signed, parse_signed-signed_to_string}

-- -2^63 is the least `int64_t`.
abbrev pub int64_bound : ℕ
int64_bound = 9223372036854775808

-- Blanks and a sign may come before the digits, and nothing after them.
unfoldable pub parse_int64 : String → Option ℤ
parse_int64 value = elim (parse_signed int64_bound value) [
  | none ↦ none
  | some (parsed, rest) ↦ if is_empty rest then some parsed else none
]

-- A query parameter, if it is there.
unfoldable pub query_int64 : Option String → ℤ → ℤ
query_int64 none default_value = default_value
query_int64 (some raw) default_value = elim (parse_int64 raw) [
  | none ↦ default_value
  | some parsed ↦ parsed
]

-- A query parameter that is a number in decimal digits, with a minus before it if it is negative, is
-- that number if it is an `int64_t`, and the default value if it is out of range: it is never cut off
-- or wrapped around.
pub query_int64-signed_to_string :
    (z default_value : ℤ)
    → query_int64 (some (signed_to_string z)) default_value
      ≡ (if fits int64_bound z then z else default_value)
unfolding query_int64 parse_int64
query_int64-signed_to_string z default_value = elim (Bool-cases (fits int64_bound z)) [
  | inl e ↦ rw (query_int64, parse_int64, parse_signed-signed_to_string int64_bound z, e) refl
  | inr e ↦ rw (query_int64, parse_int64, parse_signed-signed_to_string int64_bound z, e) refl
]
