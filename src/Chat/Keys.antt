-- ===== src/Chat/Keys.antt =====
-- `GenerateApiKey`, with the drawn numbers as a parameter, and what a fresh key is good for.
use Prim.Native.Char.{Char, code}
use architecture_course.Prelude.{
  string_eq, ℕ, zero, suc, ◌+◌, ◌%◌, String, Bool, true, false, ◌≡◌, ◌≢◌, refl, arith, ok, ◌&&◌,
  ◌||◌, leb, Bool-cases, inl, inr, is_empty, eq_iff, subst,
}
use architecture_course.Prelude.Map.Laws.{lookup-insert, lookup-insert_self}
use architecture_course.Chat.Manager.{ChatManager, create_participant, authenticate}
use architecture_course.Chat.Handlers.{resolve_auth_participant}

abbrev pub char_at : ℕ → String → Char
char_at n String.[] = "0"
char_at zero (String.◌∷◌ c s) = c
char_at (suc n) (String.◌∷◌ c s) = char_at n s

abbrev pub hex : String
hex = "0123456789abcdef"

-- The digits of the numbers drawn from the `i`th on; `& 0x0F` is the rest by 16.
unfoldable pub key_digits : (ℕ → ℕ) → ℕ → ℕ → String
key_digits rng zero i = ""
key_digits rng (suc left) i = String.◌∷◌ (char_at (rng i % 16) hex) (key_digits rng left (i + 1))

-- `drawn` numbers were drawn before.
unfoldable pub generate_api_key : (ℕ → ℕ) → ℕ → String
generate_api_key rng drawn = key_digits rng 32 drawn

abbrev pub is_hex : Char → Bool
is_hex c = (leb 48 (code c) && leb (code c) 57) || (leb 97 (code c) && leb (code c) 102)

-- So many hexadecimal digits.
abbrev pub IsKey : ℕ → String → Type 0
IsKey zero String.[] = Unit {0}
IsKey zero (String.◌∷◌ c s) = ⊥
IsKey (suc n) String.[] = ⊥
IsKey (suc n) (String.◌∷◌ c s) = (is_hex c ≡ true) × IsKey n s

char_at-IsKey : (k n : ℕ) (s : String) → IsKey k s → is_hex (char_at n s) ≡ true
char_at-IsKey k n String.[] h = refl
char_at-IsKey zero n (String.◌∷◌ c s) h = absurd h
char_at-IsKey (suc k) zero (String.◌∷◌ c s) h = h.0
char_at-IsKey (suc k) (suc n) (String.◌∷◌ c s) h = char_at-IsKey k n s h.1

hex-IsKey : IsKey 16 hex
hex-IsKey = ground arith

key_digits-IsKey : (rng : ℕ → ℕ) (left i : ℕ) → IsKey left (key_digits rng left i)
unfolding key_digits
key_digits-IsKey rng zero i = tt
key_digits-IsKey rng (suc left) i =
    (char_at-IsKey 16 (rng i % 16) hex hex-IsKey, key_digits-IsKey rng left (i + 1))

key_not_empty : (n : ℕ) (s : String) → IsKey (suc n) s → is_empty s ≡ false
key_not_empty n s h = elim (Bool-cases (is_empty s)) [
  | inl e ↦ absurd (subst (IsKey (suc n)) ((eq_iff s "").0 e) h)
  | inr e ↦ e
]

-- A new participant's key has 32 hexadecimal digits, is accepted by the handlers at once, and names
-- this participant, whatever numbers were drawn; every other key names whom it named before.
pub fresh_key :
    (rng : ℕ → ℕ) (drawn : ℕ) (m : ChatManager) (name other : String)
    → generate_api_key rng drawn ≢ other
    → let key = generate_api_key rng drawn in
      let (participant, after) = create_participant m key name in
      IsKey 32 key
      × (resolve_auth_participant after key ≡ ok participant.id)
      × (authenticate after other ≡ authenticate m other)
unfolding create_participant authenticate generate_api_key resolve_auth_participant
fresh_key rng drawn m name other h =
    let key = generate_api_key rng drawn in
    let shape = key_digits-IsKey rng 32 drawn in
    (
      shape,
      rw (key_not_empty 31 key shape, lookup-insert_self key m.next_participant_id m.api_key_index)
          refl,
      ground (
        arith,
        lookup-insert key other m.next_participant_id m.api_key_index,
        eq_iff key other,
        h,
      ),
    )
