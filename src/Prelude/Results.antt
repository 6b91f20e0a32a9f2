-- ===== src/Prelude/Results.antt =====
-- Operations that succeed with a value or fail with the source's message, and the replies of the HTTP
-- handlers.
use Prim.Native.Nat.{ℕ}
use Prim.Native.String.{String}

pub data Result {ℓ} (A : Type ℓ) : Type ℓ where
  ok : A → Result A
  err : String → Result A

infixl 5 ◌>>=◌
abbrev pub ◌>>=◌ {ℓ κ} : {A : Type ℓ} {B : Type κ} → Result A → (A → Result B) → Result B
ok a >>= f = f a
err e >>= f = err e

-- What a handler of the HTTP servers does: a response with a status and a body, the response of their
-- `sendError`, or an exception that leaves the handler.
pub data Reply {ℓ} (A : Type ℓ) : Type ℓ where
  replied : ℕ → A → Reply A
  failed : ℕ → String → Reply A
  thrown : Reply A
