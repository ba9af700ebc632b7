-- ===== src/Prelude/Service.antt =====
-- A service method: it reads and changes a state, and returns a value or throws an HTTP exception.
use Prim.Native.Nat.{ℕ}
use Prim.Native.String.{String}
use mathlib.Core.Bool.{Bool, true, false}
use mathlib.Core.Option.{Option, none, some}

pub record HttpError : Type 0 where
  pub status : ℕ
  pub code : String

pub data Outcome {ℓ} (A : Type ℓ) : Type ℓ where
  ok : A → Outcome A
  throw : HttpError → Outcome A

abbrev pub Action : Type 0 → Type 0 → Type 0
Action S A = S → Outcome A × S

abbrev pub resume : {S A B : Type 0} → (A → Action S B) → Outcome A × S → Outcome B × S
resume k (ok a, s) = k a s
resume k (throw e, s) = (throw e, s)

infixl 5 ◌>>=◌ ◌>>◌
abbrev pub ◌>>=◌ : {S A B : Type 0} → Action S A → (A → Action S B) → Action S B
◌>>=◌ m k s = resume k (m s)

abbrev pub ◌>>◌ : {S B : Type 0} → Action S (Unit {0}) → Action S B → Action S B
◌>>◌ m k s = resume (λ _. k) (m s)

abbrev pub pure : {S A : Type 0} → A → Action S A
pure a s = (ok a, s)

-- A read of the state.
abbrev pub query : {S A : Type 0} → (S → A) → Action S A
query f s = (ok (f s), s)

-- A write.
abbrev pub modify : {S : Type 0} → (S → S) → Action S (Unit {0})
modify f s = (ok tt, f s)

-- `if (b) throw e`
abbrev pub throw_if : {S : Type 0} → Bool → HttpError → Action S (Unit {0})
throw_if true e s = (throw e, s)
throw_if false e s = (ok tt, s)

-- `if (!o) throw e`
abbrev pub require : {S A : Type 0} → HttpError → Option A → Action S A
require e none s = (throw e, s)
require e (some a) s = (ok a, s)

-- `throw e`
abbrev pub abort : {S A : Type 0} → HttpError → Action S A
abort e s = (throw e, s)
