-- ===== src/Github/Outcome.antt =====
-- A result `(value, error)` of internal/github, as a value.
use chain_registry_sentinel.Base.{String}
use chain_registry_sentinel.Checks.Error.{GoError, wrap}

pub data Outcome {ℓ} (A : Type ℓ) : Type ℓ where
  ok : A → Outcome A
  err : GoError → Outcome A

infixl 10 ◌>>=◌
abbrev pub ◌>>=◌ {ℓ κ} : {A : Type ℓ} {B : Type κ} → Outcome A → (A → Outcome B) → Outcome B
ok a >>= f = f a
err e >>= f = err e

-- `fmt.Errorf("prefix: %w", err)` on the error of a result.
abbrev pub wrap_outcome {ℓ} : {A : Type ℓ} → String → Outcome A → Outcome A
wrap_outcome prefix (ok a) = ok a
wrap_outcome prefix (err e) = err (wrap prefix e)
