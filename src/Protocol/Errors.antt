-- ===== src/Protocol/Errors.antt =====
-- net/protocol/errors.go and the errors that codec.go makes on the spot, with the outcome of a Go
-- function that returns `(value, error)` or panics.
use zput_net_golang.Prelude.{ℕ}

pub data Error : Type 0 where
  invalid_fixed_length unexpected_eof delimiter_not_found crlf_not_found : Error
  unsupported_length too_less_length : Error
  -- the three `fmt.Errorf` of the length-field encoder, by the width that is too small
  does_not_fit : ℕ → Error
  -- the two `errors.New` of `innerBuffer.readN`
  invalid_length exceeding_length : Error

pub data Outcome {ℓ} (A : Type ℓ) : Type ℓ where
  returned : A → Outcome A
  failed : Error → Outcome A
  panicked : Outcome A

infixl 5 ◌>>=◌
abbrev pub ◌>>=◌ {ℓ κ} : {A : Type ℓ} {B : Type κ} → Outcome A → (A → Outcome B) → Outcome B
returned a >>= f = f a
failed e >>= f = failed e
panicked >>= f = panicked

-- `if err != nil { return nil, e }`: an error is replaced by the one that the caller names.
abbrev pub or_fail {ℓ} : {A : Type ℓ} → Error → Outcome A → Outcome A
or_fail e (returned a) = returned a
or_fail e (failed d) = failed e
or_fail e panicked = panicked
