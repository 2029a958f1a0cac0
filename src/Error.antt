-- ===== src/Error.antt =====
-- The error codes of protos/mykafka.proto, the outcome of a call, and calls on an object.
use mykafka.Prelude.{Bool, true, false}

-- enum ErrCode
pub data ErrCode : Type 0 where
  success invalid_filename file_not_found file_error index_error log_error partition_error : ErrCode
  topic_error not_found no_message : ErrCode

-- How a call ends. `ok a` is the code OK with what the call hands over; `err` is another code, its
-- message left out; `fault` is undefined behaviour, such as an access outside the mapped memory, a
-- failed assertion, or an exception that nothing catches.
-- `out_of_fuel` is no behaviour of the program: a loop of the model ran out of rounds.
pub data Outcome {ℓ} (A : Type ℓ) : Type ℓ where
  ok : A → Outcome A
  err : ErrCode → Outcome A
  fault : Outcome A
  out_of_fuel : Outcome A

-- A method of an object: what it wrote before an error stays written.
abbrev pub Exec {ℓ} : Type ℓ → Type ℓ → Type ℓ
Exec S A = S → Outcome A × S

module _ {ℓ} {S A : Type ℓ} where
  abbrev pub pure : A → Exec S A
  pure a s = (ok a, s)

  abbrev pub fail : ErrCode → Exec S A
  fail c s = (err c, s)

  abbrev pub lift : Outcome A → Exec S A
  lift r s = (r, s)

  abbrev pub gets : (S → A) → Exec S A
  gets f s = (ok (f s), s)

module _ {ℓ} {S A B : Type ℓ} where
  abbrev pub continue : Outcome A → (A → Exec S B) → Exec S B
  continue (ok a) f s = f a s
  continue (err c) f s = (err c, s)
  continue fault f s = (fault, s)
  continue out_of_fuel f s = (out_of_fuel, s)

  infixl 5 ◌>>=◌ ◌>>◌
  abbrev pub ◌>>=◌ : Exec S A → (A → Exec S B) → Exec S B
  ◌>>=◌ m f s = let (r, s') = m s in continue r f s'

  abbrev pub ◌>>◌ : Exec S A → Exec S B → Exec S B
  m >> n = m >>= λ _. n

module _ {S : Type 0} where
  abbrev pub guard : Bool → ErrCode → Exec S Unit
  guard true c = pure tt
  guard false c = fail c

  abbrev pub modify : (S → S) → Exec S Unit
  modify f s = (ok tt, f s)
