-- ===== src/Env.antt =====
-- What the operating system answers to the calls of one operation. An operation numbers its system
-- calls and the operations that it calls; an environment tells for each number whether the call
-- fails, and hands the operation behind the number an environment of its own. Theorems about every
-- environment are theorems about every pattern of failures.
use mykafka.Prelude.{
  ℕ, zero, suc, ◌-◌, Bool, true, false, List, [], ◌∷◌, length, take, min, if◌then◌else◌,
}
use mykafka.Error.{ErrCode, Exec, ok, err}

abbrev pub Env : Type 0
Env = List ℕ → ℕ

-- Every call succeeds.
abbrev pub calm : Env
calm _ = 0

abbrev pub succeeds : ℕ → Bool
succeeds zero = true
succeeds (suc _) = false

abbrev pub sub : Env → ℕ → Env
sub env k path = env (k ∷ path)

-- A system call with no effect on what is modelled, checked by its caller.
abbrev pub sys : {S : Type 0} → Env → ℕ → ErrCode → Exec S Unit
sys env k code s = if succeeds (env (k ∷ [])) then (ok tt, s) else (err code, s)

-- The bytes that ::write adds to a file, of the bytes that it is given: all of them, or fewer if it
-- fails or stops early.
abbrev pub written : ℕ → List ℕ → List ℕ
written zero bytes = bytes
written (suc n) bytes = take (min n (length bytes - 1)) bytes
