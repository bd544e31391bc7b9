-- ===== src/Base/Panics.antt =====
-- What a test of the program does: it passes, or panics.
use mathlib.Core.Bool.{Bool, true, false}
use mathlib.Core.Option.{Option, none, some}
use patina_rpc.Base.Outcome.{Result, ok, err}

pub data Panic : Type 0 where
  panicked : Panic

abbrev pub Test : Type 0
Test = Result (Unit {0}) Panic

abbrev pub passed : Test
passed = ok tt

abbrev pub unwrap {ℓ κ} : {A : Type ℓ} {E : Type κ} → Result A E → Result A Panic
unwrap (ok a) = ok a
unwrap (err _) = err panicked

abbrev pub expect {ℓ} : {A : Type ℓ} → Option A → Result A Panic
expect none = err panicked
expect (some a) = ok a

abbrev pub assert : Bool → Test
assert true = ok tt
assert false = err panicked

abbrev pub is_none {ℓ} : {A : Type ℓ} → Option A → Bool
is_none none = true
is_none (some _) = false
