-- ===== src/Base/Arrays.antt =====
-- A C array as a function of its index, and the write of one cell.
use Prim.Native.Nat.{ℕ}
use mathlib.Core.Path.{◌≡◌}
use mathlib.Core.Logic.{◌≢◌}
use native.Mathlib.Omega.{arith}
use apollolib.Base.Tests.{◌==◌, if◌then◌else◌}

abbrev pub Array {ℓ} : Type ℓ → Type ℓ
Array A = ℕ → A

module _ {ℓ} {A : Type ℓ} where
  abbrev pub set : Array A → ℕ → A → Array A
  set f i v j = if i == j then v else f j

  pub set_self : (f : Array A) (i : ℕ) (v : A) → set f i v i ≡ v
  set_self f i v = ground arith

  pub set_ne : (f : Array A) (i j : ℕ) (v : A) → i ≢ j → set f i v j ≡ f j
  set_ne f i j v h = ground arith
