-- ===== src/Prelude/Inversion.antt =====
-- What the value of a Boolean test says.
use Prim.Native.Nat.{ℕ, ◌≤◌}
use mathlib.Core.Path.{◌≡◌}
use mathlib.Core.Bool.{Bool, true, false, not, ◌&&◌, ◌||◌}
use native.Mathlib.Omega.{arith}
use verglos_cli.Prelude.Tests.{ltb, leb}

pub both : (a b : Bool) → (a && b) ≡ true → (a ≡ true) × (b ≡ true)
both a b h = ground (arith, h)

pub and_true : (a b : Bool) → a ≡ true → b ≡ true → (a && b) ≡ true
and_true a b h k = ground (arith, h, k)

pub neither : (a b : Bool) → (a || b) ≡ false → (a ≡ false) × (b ≡ false)
neither a b h = ground (arith, h)

pub true_of : {a : Bool} → not a ≡ false → a ≡ true
true_of h = ground (arith, h)

pub le_of_leb : (n m : ℕ) → leb n m ≡ true → n ≤ m
le_of_leb n m h = ground (arith, h)

pub leb_of_le : (n m : ℕ) → n ≤ m → leb n m ≡ true
leb_of_le n m h = ground (arith, h)

pub le_of_ltb : (n m : ℕ) → ltb m n ≡ false → n ≤ m
le_of_ltb n m h = ground (arith, h)

pub ltb_of_le : (n m : ℕ) → n ≤ m → ltb m n ≡ false
ltb_of_le n m h = ground (arith, h)
