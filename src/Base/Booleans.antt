-- ===== src/Base/Booleans.antt =====
-- Tests that are joined, taken apart, and the order of numbers as a test.
use Prim.Native.Nat.{ℕ, ◌≤◌, compare, Ordering}
use native.Mathlib.Omega.{arith}
use mathlib.Core.Path.{◌≡◌, refl}
use mathlib.Core.Logic.{◌≢◌}
use mathlib.Core.Bool.{Bool, true, false, not, ◌&&◌, ◌||◌}

pub false-true : false ≢ true
false-true e = cc

pub and-left : (a b : Bool) → (a && b) ≡ true → a ≡ true
and-left true b e = refl
and-left false b e = e

pub and-right : (a b : Bool) → (a && b) ≡ true → b ≡ true
and-right true b e = e
and-right false b e = cc

pub and-both : {a b : Bool} → a ≡ true → b ≡ true → (a && b) ≡ true
and-both p q = rw (p, q) refl

pub not-true : (a : Bool) → not a ≡ true → a ≡ false
not-true true e = cc
not-true false e = refl

pub or-right : (a : Bool) {b : Bool} → b ≡ true → (a || b) ≡ true
or-right true e = refl
or-right false e = e

pub or-left : {a : Bool} (b : Bool) → a ≡ true → (a || b) ≡ true
or-left b e = rw e refl

pub or_false : (a : Bool) → (a || false) ≡ a
or_false true = refl
or_false false = refl

abbrev pub leb : ℕ → ℕ → Bool
leb a b = elim (compare a b) [ Ordering.gt ↦ false | _ ↦ true ]

pub leb-true : (a b : ℕ) → leb a b ≡ true → a ≤ b
leb-true a b e = ground (arith, e)
