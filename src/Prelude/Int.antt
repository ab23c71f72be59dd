-- ===== src/Prelude/Int.antt =====
-- Go's `int` and `int64`, as integers over the native numbers; `negsuc n` is -(n + 1).
use Prim.Native.Nat.{ℕ, suc, ◌+◌, ◌-◌, ◌≤◌}
use mathlib.Core.Bool.{Bool}
use mathlib.Core.Path.{◌≡◌, ap}
use mathlib.Core.Logic.{inl, inr}
use native.Mathlib.Omega.{arith}
use sia_optimization_proposa.Prelude.Tests.{ltb, leb, if◌then◌else◌, Bool-cases, leb→le}

pub data ℤ : Type 0 where
  pos : ℕ → ℤ
  negsuc : ℕ → ℤ

abbrev pub pos_part : ℤ → ℕ
pos_part (pos n) = n
pos_part (negsuc n) = 0

abbrev pub neg_part : ℤ → ℕ
neg_part (pos n) = 0
neg_part (negsuc n) = suc n

-- a - b, as an integer.
abbrev pub sub_ℕ : ℕ → ℕ → ℤ
sub_ℕ a b = if leb b a then pos (a - b) else negsuc (b - a - 1)

infixl 65 ◌+ℤ◌ ◌-ℤ◌
unfoldable pub ◌+ℤ◌ : ℤ → ℤ → ℤ
a +ℤ b = sub_ℕ (pos_part a + pos_part b) (neg_part a + neg_part b)

unfoldable pub ◌-ℤ◌ : ℤ → ℤ → ℤ
a -ℤ b = sub_ℕ (pos_part a + neg_part b) (neg_part a + pos_part b)

abbrev pub ltb_ℤ : ℤ → ℤ → Bool
ltb_ℤ a b = ltb (pos_part a + neg_part b) (pos_part b + neg_part a)

abbrev pub leb_ℤ : ℤ → ℤ → Bool
leb_ℤ a b = leb (pos_part a + neg_part b) (pos_part b + neg_part a)

infix 50 ◌≤ℤ◌
abbrev pub ◌≤ℤ◌ : ℤ → ℤ → Type 0
a ≤ℤ b = pos_part a + neg_part b ≤ pos_part b + neg_part a

-- `omega` reads integers through their parts.
sub_ℕ_lem : (a b : ℕ) → pos_part (sub_ℕ a b) + b ≡ neg_part (sub_ℕ a b) + a
sub_ℕ_lem a b = elim (Bool-cases (leb b a)) [
  | inl h ↦ rw h (omega (arith, leb→le b a h))
  | inr h ↦ rw h (ground arith)
]

pub add_value :
    (a b : ℤ)
    → pos_part (a +ℤ b) + (neg_part a + neg_part b) ≡ neg_part (a +ℤ b) + (pos_part a + pos_part b)
unfolding ◌+ℤ◌
add_value a b = sub_ℕ_lem (pos_part a + pos_part b) (neg_part a + neg_part b)

pub sub_value :
    (a b : ℤ)
    → pos_part (a -ℤ b) + (neg_part a + pos_part b) ≡ neg_part (a -ℤ b) + (pos_part a + neg_part b)
unfolding ◌-ℤ◌
sub_value a b = sub_ℕ_lem (pos_part a + neg_part b) (neg_part a + pos_part b)

pub ext_ℤ : (a b : ℤ) → pos_part a + neg_part b ≡ neg_part a + pos_part b → a ≡ b
ext_ℤ (pos a) (pos b) h = ap pos (omega (arith, h))
ext_ℤ (pos a) (negsuc b) h = absurd (omega (arith, h))
ext_ℤ (negsuc a) (pos b) h = absurd (omega (arith, h))
ext_ℤ (negsuc a) (negsuc b) h = ap negsuc (omega (arith, h))
