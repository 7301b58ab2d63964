-- ===== src/Base/Int.antt =====
-- Go's signed integers. Their range is stated where code depends on it.
use mathlib.Core.Bool.{Bool, true, false}
use Prim.Native.Nat.{ℕ, zero, suc, ◌+◌, ◌-◌, ◌%◌, ◌^◌, ◌<◌}
use mathlib.Core.Path.{◌≡◌, refl, ap}
use native.Mathlib.Omega.{arith}
use tac_os.Base.Tests.{◌==◌, ltb, if◌then◌else◌}

-- `negsuc n` is -(n + 1)
pub data ℤ : Type 0 where
  pos : ℕ → ℤ
  negsuc : ℕ → ℤ

abbrev pub int_eq : ℤ → ℤ → Bool
int_eq (pos a) (pos b) = a == b
int_eq (negsuc a) (negsuc b) = a == b
int_eq _ _ = false

-- `x > 0`
abbrev pub is_positive : ℤ → Bool
is_positive (pos zero) = false
is_positive (pos (suc n)) = true
is_positive (negsuc n) = false

-- `x == 0`
abbrev pub is_zero : ℤ → Bool
is_zero (pos zero) = true
is_zero (pos (suc n)) = false
is_zero (negsuc n) = false

-- Go's `<` on integers
unfoldable pub int_ltb : ℤ → ℤ → Bool
int_ltb (pos a) (pos b) = ltb a b
int_ltb (pos a) (negsuc b) = false
int_ltb (negsuc a) (pos b) = true
int_ltb (negsuc a) (negsuc b) = ltb b a

pub int_eq→≡ : (x y : ℤ) → int_eq x y ≡ true → x ≡ y
int_eq→≡ (pos a) (pos b) h = ap pos (ground arith)
int_eq→≡ (pos a) (negsuc b) h = cc
int_eq→≡ (negsuc a) (pos b) h = cc
int_eq→≡ (negsuc a) (negsuc b) h = ap negsuc (ground arith)

pub int_eq_refl : (x : ℤ) → int_eq x x ≡ true
int_eq_refl (pos a) = ground arith
int_eq_refl (negsuc a) = ground arith

pub int_ltb_total : (x y : ℤ) → int_ltb x y ≡ false → int_eq x y ≡ false → int_ltb y x ≡ true
unfolding int_ltb
int_ltb_total (pos a) (pos b) h k = ground arith
int_ltb_total (pos a) (negsuc b) h k = refl
int_ltb_total (negsuc a) (pos b) h k = cc
int_ltb_total (negsuc a) (negsuc b) h k = ground arith

pub int_ltb_trans : (x y z : ℤ) → int_ltb x y ≡ true → int_ltb y z ≡ true → int_ltb x z ≡ true
unfolding int_ltb
int_ltb_trans (pos a) (pos b) (pos c) h k = ground arith
int_ltb_trans (negsuc a) (pos b) (pos c) h k = refl
int_ltb_trans (negsuc a) (negsuc b) (pos c) h k = refl
int_ltb_trans (negsuc a) (negsuc b) (negsuc c) h k = ground arith
int_ltb_trans (pos a) (pos b) (negsuc c) h k = cc
int_ltb_trans (pos a) (negsuc b) z h k = cc
int_ltb_trans (negsuc a) (pos b) (negsuc c) h k = cc

pub int_eq_comm : (x y : ℤ) → int_eq x y ≡ int_eq y x
int_eq_comm (pos a) (pos b) = ground arith
int_eq_comm (pos a) (negsuc b) = refl
int_eq_comm (negsuc a) (pos b) = refl
int_eq_comm (negsuc a) (negsuc b) = ground arith

-- a - b, of natural numbers
abbrev pub sub_ℕ : ℕ → ℕ → ℤ
sub_ℕ a zero = pos a
sub_ℕ zero (suc b) = negsuc b
sub_ℕ (suc a) (suc b) = sub_ℕ a b

infixl 65 ◌+ℤ◌
unfoldable pub ◌+ℤ◌ : ℤ → ℤ → ℤ
pos a +ℤ pos b = pos (a + b)
pos a +ℤ negsuc b = sub_ℕ a (suc b)
negsuc a +ℤ pos b = sub_ℕ b (suc a)
negsuc a +ℤ negsuc b = negsuc (suc (a + b))

-- -a, of a natural number
abbrev pub negated : ℕ → ℤ
negated zero = pos 0
negated (suc n) = negsuc n

-- -x
abbrev pub neg : ℤ → ℤ
neg (pos n) = negated n
neg (negsuc n) = pos (suc n)

infixl 65 ◌-ℤ◌
abbrev pub ◌-ℤ◌ : ℤ → ℤ → ℤ
x -ℤ y = x +ℤ neg y

-- the value of an `int` of 64 bits, which wraps around
unfoldable pub int64 : ℤ → ℤ
int64 (pos n) = let m = n % 2 ^ 64 in if ltb m (2 ^ 63) then pos m else negsuc (2 ^ 64 - 1 - m)
int64 (negsuc n) = let m = n % 2 ^ 64 in if ltb m (2 ^ 63) then negsuc m else pos (2 ^ 64 - 1 - m)

-- |x|
abbrev pub magnitude : ℤ → ℕ
magnitude (pos n) = n
magnitude (negsuc n) = suc n

pub int64_exact : (x : ℤ) → magnitude x < 2 ^ 63 → int64 x ≡ x
unfolding int64
int64_exact (pos n) h =
    let e : n % 2 ^ 64 ≡ n = omega arith in
    let t : ltb n (2 ^ 63) ≡ true = ground arith in rw (e, t) refl
int64_exact (negsuc n) h =
    let e : n % 2 ^ 64 ≡ n = omega arith in
    let t : ltb n (2 ^ 63) ≡ true = ground arith in rw (e, t) refl

-- `max(x, 0)` and `min(x, y)`
abbrev pub from_zero : ℤ → ℕ
from_zero (pos n) = n
from_zero (negsuc n) = 0

abbrev pub int_min : ℤ → ℤ → ℤ
int_min x y = if int_ltb y x then y else x

abbrev pub int_max : ℤ → ℤ → ℤ
int_max x y = if int_ltb x y then y else x
