-- ===== src/WindowManager/Headless/Pixels/Distance.antt =====
-- window-manager/backend/headless/headless.go: the distances of `DrawCircle`, and the loops that come
-- to every pixel of the disc.
use tac_os.Base.{
  ℕ, zero, suc, ◌≡◌, refl, ap, ◌∙◌, arith, ◌+◌, ◌-◌, ◌*◌, ◌≤◌, ◌<◌, ltb, leb, Bool, true,
  Bool-cases, inl, inr, ℤ, pos, negsuc, negated, int_ltb, ◌+ℤ◌, ◌-ℤ◌, sub_ℕ, int64, int64_exact,
  magnitude, from_zero, int_min, within,
}
use native.Mathlib.Nat.{mul-le-mul}
use tac_os.WindowManager.Headless.Pixels.{square, in_circle, count_to, first, last}

-- the distance of a column, or row, to a coordinate of the center
abbrev pub apart : ℕ → ℤ → ℕ
apart k (pos a) = (k - a) + (a - k)
apart k (negsuc a) = k + suc a

-- the pixel (k, l) is in the closed disc
abbrev pub is_near : ℤ → ℤ → ℕ → ℕ → ℕ → Bool
is_near x y r k l = leb (apart k x * apart k x + apart l y * apart l y) (r * r)

magnitude-sub_ℕ : (k a : ℕ) → magnitude (sub_ℕ k a) ≡ (k - a) + (a - k)
magnitude-sub_ℕ k zero = omega arith
magnitude-sub_ℕ zero (suc a) = omega arith
magnitude-sub_ℕ (suc k) (suc a) = magnitude-sub_ℕ k a ∙ omega arith

pub apart_lem : (k : ℕ) (x : ℤ) → magnitude (pos k -ℤ x) ≡ apart k x
unfolding ◌+ℤ◌
apart_lem k (pos zero) = omega arith
apart_lem k (pos (suc a)) = magnitude-sub_ℕ k (suc a)
apart_lem k (negsuc a) = refl

square-magnitude : (x : ℤ) → square x ≡ magnitude x * magnitude x
square-magnitude (pos n) = refl
square-magnitude (negsuc n) = refl

apart_bound : (k : ℕ) (x : ℤ) → k < 1073741824 → magnitude x ≤ 1073741824 → apart k x ≤ 2147483647
apart_bound k (pos a) h m = omega arith
apart_bound k (negsuc a) h m = omega arith

-- the square of a wrapped distance
square_exact :
    (k : ℕ) (x : ℤ)
    → k < 1073741824
    → magnitude x ≤ 1073741824
    → square (int64 (pos k -ℤ x)) ≡ apart k x * apart k x
square_exact k x h m =
    let b = apart_bound k x h m in
    let e = apart_lem k x in
    ap square (int64_exact (pos k -ℤ x) (omega arith))
    ∙ square-magnitude (pos k -ℤ x)
    ∙ ap (λ d. d * d) e

square_bound : (d : ℕ) → d ≤ 2147483647 → d * d ≤ 4611686014132420609
square_bound d h = mul-le-mul h h

pub in_circle_exact :
    (x y : ℤ) (r k l : ℕ)
    → magnitude x ≤ 1073741824
    → magnitude y ≤ 1073741824
    → r ≤ 1073741824
    → k < 1073741824
    → l < 1073741824
    → in_circle x y (pos r) k l ≡ is_near x y r k l
unfolding in_circle int_ltb
in_circle_exact x y r k l hx hy hr hk hl =
    let a = square_bound (apart k x) (apart_bound k x hk hx) in
    let b = square_bound (apart l y) (apart_bound l y hl hy) in
    let c = square_bound r (omega arith) in
    rw
      (
        square_exact k x hk hx,
        square_exact l y hl hy,
        int64_exact (pos (r * r)) (omega arith),
        int64_exact (pos (apart k x * apart k x + apart l y * apart l y)) (omega arith),
      )
      (ground arith)

near_le : (d e r : ℕ) → leb (d * d + e * e) (r * r) ≡ true → d ≤ r
near_le d e r h = elim (Bool-cases (leb d r)) [
  | inl k ↦ ground arith
  | inr k ↦
      let big : suc r ≤ d = ground arith in let square_big = mul-le-mul big big in ground arith
]

min_reaches : (k a b : ℕ) → k ≤ a → k ≤ b → (t : ℕ) × ((int_min (pos a) (pos b) ≡ pos t) × (k ≤ t))
unfolding int_ltb
min_reaches k a b h m = elim (Bool-cases (ltb b a)) [
  | inl e ↦ (b, (rw e refl, m))
  | inr e ↦ (a, (rw e refl, h))
]

pub sub_ℕ_exact : (a b : ℕ) → b ≤ a → sub_ℕ a b ≡ pos (a - b)
sub_ℕ_exact a zero h = ap pos (omega arith)
sub_ℕ_exact zero (suc b) h = ground arith
sub_ℕ_exact (suc a) (suc b) h = sub_ℕ_exact a b (omega arith) ∙ ap pos (omega arith)

from_zero-sub_ℕ : (a b : ℕ) → from_zero (sub_ℕ a b) ≡ a - b
from_zero-sub_ℕ a zero = omega arith
from_zero-sub_ℕ zero (suc b) = omega arith
from_zero-sub_ℕ (suc a) (suc b) = from_zero-sub_ℕ a b ∙ omega arith

magnitude-add : (x y : ℤ) → magnitude (x +ℤ y) ≤ magnitude x + magnitude y
unfolding ◌+ℤ◌
magnitude-add (pos a) (pos b) = omega arith
magnitude-add (pos a) (negsuc b) = let e = magnitude-sub_ℕ a (suc b) in omega arith
magnitude-add (negsuc a) (pos b) = let e = magnitude-sub_ℕ b (suc a) in omega arith
magnitude-add (negsuc a) (negsuc b) = omega arith

magnitude-negated : (n : ℕ) → magnitude (negated n) ≡ n
magnitude-negated zero = refl
magnitude-negated (suc n) = refl

-- a wrapped sum or difference of small numbers
pub sum_exact :
    (x : ℤ) (r : ℕ)
    → magnitude x ≤ 1073741824
    → r ≤ 1073741824
    → (int64 (x +ℤ pos r) ≡ x +ℤ pos r) × (int64 (x -ℤ pos r) ≡ x -ℤ pos r)
sum_exact x r h m =
    let a = magnitude-add x (pos r) in
    let b = magnitude-add x (negated r) in
    let c = magnitude-negated r in
    (int64_exact (x +ℤ pos r) (omega arith), int64_exact (x -ℤ pos r) (omega arith))

first_le :
    (k r : ℕ) (x : ℤ)
    → magnitude x ≤ 1073741824
    → r ≤ 1073741824
    → apart k x ≤ r
    → first x (pos r) ≤ k
unfolding first ◌+ℤ◌
first_le k r x h m d = rw ((sum_exact x r h m).1) (low x r d)
  where
    low : (x : ℤ) (r : ℕ) → apart k x ≤ r → from_zero (x -ℤ pos r) ≤ k
    low (pos a) zero d = omega arith
    low (pos a) (suc r) d = let e = from_zero-sub_ℕ a (suc r) in omega arith
    low (negsuc a) zero d = omega arith
    low (negsuc a) (suc r) d = omega arith

last_reaches :
    (k r w : ℕ) (x : ℤ)
    → magnitude x ≤ 1073741824
    → r ≤ 1073741824
    → apart k x ≤ r
    → k < w
    → (t : ℕ) × ((last x (pos r) w ≡ pos t) × (k ≤ t))
unfolding last ◌+ℤ◌
last_reaches k r w x h m d e =
    let b : sub_ℕ w 1 ≡ pos (w - 1) = sub_ℕ_exact w 1 (omega arith) in
    rw ((sum_exact x r h m).0, b) (high x d)
  where
    high :
        (x : ℤ) → apart k x ≤ r → (t : ℕ) × ((int_min (x +ℤ pos r) (pos (w - 1)) ≡ pos t) × (k ≤ t))
    high (pos a) d = min_reaches k (a + r) (w - 1) (omega arith) (omega arith)
    high (negsuc a) d =
        let f : sub_ℕ r (suc a) ≡ pos (r - suc a) = sub_ℕ_exact r (suc a) (omega arith) in
        rw f (min_reaches k (r - suc a) (w - 1) (omega arith) (omega arith))

-- The loop over the columns, or rows, comes to each one that the disc can reach.
pub in_loop :
    (k r w : ℕ) (x : ℤ)
    → magnitude x ≤ 1073741824
    → r ≤ 1073741824
    → apart k x ≤ r
    → k < w
    → within (first x (pos r)) (count_to (first x (pos r)) (last x (pos r) w)) k ≡ true
in_loop k r w x h m d e =
    let low = first_le k r x h m d in
    let (t, (f, high)) = last_reaches k r w x h m d e in rw f (ground arith)

-- A pixel of the disc is in both loops.
pub reached :
    (x y : ℤ) (r w h k l : ℕ)
    → magnitude x ≤ 1073741824
    → magnitude y ≤ 1073741824
    → r ≤ 1073741824
    → k < w
    → l < h
    → is_near x y r k l ≡ true
    → (within (first y (pos r)) (count_to (first y (pos r)) (last y (pos r) h)) l ≡ true)
      × (within (first x (pos r)) (count_to (first x (pos r)) (last x (pos r) w)) k ≡ true)
reached x y r w h k l hx hy hr hk hl n = (
  in_loop l r h y hy hr (near_le (apart l y) (apart k x) r (ground arith)) hl,
  in_loop k r w x hx hr (near_le (apart k x) (apart l y) r n) hk,
)
