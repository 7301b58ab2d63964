-- ===== src/WindowManager/Headless/Pixels/Scaled.antt =====
-- window-manager/backend/headless/headless.go: the rectangle of `DrawImage` in the window, and which
-- pixel of the image each of its pixels is taken from.
use tac_os.Base.{
  ℕ, zero, suc, ◌≡◌, refl, ap, ◌∙◌, arith, ◌+◌, ◌-◌, ◌*◌, ◌/◌, ◌≤◌, ◌<◌, ltb, leb, ◌&&◌, Bool, true,
  false, if_both, Bool-cases, inl, inr, ℤ, pos, negsuc, int_ltb, ◌+ℤ◌, ◌-ℤ◌, sub_ℕ, ◌⊎◌,
  int64_exact, magnitude, from_zero, int_min, int_max, within,
}
use native.Mathlib.Nat.{mul-le-mul, mul-lt-mul_of_pos_right, div-lt_iff_lt-mul}
use tac_os.WindowManager.Headless.Blend.Exact.{IsShade}
use tac_os.WindowManager.Headless.Pixels.{Picture, sampled, start, extent, count_below}
use tac_os.WindowManager.Headless.Pixels.Distance.{apart, sum_exact, sub_ℕ_exact}

abbrev pub IsPicture : Picture → Type 0
IsPicture p = (a b : ℤ) → IsShade (p.shade_at a b)

-- the column, or row, k is one of the a that start at x
abbrev pub covers : ℤ → ℕ → ℕ → Bool
covers (pos b) a k = leb b k && ltb k (b + a)
covers (negsuc b) a k = ltb (k + suc b) a

-- the column, or row, of an image with so many that is scaled to k
abbrev pub source : ℤ → ℕ → ℕ → ℕ → ℕ
source x a columns k = apart k x * columns / a

after : (k a : ℕ) (x : ℤ) → covers x a k ≡ true → pos k -ℤ x ≡ pos (apart k x)
unfolding ◌+ℤ◌
after k a (pos zero) h = ap pos (omega arith)
after k a (pos (suc b)) h = sub_ℕ_exact k (suc b) (ground arith) ∙ ap pos (ground arith)
after k a (negsuc b) h = refl

apart_lt : (k a : ℕ) (x : ℤ) → covers x a k ≡ true → apart k x < a
apart_lt k a (pos b) h = ground arith
apart_lt k a (negsuc b) h = ground arith

-- Each pixel is taken from inside of the image.
pub source_lt :
    (x : ℤ) (a columns k : ℕ)
    → zero < columns
    → covers x a k ≡ true
    → source x a columns k < columns
source_lt x a columns k n h =
    let l = apart_lt k a x h in
    let m : apart k x * columns < a * columns = mul-lt-mul_of_pos_right l n in
    let positive : zero < a = omega arith in
    let t : apart k x * columns < columns * a = omega arith in (div-lt_iff_lt-mul positive).1 t

pub sampled_exact :
    (k a columns : ℕ) (x : ℤ)
    → a ≤ 1073741824
    → columns ≤ 4294967296
    → covers x a k ≡ true
    → sampled k x columns (pos a) ≡ pos (source x a columns k)
unfolding sampled
sampled_exact k a columns x h m c =
    let l = apart_lt k a x c in
    let b : apart k x * columns ≤ 1073741824 * 4294967296 =
      mul-le-mul {n₂ = 1073741824} (omega arith) m in
    rw
      (
        after k a x c,
        int64_exact (pos (apart k x)) (omega arith),
        int64_exact (pos (apart k x * columns)) (omega arith),
      )
      refl

sub_ℕ_negative : (a b : ℕ) → a < b → (c : ℕ) × (sub_ℕ a b ≡ negsuc c)
sub_ℕ_negative a zero h = absurd (ground arith)
sub_ℕ_negative zero (suc b) h = (b, refl)
sub_ℕ_negative (suc a) (suc b) h = sub_ℕ_negative a b (omega arith)

min_negative : (b : ℕ) (y : ℤ) → from_zero (int_min (negsuc b) y) ≡ 0
unfolding int_ltb
min_negative b (pos c) = refl
min_negative b (negsuc c) = if_both (λ z. from_zero z ≡ 0) (ltb b c) _ _ (λ e. refl) (λ e. refl)

-- where the rectangle ends in the window, if it starts before the window does
end_negative :
    (b size c : ℕ) → count_below 0 (int_min (int_max (negsuc b) (negsuc c)) (pos size)) ≡ 0
unfolding int_ltb
end_negative b size c =
    if_both (λ z. count_below 0 (int_min z (pos size)) ≡ 0) (ltb c b) _ _ (λ e. refl) (λ e. refl)

end_positive :
    (a size : ℕ)
    → (c : ℕ) × ((int_min (pos a) (pos size) ≡ pos c) × ((c ≡ a) ⊎ ((c ≡ size) × (size < a))))
unfolding int_ltb
end_positive a size = elim (Bool-cases (ltb size a)) [
  | inl e ↦ (size, (rw e refl, inr (refl, ground arith)))
  | inr e ↦ (a, (rw e refl, inl refl))
]

start_pos : (b a : ℕ) → from_zero (int_min (pos b) (pos (b + a))) ≡ b
unfolding int_ltb
start_pos b a = let e : ltb (b + a) b ≡ false = ground arith in rw e refl

max_pos : (b a : ℕ) → int_max (pos b) (pos (b + a)) ≡ pos (b + a)
unfolding int_ltb
max_pos b a =
    if_both (λ z. z ≡ pos (b + a)) (ltb b (b + a)) _ _ (λ e. refl) (λ e. ap pos (ground arith))

max_negative : (b c : ℕ) → int_max (negsuc b) (pos c) ≡ pos c
unfolding int_ltb
max_negative b c = refl

-- In the window, the loop comes to the columns, or rows, of the rectangle and to no other.
pub span_lem :
    (x : ℤ) (a size k : ℕ)
    → magnitude x ≤ 1073741824
    → a ≤ 1073741824
    → k < size
    → within (start x (pos a)) (extent x (pos a) size) k ≡ covers x a k
unfolding start extent ◌+ℤ◌
span_lem (pos b) a size k h m l =
    let (c, (e, f)) = end_positive (b + a) size in
    rw ((sum_exact (pos b) a h m).0, start_pos b a, max_pos b a, e) (ground arith)
span_lem (negsuc b) a size k h m l =
    rw ((sum_exact (negsuc b) a h m).0, min_negative b (sub_ℕ a (suc b)))
      (elim (Bool-cases (ltb a (suc b))) [
        | inl t ↦
            let (c, e) = sub_ℕ_negative a (suc b) (ground arith) in
            rw (e, end_negative b size c) (ground arith)
        | inr t ↦
            let e = sub_ℕ_exact a (suc b) (ground arith) in
            let (c, (f, g)) = end_positive (a - suc b) size in
            rw (e, max_negative b (a - suc b), f) (ground arith)
      ])
