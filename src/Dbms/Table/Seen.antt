-- ===== src/Dbms/Table/Seen.antt =====
-- server/dbms/database.go: the indices met by the loops over named columns.
use tac_os.Base.{
  ℕ, zero, suc, ◌+◌, ◌≤◌, ◌<◌, ◌≡◌, refl, arith, true, false, ◌==◌, ltb, if◌then◌else◌, Bool-cases,
  inl, inr, List, [], ◌∷◌, length, All,
}
use tac_os.Dbms.Table.{seen_at}

-- No index stands twice.
abbrev pub IsDistinct : List ℕ → Type 0
IsDistinct [] = Unit
IsDistinct (j ∷ seen) = (seen_at seen j ≡ false) × IsDistinct seen

pub seen_at-nil : (j : ℕ) → seen_at [] j ≡ false
unfolding seen_at
seen_at-nil j = refl

-- How many of the indices below `n` have been seen.
count_seen : ℕ → List ℕ → ℕ
count_seen zero seen = 0
count_seen (suc n) seen = (if seen_at seen n then 1 else 0) + count_seen n seen

count_seen-le : (n : ℕ) (seen : List ℕ) → count_seen n seen ≤ n
unfolding count_seen
count_seen-le zero seen = omega arith
count_seen-le (suc n) seen = ground (arith, count_seen-le n seen)

count_seen-cons :
    (n j : ℕ) (seen : List ℕ)
    → seen_at seen j ≡ false
    → count_seen n (j ∷ seen) ≡ (if ltb j n then 1 else 0) + count_seen n seen
unfolding count_seen seen_at
count_seen-cons zero j seen new = ground arith
count_seen-cons (suc n) j seen new = ground (arith, count_seen-cons n j seen new)

-- An index that was passed over is missing from the count.
count_seen-lt : (n i : ℕ) (seen : List ℕ) → i < n → seen_at seen i ≡ false → count_seen n seen < n
unfolding count_seen
count_seen-lt zero i seen h new = absurd (omega arith)
count_seen-lt (suc n) i seen h new = elim (Bool-cases (i == n)) [
  | inl e ↦ ground (arith, count_seen-le n seen)
  | inr e ↦ ground (arith, count_seen-le n seen, count_seen-lt n i seen)
]

count_seen-nil : (n : ℕ) → count_seen n [] ≡ 0
unfolding count_seen seen_at
count_seen-nil zero = refl
count_seen-nil (suc n) = omega (arith, count_seen-nil n)

count_seen-length :
    (n : ℕ) (seen : List ℕ)
    → IsDistinct seen
    → All (λ j. j < n) seen
    → count_seen n seen ≡ length seen
count_seen-length n [] d b = count_seen-nil n
count_seen-length n (j ∷ seen) d b =
    ground (arith, count_seen-cons n j seen d.0, count_seen-length n seen d.1 b.1)

-- As many distinct indices below `n` as `n` are all of them.
pub seen_everywhere :
    (n : ℕ) (seen : List ℕ)
    → IsDistinct seen
    → All (λ j. j < n) seen
    → length seen ≡ n
    → (i : ℕ) → i < n
    → seen_at seen i ≡ true
seen_everywhere n seen d b e i h = elim (Bool-cases (seen_at seen i)) [
  | inl yes_seen ↦ yes_seen
  | inr new ↦ absurd (omega (arith, count_seen-lt n i seen h new, count_seen-length n seen d b))
]
