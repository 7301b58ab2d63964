-- ===== src/Base/Sets.antt =====
-- Sets of numbers as lists: Go's maps that hold only keys.
use Prim.Native.Nat.{ℕ, ◌≤◌, ◌<◌}
use mathlib.Core.Path.{◌≡◌, refl, ap, ◌∙◌}
use mathlib.Core.Logic.{inl, inr}
use mathlib.Core.Bool.{Bool, true, false, not, ◌&&◌, ◌||◌}
use mathlib.Core.List.{List, [], ◌∷◌}
use native.Mathlib.Omega.{arith}
use tac_os.Base.Lists.{length}
use tac_os.Base.Tests.{Bool-cases, ◌==◌, if◌then◌else◌, ==→≡}

unfoldable pub has : ℕ → List ℕ → Bool
has c [] = false
has c (d ∷ ds) = d == c || has c ds

-- `delete(m, c)`
unfoldable pub without : ℕ → List ℕ → List ℕ
without c [] = []
without c (d ∷ ds) = let rest = without c ds in if d == c then rest else d ∷ rest

-- `for c := range cs { delete(m, c) }`
unfoldable pub without_all : List ℕ → List ℕ → List ℕ
unfolding without
without_all [] m = m
without_all (c ∷ cs) m = without_all cs (without c m)

abbrev pub Within : List ℕ → List ℕ → Type 0
Within a b = (c : ℕ) → has c a ≡ true → has c b ≡ true

pub has-without : (d c : ℕ) (cs : List ℕ) → has d (without c cs) ≡ (has d cs && not (c == d))
unfolding has without
has-without d c [] = refl
has-without d c (x ∷ xs) = ground (arith, has-without d c xs)

pub has-without_all :
    (d : ℕ) (cs m : List ℕ) → has d (without_all cs m) ≡ (has d m && not (has d cs))
unfolding has without_all
has-without_all d [] m = ground arith
has-without_all d (c ∷ cs) m =
    has-without_all d cs (without c m) ∙ ground (arith, has-without d c m)

pub Within-add : (c : ℕ) (a b : List ℕ) → Within a b → Within (c ∷ a) (c ∷ b)
unfolding has
Within-add c a b h d k = elim (Bool-cases (c == d)) [
  | inl e ↦ ground arith
  | inr e ↦ ground (arith, h d (ground arith))
]

pub Within-without_left : (c : ℕ) (a b : List ℕ) → Within a b → Within (without c a) b
Within-without_left c a b h d k = h d (ground (arith, has-without d c a))

pub Within-without_all : (cs a b : List ℕ) → Within a b → Within (without_all cs a) b
Within-without_all cs a b h d k = h d (ground (arith, has-without_all d cs a))

-- What is not in the smaller set may be taken from the larger.
pub Within-without_right :
    (c : ℕ) (a b : List ℕ) → has c a ≡ false → Within a b → Within a (without c b)
Within-without_right c a b out h d k = elim (Bool-cases (c == d)) [
  | inl e ↦ ground (arith, ==→≡ c d e, has-without d c b)
  | inr e ↦ ground (arith, h d k, has-without d c b)
]

none_left : (cs : List ℕ) → ((c : ℕ) → has c cs ≡ true → ⊥) → cs ≡ []
unfolding has
none_left [] h = refl
none_left (c ∷ cs) h = absurd (h c (ground arith))

pub Within-nil : (a : List ℕ) → Within a [] → a ≡ []
unfolding has
Within-nil a h = none_left a (λ c k. absurd (ground (arith, h c k)))

-- All of a set's subset is taken from it.
pub without_all-nil : (cs m : List ℕ) → Within m cs → without_all cs m ≡ []
without_all-nil cs m h = none_left _ (λ c k. absurd (ground (arith, has-without_all c cs m, h c)))

pub length-without_le : (c : ℕ) (cs : List ℕ) → length (without c cs) ≤ length cs
unfolding without
length-without_le c [] = omega arith
length-without_le c (d ∷ ds) = ground (arith, length-without_le c ds)

-- What is taken from a set that has it at its head.
pub length-without_head : (c : ℕ) (cs : List ℕ) → length (without c (c ∷ cs)) ≤ length cs
unfolding without
length-without_head c cs = ground (arith, length-without_le c cs)

-- What is taken from a set that has it, and from one that does not.
pub length-without_lt : (c : ℕ) (cs : List ℕ) → has c cs ≡ true → length (without c cs) < length cs
unfolding has without
length-without_lt c [] h = cc
length-without_lt c (d ∷ ds) h = elim (Bool-cases (d == c)) [
  | inl e ↦ rw e (omega (arith, length-without_le c ds))
  | inr e ↦ rw e (omega (arith, length-without_lt c ds (ground arith)))
]

pub without_same : (c : ℕ) (cs : List ℕ) → has c cs ≡ false → without c cs ≡ cs
unfolding has without
without_same c [] h = refl
without_same c (d ∷ ds) h =
    let e : d == c ≡ false = ground arith in
    rw e (ap (λ es. d ∷ es) (without_same c ds (ground arith)))

pub without-nil : (c : ℕ) (m : List ℕ) → m ≡ [] → without c m ≡ []
unfolding without
without-nil c m e = rw e refl

pub Within-without_both : (c : ℕ) (a b : List ℕ) → Within a b → Within (without c a) (without c b)
Within-without_both c a b h d k =
    ground (arith, h d (ground (arith, has-without d c a)), has-without d c a, has-without d c b)

-- What is in the first set is in the second or in the third.
abbrev pub InEither : List ℕ → List ℕ → List ℕ → Type 0
InEither a b c = (d : ℕ) → has d a ≡ true → (has d b || has d c) ≡ true

pub InEither-add : (x : ℕ) (a b c : List ℕ) → InEither a b c → InEither (x ∷ a) (x ∷ b) c
unfolding has
InEither-add x a b c h d k = ground (arith, h d)

pub InEither-without_left : (x : ℕ) (a b c : List ℕ) → InEither a b c → InEither (without x a) b c
InEither-without_left x a b c h d k = h d (ground (arith, has-without d x a))

pub InEither-without_both :
    (x : ℕ) (a b c : List ℕ) → InEither a b c → InEither (without x a) (without x b) c
InEither-without_both x a b c h d k =
    ground (arith, h d (ground (arith, has-without d x a)), has-without d x a, has-without d x b)

-- from the second set to the third
pub InEither-moved : (x : ℕ) (a b c : List ℕ) → InEither a b c → InEither a (without x b) (x ∷ c)
unfolding has
InEither-moved x a b c h d k = ground (arith, h d k, has-without d x b)

pub InEither-without_right :
    (x : ℕ) (a b c : List ℕ) → has x a ≡ false → InEither a b c → InEither a b (without x c)
InEither-without_right x a b c out h d k = elim (Bool-cases (x == d)) [
  | inl e ↦ ground (arith, ==→≡ x d e)
  | inr e ↦ ground (arith, h d k, has-without d x c)
]

-- Without all of the third set, it is in the second.
pub InEither-without_all :
    (a b c : List ℕ) → InEither a b c → InEither (without_all c a) b c × Within (without_all c a) b
InEither-without_all a b c h = (
  λ d k. h d (ground (arith, has-without_all d c a)),
  λ d k. ground (arith, has-without_all d c a, h d (ground (arith, has-without_all d c a))),
)

pub InEither-nil : InEither [] [] []
unfolding has
InEither-nil d h = cc
