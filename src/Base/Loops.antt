-- ===== src/Base/Loops.antt =====
-- Counting loops over a state, and what they make of a part of it that one round alone changes.
use mathlib.Core.Bool.{Bool, true, false, ◌&&◌}
use Prim.Native.Nat.{ℕ, zero, suc, ◌+◌}
use mathlib.Core.Path.{◌≡◌, refl, sym, subst, ◌∙◌}
use mathlib.Core.Logic.{inl, inr}
use native.Mathlib.Omega.{arith}
use tac_os.Base.Tests.{◌==◌, ltb, leb, if◌then◌else◌, Bool-cases, ==→≡}

-- `for x := lo; x < lo + n; x++ { s = f(x, s) }`
unfoldable pub times {ℓ} : {S : Type ℓ} → (ℕ → S → S) → ℕ → ℕ → S → S
times f lo zero s = s
times f lo (suc n) s = times f (suc lo) n (f lo s)

-- lo <= k < lo + n
abbrev pub within : ℕ → ℕ → ℕ → Bool
within lo n k = leb lo k && ltb k (lo + n)

pub times_keeps {ℓ κ} :
    {S : Type ℓ} (Good : S → Type κ) (f : ℕ → S → S)
    → ((x : ℕ) (s : S) → Good s → Good (f x s))
    → (lo n : ℕ) (s : S) → Good s
    → Good (times f lo n s)
unfolding times
times_keeps Good f keeps lo zero s g = g
times_keeps Good f keeps lo (suc n) s g =
    times_keeps Good f keeps (suc lo) n (f lo s) (keeps lo s g)

module _ {ℓ κ ι} {S : Type ℓ} {P : Type ι} (Good : S → Type κ) (view : S → P) (f : ℕ → S → S)
    (keeps : (x : ℕ) (s : S) → Good s → Good (f x s)) where
  -- a loop whose rounds leave the part unchanged does so too
  pub times_same :
      ((x : ℕ) (s : S) → Good s → view (f x s) ≡ view s)
      → (lo n : ℕ) (s : S) → Good s
      → view (times f lo n s) ≡ view s
  unfolding times
  times_same same lo zero s g = refl
  times_same same lo (suc n) s g = times_same same (suc lo) n (f lo s) (keeps lo s g) ∙ same lo s g

  -- A part that the round `k` changes by `change`, and no other round, is changed once if the loop
  -- comes to `k`, else not.
  pub times_lem :
      (k : ℕ) (change : P → P)
      → ((s : S) → Good s → view (f k s) ≡ change (view s))
      → ((x : ℕ) (s : S) → Good s → x == k ≡ false → view (f x s) ≡ view s)
      → (lo n : ℕ) (s : S) → Good s
      → view (times f lo n s) ≡ (if within lo n k then change (view s) else view s)
  unfolding times
  times_lem k change hit miss lo zero s g =
      let e : within lo 0 k ≡ false = ground arith in rw e refl
  times_lem k change hit miss lo (suc n) s g =
      let rest = times_lem k change hit miss (suc lo) n (f lo s) (keeps lo s g) in
      elim (Bool-cases (lo == k)) [
        | inl e ↦
            let t : within lo (suc n) k ≡ true = ground arith in
            let u : within (suc lo) n k ≡ false = ground arith in
            rw (rest, u, t)
              (subst (λ x. view (f x s) ≡ change (view s)) (sym (==→≡ lo k e)) (hit s g))
        | inr e ↦
            let t : within (suc lo) n k ≡ within lo (suc n) k = ground arith in
            rw (rest, miss lo s g e, t) refl
      ]
