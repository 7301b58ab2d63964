-- ===== src/Dbms/Action.antt =====
-- Methods that write to their receiver and may fail: what was written before a failure stays.
use tac_os.Base.{ℕ, ◌≤◌, ◌≡◌, refl}
use tac_os.Dbms.Outcome.{QueryError, Outcome, ok, err, panic, no_fuel, Returns, returned, failed}

abbrev pub Action : Type 0 → Type 0 → Type 0
Action S A = S → S × Outcome A

module _ {S A : Type 0} where
  unfoldable pub lift : Outcome A → Action S A
  lift r s = (s, r)

  unfoldable pub pure : A → Action S A
  pure a s = (s, ok a)

-- `s = f(s)`
unfoldable pub modify : {S : Type 0} → (S → S) → Action S (Unit {0})
modify f s = (f s, ok tt)

module _ {S A B : Type 0} where
  abbrev continue : Outcome A → (A → Action S B) → Action S B
  continue (ok a) f s = f a s
  continue (err e) f s = (s, err e)
  continue panic f s = (s, panic)
  continue no_fuel f s = (s, no_fuel)

  infixl 5 ◌>>=◌ ◌>>◌
  -- opening this opens `lift`, `pure` and `modify` too
  unfoldable pub ◌>>=◌ : Action S A → (A → Action S B) → Action S B
  unfolding lift pure modify
  ◌>>=◌ m f s = let (s', r) = m s in continue r f s'

  abbrev pub ◌>>◌ : Action S A → Action S B → Action S B
  m >> k = m >>= λ _. k

-- The method ended: with a state in `I` and a value in `Q`, or with an error at an offset up to `n`
-- and the state that it was called in.
pub data Ends {S A : Type 0} (n : ℕ) (I : S → Type 0) (Q : A → Type 0) (s : S)
    : S × Outcome A → Type 0 where
  done : {t : S} {a : A} → I t → Q a → Ends n I Q s (t, ok a)
  refused : {t : S} {e : QueryError} → t ≡ s → e.position ≤ n → Ends n I Q s (t, err e)

module _ {S A B : Type 0} {n : ℕ} {I : S → Type 0} {Q : B → Type 0} {P : A → Type 0} where
  -- A step that only reads comes first.
  pub Ends-lift :
      (r : Outcome A) (f : A → Action S B) (s : S)
      → Returns n P r
      → ((a : A) → P a → Ends n I Q s (f a s))
      → Ends n I Q s ((lift r >>= f) s)
  unfolding ◌>>=◌
  Ends-lift panic f s r k = elim r [ ]
  Ends-lift no_fuel f s r k = elim r [ ]
  Ends-lift (ok a) f s (returned h) k = k a h
  Ends-lift (err e) f s (failed h) k = refused refl h

-- A method that only reads.
pub Ends-read :
    {S A : Type 0} {n : ℕ} {I : S → Type 0} {P Q : A → Type 0} {r : Outcome A} (s : S)
    → I s
    → ((a : A) → P a → Q a)
    → Returns n P r
    → Ends n I Q s (s, r)
Ends-read s i k (returned h) = done i (k _ h)
Ends-read s i k (failed h) = refused refl h
