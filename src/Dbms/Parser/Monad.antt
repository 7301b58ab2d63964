-- ===== src/Dbms/Parser/Monad.antt =====
-- Methods of `parser` that may fail: from the tokens left to a value and the tokens left after it.
use tac_os.Base.{ℕ, Bytes, List, [], ◌∷◌}
use tac_os.Dbms.Lexer.{Token}
use tac_os.Dbms.Outcome
use tac_os.Dbms.Outcome.{Outcome, ok, panic, query_error}

abbrev pub Parse {ℓ} : Type ℓ → Type ℓ
Parse A = List Token → Outcome (A × List Token)

module _ {ℓ} {A : Type ℓ} where
  unfoldable pub pure : A → Parse A
  pure a ts = ok (a, ts)

  unfoldable pub reject : ℕ → Bytes → Parse A
  reject position message ts = query_error position message

-- `p.tokens[p.index]`
unfoldable pub current : Parse Token
current [] = panic
current (t ∷ ts) = ok (t, t ∷ ts)

infixl 5 ◌>>=◌ ◌>>◌
-- opening this opens `pure`, `reject` and `current` too
unfoldable pub ◌>>=◌ {ℓ κ} : {A : Type ℓ} {B : Type κ} → Parse A → (A → Parse B) → Parse B
unfolding pure reject current
◌>>=◌ m f ts = Outcome.◌>>=◌ (m ts) (λ (a, rest). f a rest)

abbrev pub ◌>>◌ {ℓ κ} : {A : Type ℓ} {B : Type κ} → Parse A → Parse B → Parse B
m >> k = m >>= λ _. k
