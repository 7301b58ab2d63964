-- ===== src/Dbms/Parser/Safe.antt =====
-- Parsers that never read behind the last token, and the rules to show that a parser is one.
use tac_os.Base.{
  ℕ, suc, ◌≤◌, ◌≡◌, ◌≢◌, refl, arith, not, ◌||◌, Bool-cases, inl, inr, Bool, true, false,
  if◌then◌else◌, Bytes, List, [], ◌∷◌, length,
}
use tac_os.Dbms.Lexer.{Kind, word, end, kind_eq, Token}
use tac_os.Dbms.Lexer.Progress.{Tokens, finish, next}
use tac_os.Dbms.Outcome.{Returns, returned, failed, Returns-bind, Returns-if}
use tac_os.Dbms.Parser.Monad.{Parse, pure, current, reject, ◌>>=◌}
use tac_os.Dbms.Parser.Parts.{
  fail, take, take_keyword, equal_fold, require, require_keyword, identifier,
}
use tac_os.Dbms.Statement.{Identifier}

-- Tokens that end in `end`, at offsets up to `n`.
abbrev pub IsReadable : ℕ → List Token → Type 0
IsReadable n [] = ⊥
IsReadable n (t ∷ ts) = (t.position ≤ n) × (t.kind ≢ end → IsReadable n ts)

pub Tokens-IsReadable : {n i : ℕ} {ts : List Token} → Tokens n i ts → IsReadable n ts
Tokens-IsReadable (finish k p l) = (omega arith, λ ne. absurd (ne k))
Tokens-IsReadable (next k l more) = (position-le more, λ _. Tokens-IsReadable more)
  where
    position-le : {n i : ℕ} {ts : List Token} → Tokens n (suc i) ts → i ≤ n
    position-le (finish k p l) = omega arith
    position-le (next k l more) = let h = position-le more in omega arith

-- From at most `k` readable tokens the parser returns a value in `Q` and at most `j` readable
-- tokens, or fails at an offset up to `n`.
pub record Safe {A : Type 0} (n k : ℕ) (p : Parse A) (Q : A → Type 0) (j : ℕ) : Type 0 where
  pub at :
      (ts : List Token)
      → IsReadable n ts
      → length ts ≤ k
      → Returns n (λ r. Q r.0 × IsReadable n r.1 × (length r.1 ≤ j)) (p ts)

module _ {A : Type 0} {n k j : ℕ} {Q : A → Type 0} where
  pub Safe-pure : (a : A) → Q a → k ≤ j → Safe n k (pure a) Q j
  unfolding pure
  Safe-pure a q le = record { at = λ ts h l. returned (q, h, omega arith) }

  pub Safe-reject : (i : ℕ) (message : Bytes) → i ≤ n → Safe n k (reject {A = A} i message) Q j
  unfolding reject
  Safe-reject i message le = record { at = λ ts h l. failed le }

  pub Safe-if :
      (b : Bool) (p q : Parse A)
      → (b ≡ true → Safe n k p Q j)
      → (b ≡ false → Safe n k q Q j)
      → Safe n k (if b then p else q) Q j
  Safe-if true p q hp hq = hp refl
  Safe-if false p q hp hq = hq refl

-- No readable list is empty, so loops need no fuel behind the last token.
pub Safe-zero : {A : Type 0} {n j : ℕ} (p : Parse A) (Q : A → Type 0) → Safe n 0 p Q j
Safe-zero p Q = record { at = λ ts h l. absurd (nonempty _ ts h l) }
  where
    nonempty : (m : ℕ) (ts : List Token) → IsReadable m ts → length ts ≤ 0 → ⊥
    nonempty m [] h l = h
    nonempty m (t ∷ ts) h l = omega arith

module _ {A B : Type 0} {n k j l : ℕ} {Q : A → Type 0} {R : B → Type 0} where
  pub Safe-bind :
      (p : Parse A) (f : A → Parse B)
      → Safe n k p Q j
      → ((a : A) → Q a → Safe n j (f a) R l)
      → Safe n k (p >>= f) R l
  unfolding ◌>>=◌
  Safe-bind p f h g = record {
    at = λ ts r le.
        Returns-bind _ (h.at ts r le) (λ (a, rest) good. (g a good.0).at rest good.1 good.2);
  }

module _ {n k : ℕ} where
  pub current-Safe : Safe n k current (λ t. t.position ≤ n) k
  unfolding current
  current-Safe = record { at = at_current }
    where
      at_current :
          (ts : List Token)
          → IsReadable n ts
          → length ts ≤ k
          → Returns n (λ r. (r.0.position ≤ n) × IsReadable n r.1 × (length r.1 ≤ k)) (current ts)
      at_current [] h l = absurd h
      at_current (t ∷ ts) h l = returned (h.0, h, l)

  pub fail-Safe :
      {A : Type 0} (message : Bytes) (Q : A → Type 0) (j : ℕ) → Safe n k (fail {A = A} message) Q j
  unfolding fail
  fail-Safe message Q j = Safe-bind _ _ current-Safe (λ t h. Safe-reject t.position message h)

kind_eq-end : (k : Kind) → kind_eq end k ≡ true → k ≡ end
kind_eq-end end e = refl
kind_eq-end k e = cc

kind_eq-ne : (k l : Kind) → k ≢ end → kind_eq l k ≡ true → l ≢ end
kind_eq-ne k l ne e h = ne (kind_eq-end k (rw h at e))

-- What `take` and `takeKeyword` promise: they pass over one token or none.
abbrev Passed : ℕ → ℕ → Bool × List Token → Type 0
Passed n k r = Unit {0} × IsReadable n r.1 × (length r.1 ≤ k)

module _ {n k : ℕ} where
  pub take-Safe : (kind : Kind) → kind ≢ end → Safe n k (take kind) (λ _. Unit) k
  unfolding take
  take-Safe kind ne = record { at = at_take }
    where
      at_take :
          (ts : List Token)
          → IsReadable n ts
          → length ts ≤ k
          → Returns n (Passed n k) (take kind ts)
      at_take [] h l = absurd h
      at_take (t ∷ ts) h l =
          Returns-if (kind_eq t.kind kind)
            (λ e. returned (tt, h.1 (kind_eq-ne kind t.kind ne e), omega arith))
            (λ _. returned (tt, h, l))

  pub take_keyword-Safe : (keyword : Bytes) → Safe n k (take_keyword keyword) (λ _. Unit) k
  unfolding take_keyword
  take_keyword-Safe keyword = record { at = at_take }
    where
      word-ne :
          (t : Token)
          → (not (kind_eq t.kind word) || not (equal_fold t.text keyword)) ≡ false
          → t.kind ≢ end
      word-ne t e = kind_eq-ne word t.kind (λ h. cc) (ground arith)

      at_take :
          (ts : List Token)
          → IsReadable n ts
          → length ts ≤ k
          → Returns n (Passed n k) (take_keyword keyword ts)
      at_take [] h l = absurd h
      at_take (t ∷ ts) h l =
          Returns-if (not (kind_eq t.kind word) || not (equal_fold t.text keyword))
            (λ _. returned (tt, h, l)) (λ e. returned (tt, h.1 (word-ne t e), omega arith))

  pub require-Safe :
      (kind : Kind) (message : Bytes) → kind ≢ end → Safe n k (require kind message) (λ _. Unit) k
  unfolding require
  require-Safe kind message ne =
      Safe-bind _ _ (take-Safe kind ne) λ found _.
        Safe-if found _ _ (λ _. Safe-pure tt tt (omega arith)) (λ _. fail-Safe message _ k)

  pub require_keyword-Safe : (keyword : Bytes) → Safe n k (require_keyword keyword) (λ _. Unit) k
  unfolding require_keyword
  require_keyword-Safe keyword =
      Safe-bind _ _ (take_keyword-Safe keyword)
        λ found _. Safe-if found _ _ (λ _. Safe-pure tt tt (omega arith)) (λ _. fail-Safe _ _ k)

abbrev pub IdentifierAt : ℕ → Identifier → Type 0
IdentifierAt n id = id.position ≤ n

-- A branch on `take`: where the token was there, one less is left.
pub Safe-branch :
    {A : Type 0} {n k l : ℕ} {R : A → Type 0} (j : ℕ) (kind : Kind) (p q : Parse A)
    → kind ≢ end
    → k ≤ suc j
    → Safe n j p R l
    → Safe n k q R l
    → Safe n k (take kind >>= λ found. if found then p else q) R l
unfolding ◌>>=◌ take
Safe-branch {n} {k} {l} {R} j kind p q ne room hp hq = record { at = at_branch }
  where
    at_branch :
        (ts : List Token)
        → IsReadable n ts
        → length ts ≤ k
        → Returns n
            (λ r. R r.0 × IsReadable n r.1 × (length r.1 ≤ l))
            ((take kind >>= λ found. if found then p else q) ts)
    at_branch [] h le = absurd h
    at_branch (t ∷ ts) h le = elim (Bool-cases (kind_eq t.kind kind)) [
      | inl e ↦ rw e (hp.at ts (h.1 (kind_eq-ne kind t.kind ne e)) (omega arith))
      | inr e ↦ rw e (hq.at (t ∷ ts) h le)
    ]

pub identifier-Safe : {n k : ℕ} → Safe n k identifier (IdentifierAt n) k
unfolding identifier
identifier-Safe {n} {k} = Safe-bind _ _ current-Safe λ t at.
    Safe-bind _ _ (take-Safe word (λ e. cc))
      λ found _. Safe-if found _ _ (λ _. Safe-pure _ at (omega arith)) (λ _. fail-Safe _ _ k)
