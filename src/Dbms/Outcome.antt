-- ===== src/Dbms/Outcome.antt =====
-- What a step of server/dbms returns. `QueryError` is value.go's; `panic` stands for an index out
-- of range, and `no_fuel` for a loop of the model that was given too few rounds.
use tac_os.Base.{ℕ, ◌≤◌, ◌≡◌, refl, subst, Bool, true, false, if◌then◌else◌, Bytes}

pub record QueryError : Type 0 where
  pub message : Bytes
  pub position : ℕ

pub data Outcome {ℓ} (A : Type ℓ) : Type ℓ where
  ok : A → Outcome A
  err : QueryError → Outcome A
  panic : Outcome A
  no_fuel : Outcome A

abbrev pub query_error {ℓ} : {A : Type ℓ} → ℕ → Bytes → Outcome A
query_error position message = err (record { message = message; position = position })

infixl 5 ◌>>=◌ ◌>>◌
abbrev pub ◌>>=◌ {ℓ κ} : {A : Type ℓ} {B : Type κ} → Outcome A → (A → Outcome B) → Outcome B
ok a >>= f = f a
err e >>= f = err e
panic >>= f = panic
no_fuel >>= f = no_fuel

abbrev pub ◌>>◌ {ℓ κ} : {A : Type ℓ} {B : Type κ} → Outcome A → Outcome B → Outcome B
m >> k = m >>= λ _. k

-- The step returned: a value in `P`, or an error at a position of the input, of `n` bytes.
pub data Returns {ℓ} {A : Type ℓ} (n : ℕ) (P : A → Type 0) : Outcome A → Type ℓ where
  returned : {a : A} → P a → Returns n P (ok a)
  failed : {e : QueryError} → e.position ≤ n → Returns n P (err e)

pub Returns-bind {ℓ κ} :
    {A : Type ℓ} {B : Type κ} {n : ℕ} {P : A → Type 0} {Q : B → Type 0} {m : Outcome A}
    (f : A → Outcome B)
    → Returns n P m
    → ((a : A) → P a → Returns n Q (f a))
    → Returns n Q (m >>= f)
Returns-bind f (returned h) k = k _ h
Returns-bind f (failed h) k = failed h

pub Returns-map {ℓ} :
    {A : Type ℓ} {n : ℕ} {P Q : A → Type 0} {m : Outcome A}
    → ((a : A) → P a → Q a)
    → Returns n P m
    → Returns n Q m
Returns-map k (returned h) = returned (k _ h)
Returns-map k (failed h) = failed h

-- What a value that was returned satisfies, and where an error lies.
pub Returns-ok {ℓ} :
    {A : Type ℓ} {n : ℕ} {P : A → Type 0} {m : Outcome A} {a : A} → Returns n P m → m ≡ ok a → P a
Returns-ok {P} (returned h) e = subst P (cc) h
Returns-ok (failed h) e = cc

pub Returns-if {ℓ} :
    {A : Type ℓ} {n : ℕ} {P : A → Type 0} {x y : Outcome A} (b : Bool)
    → (b ≡ true → Returns n P x)
    → (b ≡ false → Returns n P y)
    → Returns n P (if b then x else y)
Returns-if true h k = h refl
Returns-if false h k = k refl

-- Keep the equation beside the postcondition.
pub Returns-eq :
    {A : Type 0} {n : ℕ} {P : A → Type 0} {m : Outcome A}
    → Returns n P m
    → Returns n (λ a. P a × (m ≡ ok a)) m
Returns-eq (returned h) = returned (h, refl)
Returns-eq (failed h) = failed h

pub ok-injective {ℓ} : {A : Type ℓ} {a b : A} → ok a ≡ ok b → a ≡ b
ok-injective e = cc
