-- ===== src/Base/Outcomes.antt =====
-- Results of fallible code: a value, an error value, or a panic of the thread.
use mathlib.Core.Path.{◌≡◌, refl, subst}
use mathlib.Core.Bool.{Bool, true, false}
use chain_lens.Base.Tests.{if◌then◌else◌}
use mathlib.Core.Logic.{◌⊎◌, inl, inr}
use mathlib.Core.Option.{Option, none, some}
use native.Mathlib.Omega.{arith}

pub data Outcome {ℓ} (E A : Type ℓ) : Type ℓ where
  ok : A → Outcome E A
  err : E → Outcome E A
  panic : Outcome E A

module _ {ℓ} {E : Type ℓ} where
  -- `Option::ok_or`.
  abbrev pub ok_or : {A : Type ℓ} → Option A → E → Outcome E A
  ok_or none missing = err missing
  ok_or (some found) missing = ok found

  infixl 5 ◌>>=◌ ◌>>◌
  -- The `?` operator: a panic and an error end the function.
  abbrev pub ◌>>=◌ : {A B : Type ℓ} → Outcome E A → (A → Outcome E B) → Outcome E B
  panic >>= next = panic
  err stop >>= next = err stop
  ok result >>= next = next result

  -- Inversion of a successful step.
  pub >>=-eq-ok :
      {A B : Type ℓ} (first : Outcome E A) (next : A → Outcome E B) {b : B}
      → (first >>= next) ≡ ok b
      → (a : A) × (first ≡ ok a) × (next a ≡ ok b)
  >>=-eq-ok panic next ended = cc
  >>=-eq-ok (err stop) next ended = cc
  >>=-eq-ok (ok result) next ended = (result, refl, ended)

  abbrev pub ◌>>◌ : {A B : Type ℓ} → Outcome E A → Outcome E B → Outcome E B
  first >> second = first >>= λ _. second

pub ok-injective {ℓ} : {E A : Type ℓ} {a b : A} → ◌≡◌ {A = Outcome E A} (ok a) (ok b) → a ≡ b
ok-injective h = cc

-- Either a value, or nothing that a later step could use.
pub Outcome-cases {ℓ} :
    {E A : Type ℓ} (m : Outcome E A)
    → ((a : A) × (m ≡ ok a)) ⊎ ((m ≡ panic) ⊎ ((e : E) × (m ≡ err e)))
Outcome-cases (ok a) = inl (a, refl)
Outcome-cases (err e) = inr (inr (e, refl))
Outcome-cases panic = inr (inl refl)

-- `From` conversions of the error under `?`, and `map_err`.
abbrev pub map_err {ℓ} : {E F A : Type ℓ} → (E → F) → Outcome E A → Outcome F A
map_err f (ok a) = ok a
map_err f (err e) = err (f e)
map_err f panic = panic

pub map_err-eq-ok {ℓ} :
    {E F A : Type ℓ} (f : E → F) (m : Outcome E A) {a : A} → map_err f m ≡ ok a → m ≡ ok a
map_err-eq-ok f (ok a) h = ground arith
map_err-eq-ok f (err e) h = cc
map_err-eq-ok f panic h = cc

-- A result satisfies `P` if there is one.
pub data Ensures {ℓ κ} {E A : Type ℓ} (P : A → Type κ) : Outcome E A → Type (ℓ ⊔ κ) where
  value : {a : A} → P a → Ensures P (ok a)
  error : {e : E} → Ensures P (err e)
  panicked : Ensures P panic

pub Ensures->>= {ℓ κ} :
    {E A B : Type ℓ} (P : B → Type κ) (m : Outcome E A) (f : A → Outcome E B)
    → ((a : A) → Ensures P (f a))
    → Ensures P (m >>= f)
Ensures->>= P (ok a) f h = h a
Ensures->>= P (err e) f h = error
Ensures->>= P panic f h = panicked

-- The rule for a step of which something is known.
pub Ensures-bind {ℓ κ ι} :
    {E A B : Type ℓ} (Q : A → Type κ) (P : B → Type ι) (m : Outcome E A) (f : A → Outcome E B)
    → Ensures Q m
    → ((a : A) → Q a → Ensures P (f a))
    → Ensures P (m >>= f)
Ensures-bind Q P (ok a) f (value q) h = h a q
Ensures-bind Q P (err e) f m h = error
Ensures-bind Q P panic f m h = panicked

pub Ensures-of_ok {ℓ κ} :
    {E A : Type ℓ} (P : A → Type κ) (m : Outcome E A) → ((a : A) → m ≡ ok a → P a) → Ensures P m
Ensures-of_ok P (ok a) h = value (h a refl)
Ensures-of_ok P (err e) h = error
Ensures-of_ok P panic h = panicked

pub Ensures-if {ℓ κ} :
    {E A : Type ℓ} (P : A → Type κ) (b : Bool) (m m' : Outcome E A)
    → Ensures P m
    → Ensures P m'
    → Ensures P (if b then m else m')
Ensures-if P true m m' h h' = h
Ensures-if P false m m' h h' = h'

Ensures-inv {ℓ κ} :
    {E A : Type ℓ} {P : A → Type κ} {m : Outcome E A} → Ensures P m → (a : A) → m ≡ ok a → P a
Ensures-inv {P} (value h) a e = subst P (ground arith) h
Ensures-inv error a e = cc
Ensures-inv panicked a e = cc

pub Ensures-ok {ℓ κ} :
    {E A : Type ℓ} (P : A → Type κ) (m : Outcome E A) {a : A} → Ensures P m → m ≡ ok a → P a
Ensures-ok P m {a} h e = Ensures-inv h a e
