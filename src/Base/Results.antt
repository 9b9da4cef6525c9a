-- ===== src/Base/Results.antt =====
-- What a call of a Go function comes to: a value, a returned error, or a panic. Errors and panics
-- are of types that each component chooses, with a constructor for each message.
use mathlib.Core.Path.{◌≡◌, refl, ap}
use mathlib.Core.Logic.{◌≢◌, ◌⊎◌, inl, inr}
use mathlib.Core.Option.{Option, none, some}

pub data Go {ℓ} (E : Type ℓ) (A : Type ℓ) : Type ℓ where
  ok : A → Go E A
  err : E → Go E A
  panic : E → Go E A

-- `if err != nil { return err }`, and a panic unwinds.
infixl 5 ◌>>=◌ ◌>>◌
abbrev pub ◌>>=◌ {ℓ} : {E A B : Type ℓ} → Go E A → (A → Go E B) → Go E B
ok a >>= f = f a
err e >>= f = err e
panic e >>= f = panic e

abbrev pub ◌>>◌ {ℓ} : {E A B : Type ℓ} → Go E A → Go E B → Go E B
m >> k = m >>= λ _. k

-- A value that is read through a type assertion or a pointer; `e` is the panic where it is absent.
abbrev pub must {ℓ} : {E A : Type ℓ} → E → Option A → Go E A
must e none = panic e
must e (some a) = ok a

-- A chain that returns a value has returned one at each step.
pub >>=-eq-ok {ℓ} :
    {E A B : Type ℓ} {given : B} (call : Go E A) (next : A → Go E B)
    → call >>= next ≡ ok given
    → (a : A) × (call ≡ ok a) × (next a ≡ ok given)
>>=-eq-ok (ok a) next h = (a, refl, h)
>>=-eq-ok (err e) next h = cc
>>=-eq-ok (panic e) next h = cc

pub must-eq-ok {ℓ} : {E A : Type ℓ} (e : E) (o : Option A) {a : A} → must e o ≡ ok a → o ≡ some a
must-eq-ok e none h = cc
must-eq-ok e (some a) h = cc

abbrev value_or {ℓ} : {E A : Type ℓ} → A → Go E A → A
value_or d (ok a) = a
value_or d _ = d

pub ok-injective {ℓ} : {E A : Type ℓ} (a b : A) → ◌≡◌ {A = Go E A} (ok a) (ok b) → a ≡ b
ok-injective a b h = ap (value_or a) h

-- `if err != nil { panic(err) }`
abbrev pub panicking {ℓ} : {E A : Type ℓ} → Go E A → Go E A
panicking (ok a) = ok a
panicking (err e) = panic e
panicking (panic e) = panic e

pub panicking-eq-ok {ℓ} : {E A : Type ℓ} (m : Go E A) {a : A} → panicking m ≡ ok a → m ≡ ok a
panicking-eq-ok (ok a) h = h
panicking-eq-ok (err e) h = cc
panicking-eq-ok (panic e) h = cc

-- A call has returned a value, or has returned none.
pub Go-cases {ℓ} : {E A : Type ℓ} (m : Go E A) → ((a : A) × (m ≡ ok a)) ⊎ ((a : A) → m ≢ ok a)
Go-cases (ok a) = inl (a, refl)
Go-cases (err e) = inr (λ a h. cc)
Go-cases (panic e) = inr (λ a h. cc)
