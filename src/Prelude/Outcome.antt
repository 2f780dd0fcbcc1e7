-- ===== src/Prelude/Outcome.antt =====
-- What a Go function with an error result does: it returns a value, returns an error, or panics.
use mathlib.Core.Path.{◌≡◌, refl}
use mathlib.Core.Option.{Option, none, some}

pub data Run {ℓ κ} (E : Type ℓ) (A : Type κ) : Type (ℓ ⊔ κ) where
  ok : A → Run E A
  err : E → Run E A
  panic : Run E A

-- The next statement runs only after a success.
infixl 5 ◌>>=◌
abbrev pub ◌>>=◌ {ℓ κ μ} :
    {E : Type ℓ} {A : Type κ} {B : Type μ} → Run E A → (A → Run E B) → Run E B
m >>= f = elim m [ ok a ↦ f a | err e ↦ err e | panic ↦ panic ]

-- `return nil, wrap(err)`: the error of a call, wrapped by the caller.
abbrev pub map_err {ℓ κ μ} : {E : Type ℓ} {F : Type κ} {A : Type μ} → (E → F) → Run E A → Run F A
map_err w (ok a) = ok a
map_err w (err e) = err (w e)
map_err w panic = panic

abbrev pub or_else {ℓ κ} : {E : Type ℓ} {A : Type κ} → Option A → Run E A → Run E A
or_else none r = r
or_else (some a) r = ok a

-- What follows from a success of two statements, given what follows from each.
pub >>=-ok {ℓ κ μ ξ} :
    {E : Type ℓ} {A : Type κ} {B : Type μ} {Q : Type ξ} {b : B} (m : Run E A) (f : A → Run E B)
    → (m >>= f) ≡ ok b
    → ((a : A) → m ≡ ok a → f a ≡ ok b → Q)
    → Q
>>=-ok (ok a) f h k = k a refl h
>>=-ok (err e) f h k = absurd (cc)
>>=-ok panic f h k = absurd (cc)

pub or_else-eq-ok {ℓ κ} :
    {E : Type ℓ} {A : Type κ} (o : Option A) (e : E) {a : A} → or_else o (err e) ≡ ok a → o ≡ some a
or_else-eq-ok none e h = cc
or_else-eq-ok (some x) e h = cc

pub ok-injective {ℓ κ} :
    {E : Type ℓ} {A : Type κ} {a b : A} → ◌≡◌ {A = Run E A} (ok a) (ok b) → a ≡ b
ok-injective h = cc

pub map_err-ok {ℓ κ μ} :
    {E : Type ℓ} {F : Type κ} {A : Type μ} (w : E → F) (r : Run E A) {a : A}
    → map_err w r ≡ ok a
    → r ≡ ok a
map_err-ok w (ok b) h = cc
map_err-ok w (err e) h = cc
map_err-ok w panic h = cc

-- What holds after each of the three outcomes holds.
pub Run-cases {ℓ κ μ} :
    {E : Type ℓ} {A : Type κ} {Q : Type μ} (r : Run E A)
    → ((a : A) → r ≡ ok a → Q)
    → ((e : E) → r ≡ err e → Q)
    → (r ≡ panic → Q)
    → Q
Run-cases (ok a) f g h = f a refl
Run-cases (err e) f g h = g e refl
Run-cases panic f g h = h refl
