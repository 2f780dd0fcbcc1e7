-- ===== src/Prelude/Action.antt =====
-- Steps on a state that is kept when they fail: `S → S × Run E A`.
use mathlib.Core.Path.{◌≡◌, refl}
use crosshub.Prelude.Outcome.{Run, ok, err, panic, map_err}

abbrev pub Action {ℓ κ μ} : Type ℓ → Type κ → Type μ → Type (ℓ ⊔ κ ⊔ μ)
Action S E A = S → S × Run E A

abbrev pub pure {ℓ κ μ} : {S : Type ℓ} {E : Type κ} {A : Type μ} → A → Action S E A
pure a s = (s, ok a)

abbrev pub fail {ℓ κ μ} : {S : Type ℓ} {E : Type κ} {A : Type μ} → E → Action S E A
fail e s = (s, err e)

abbrev pub crash {ℓ κ μ} : {S : Type ℓ} {E : Type κ} {A : Type μ} → Action S E A
crash s = (s, panic)

-- A step that leaves the state alone.
abbrev pub lift {ℓ κ μ} : {S : Type ℓ} {E : Type κ} {A : Type μ} → Run E A → Action S E A
lift r s = (s, r)

-- The outcome of a step of a library, whose errors become the caller's.
abbrev pub retag {ℓ κ μ ν} :
    {S : Type ℓ} {E : Type κ} {F : Type μ} {A : Type ν} → (E → F) → S × Run E A → S × Run F A
retag w (s, r) = (s, map_err w r)

abbrev pub and_then {ℓ κ μ ν} :
    {S : Type ℓ} {E : Type κ} {A : Type μ} {B : Type ν}
    → S × Run E A
    → (A → Action S E B)
    → S × Run E B
and_then (s, ok a) f = f a s
and_then (s, err e) f = (s, err e)
and_then (s, panic) f = (s, panic)

infixl 5 ◌>>=◌ ◌>>◌
abbrev pub ◌>>=◌ {ℓ κ μ ν} :
    {S : Type ℓ} {E : Type κ} {A : Type μ} {B : Type ν}
    → Action S E A
    → (A → Action S E B)
    → Action S E B
◌>>=◌ m f s = and_then (m s) f

abbrev pub ◌>>◌ {ℓ κ μ} :
    {S : Type ℓ} {E : Type κ} {B : Type μ} → Action S E (Unit {0}) → Action S E B → Action S E B
◌>>◌ m k = m >>= λ _. k

-- What follows from a bind that succeeds, given what follows from its two parts.
pub and_then-ok {ℓ κ μ ν ξ} :
    {S : Type ℓ} {E : Type κ} {A : Type μ} {B : Type ν} {Q : Type ξ} (r : S × Run E A)
    (f : A → Action S E B) {s' : S} {b : B}
    → and_then r f ≡ (s', ok b)
    → ((s1 : S) (a : A) → r ≡ (s1, ok a) → f a s1 ≡ (s', ok b) → Q)
    → Q
and_then-ok (s1, ok a) f h k = k s1 a refl h
and_then-ok (s1, err e) f h k = absurd (cc)
and_then-ok (s1, panic) f h k = absurd (cc)

pub retag-ok {ℓ κ μ ν} :
    {S : Type ℓ} {E : Type κ} {F : Type μ} {A : Type ν} (w : E → F) (r : S × Run E A) {s' : S}
    {a : A}
    → retag w r ≡ (s', ok a)
    → r ≡ (s', ok a)
retag-ok w (s, ok a) h = cc
retag-ok w (s, err e) h = cc
retag-ok w (s, panic) h = cc
