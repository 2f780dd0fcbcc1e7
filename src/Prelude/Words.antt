-- ===== src/Prelude/Words.antt =====
-- A byte is a number below 256, and a Go []byte the list of its bytes.
use Prim.Native.Nat.{ℕ, ◌<◌}
use mathlib.Core.Path.{◌≡◌, refl}
use mathlib.Core.Bool.{Bool, true, false, ◌&&◌}
use crosshub.Prelude.Tests.{◌==◌}
use native.Mathlib.Omega.{arith}
use mathlib.Core.List.{List, [], ◌∷◌}

abbrev pub Bytes : Type 0
Bytes = List ℕ

abbrev pub IsBytes : Bytes → Type 0
IsBytes [] = Unit {0}
IsBytes (b ∷ bs) = (b < 256) × IsBytes bs

unfoldable pub eq_bytes : Bytes → Bytes → Bool
eq_bytes [] [] = true
eq_bytes (a ∷ xs) (b ∷ ys) = let rest = eq_bytes xs ys in (a == b) && rest
eq_bytes _ _ = false

pub eq_bytes_sound : (a b : Bytes) → eq_bytes a b ≡ true → a ≡ b
unfolding eq_bytes
eq_bytes_sound [] [] h = refl
eq_bytes_sound (a ∷ xs) (b ∷ ys) h = ground (arith, eq_bytes_sound xs ys)
eq_bytes_sound [] (b ∷ ys) h = absurd (ground arith)
eq_bytes_sound (a ∷ xs) [] h = absurd (ground arith)
