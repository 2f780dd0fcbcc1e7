-- ===== src/Repo/Order.antt =====
-- The order of Go strings, by their bytes, and how often a list has a string no greater than another.
use crosshub.Prelude.{
  ℕ, ◌+◌, ◌≡◌, refl, Bool, true, false, ltb, ◌==◌, Bytes, List, [], ◌∷◌, if◌then◌else◌, arith,
}

unfoldable pub lt_bytes : Bytes → Bytes → Bool
lt_bytes a [] = false
lt_bytes [] (y ∷ ys) = true
lt_bytes (x ∷ xs) (y ∷ ys) =
    let rest = lt_bytes xs ys in if ltb x y then true else if x == y then rest else false

pub lt_bytes_irrefl : (a : Bytes) → lt_bytes a a ≡ false
unfolding lt_bytes
lt_bytes_irrefl [] = refl
lt_bytes_irrefl (x ∷ xs) = ground (arith, lt_bytes_irrefl xs)

pub lt_bytes_asymm : (a b : Bytes) → lt_bytes a b ≡ true → lt_bytes b a ≡ false
unfolding lt_bytes
lt_bytes_asymm [] [] h = refl
lt_bytes_asymm [] (y ∷ ys) h = refl
lt_bytes_asymm (x ∷ xs) [] h = absurd (cc)
lt_bytes_asymm (x ∷ xs) (y ∷ ys) h = ground (arith, lt_bytes_asymm xs ys)

-- Where neither is less, the two are one.
pub lt_bytes_antisymm : (a b : Bytes) → lt_bytes a b ≡ false → lt_bytes b a ≡ false → a ≡ b
unfolding lt_bytes
lt_bytes_antisymm [] [] h k = refl
lt_bytes_antisymm [] (y ∷ ys) h k = absurd (cc)
lt_bytes_antisymm (x ∷ xs) [] h k = absurd (cc)
lt_bytes_antisymm (x ∷ xs) (y ∷ ys) h k = ground (arith, lt_bytes_antisymm xs ys)

-- `b` is no greater than `c`, and `a` is no greater than `b`.
pub lt_bytes_trans :
    (a b c : Bytes) → lt_bytes c b ≡ false → lt_bytes b a ≡ false → lt_bytes c a ≡ false
unfolding lt_bytes
lt_bytes_trans [] b c h k = refl
lt_bytes_trans (x ∷ xs) [] c h k = absurd (cc)
lt_bytes_trans (x ∷ xs) (y ∷ ys) [] h k = absurd (cc)
lt_bytes_trans (x ∷ xs) (y ∷ ys) (z ∷ zs) h k = ground (arith, lt_bytes_trans xs ys zs)

-- How many of the keys are no greater than `a`.
unfoldable pub rank : Bytes → List Bytes → ℕ
rank a [] = 0
rank a (k ∷ ks) = (if lt_bytes a k then 0 else 1) + rank a ks
