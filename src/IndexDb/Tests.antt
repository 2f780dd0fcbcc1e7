-- ===== src/IndexDb/Tests.antt =====
-- A cache of one entry, and a cross transaction.
use crosshub.Prelude.{
  eq_bytes, eq_bytes_sound, ◌≡◌, refl, ◌∙◌, ap, ◌⊎◌, inl, inr, Bool, true, false, ◌&&◌, [], ◌∷◌,
  str_eq, eq_iff, Option, none, some, ℤ, pos, Bool-cases, if◌then◌else◌, arith,
}
use crosshub.Transaction.Ctx.{CrossTransaction, new_cross_transaction}
use crosshub.IndexDb.Indexed.{Indexed}
use crosshub.IndexDb.Reads.{FieldValue, hash, text, amount, CacheKey, ArcCache, IsArcCache}

unfoldable pub eq_value : FieldValue → FieldValue → Bool
eq_value (hash a) (hash b) = eq_bytes a b
eq_value _ _ = false

eq_value_sound : (a b : FieldValue) → eq_value a b ≡ true → a ≡ b
unfolding eq_value
eq_value_sound (hash a) (hash b) h = ap hash (eq_bytes_sound a b h)
eq_value_sound (hash a) (text b) h = absurd (ground arith)
eq_value_sound (hash a) (amount b) h = absurd (ground arith)
eq_value_sound (text a) b h = absurd (ground arith)
eq_value_sound (amount a) b h = absurd (ground arith)

unfoldable pub eq_key : CacheKey → CacheKey → Bool
eq_key k j = str_eq k.index j.index && eq_value k.value j.value

eq_key_sound : (k j : CacheKey) → eq_key k j ≡ true → k ≡ j
unfolding eq_key
eq_key_sound k j h =
    let i : k.index ≡ j.index = (eq_iff k.index j.index).0 (ground arith) in
    let v : k.value ≡ j.value = eq_value_sound k.value j.value (ground arith) in
    ap {B = CacheKey} (λ x. record { index = x; value = k.value }) i
    ∙ ap {B = CacheKey} (λ y. record { index = j.index; value = y }) v

abbrev pub Slot : Type 0
Slot = Option (CacheKey × Indexed (ℤ × ℤ))

unfoldable pub slot_entry : Slot → CacheKey → Option (Indexed (ℤ × ℤ))
slot_entry none j = none
slot_entry (some (k, x)) j = if eq_key k j then some x else none

abbrev pub slot_cache : ArcCache (ℤ × ℤ)
slot_cache = record {
  Cache = Slot;
  get = λ c k. (c, slot_entry c k);
  add = λ c k x. some (k, x);
  remove = λ c k. none;
}

pub slot_add :
    (c : Slot) (k j : CacheKey) (x w : Indexed (ℤ × ℤ))
    → slot_entry (some (k, x)) j ≡ some w
    → ((k ≡ j) × (x ≡ w)) ⊎ (slot_entry c j ≡ some w)
unfolding slot_entry
slot_add c k j x w h = elim (Bool-cases (eq_key k j)) [
  | inl t ↦ inl (eq_key_sound k j t, ground arith)
  | inr t ↦ absurd (ground arith)
]

unfoldable pub slot_cache-IsArcCache : IsArcCache slot_cache
unfolding slot_entry
slot_cache-IsArcCache = record {
  entry = slot_entry;
  get-entry = λ c k. refl;
  get-keeps = λ c k j w h. h;
  add-entry = λ c k j x w h. slot_add c k j x w h;
  remove-entry = λ c k j w h. absurd (cc);
}

abbrev pub trade : CrossTransaction
trade =
    new_cross_transaction (pos 5) (pos 2) (1 ∷ []) (2 ∷ []) 1 2 (7 ∷ []) (8 ∷ []) (9 ∷ []) (3 ∷ [])
