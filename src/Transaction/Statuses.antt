-- ===== src/Transaction/Statuses.antt =====
-- core/cross_status.go: CtxStatus, a uint8, and its text. The range over the map goes through its entries
-- in any order, which is an argument.
use crosshub.Prelude.{
  ℕ, ◌≤◌, ◌<◌, ◌≡◌, refl, sym, ap, subst, ◌∙◌, ◌⊎◌, inl, inr, Bool, false, Bool-cases, ◌==◌, String,
  str_eq, eq_iff, List, [], ◌∷◌, Option, none, some, if◌then◌else◌, arith,
}

-- The constants from CtxStatusPending on, and ctxStatusToString.
abbrev pub ctx_status_to_string : List (ℕ × String)
ctx_status_to_string =
    (0, "pending")
    ∷ (1, "waiting")
    ∷ (2, "illegal")
    ∷ (3, "executing")
    ∷ (4, "executed")
    ∷ (5, "finishing")
    ∷ (6, "finished")
    ∷ []

unfoldable pub text_at : List (ℕ × String) → ℕ → Option String
text_at [] s = none
text_at ((k, v) ∷ es) s = let rest = text_at es s in if k == s then some v else rest

abbrev pub or_unknown : Option String → String
or_unknown none = "unknown"
or_unknown (some v) = v

-- String, and MarshalText
unfoldable pub status_text : ℕ → String
status_text s = or_unknown (text_at ctx_status_to_string s)

-- UnmarshalText, which leaves the status as it was where it gives NotFound.
unfoldable pub unmarshal_status : List (ℕ × String) → String → Option ℕ
unmarshal_status [] input = none
unmarshal_status ((k, v) ∷ es) input =
    let rest = unmarshal_status es input in if str_eq v input then some k else rest

-- The entries of the map, in some order.
abbrev pub Entries : List (ℕ × String) → Type 0
Entries [] = Unit {0}
Entries ((k, v) ∷ es) = (k ≤ 6) × (v ≡ status_text k) × Entries es

status_split :
    (s : ℕ) → s ≤ 6 → (s ≡ 0) ⊎ ((s ≡ 1) ⊎ ((s ≡ 2) ⊎ ((s ≡ 3) ⊎ ((s ≡ 4) ⊎ ((s ≡ 5) ⊎ (s ≡ 6))))))
status_split s h = ground arith

status_cases {ℓ} :
    (P : ℕ → Type ℓ) → P 0 → P 1 → P 2 → P 3 → P 4 → P 5 → P 6 → (s : ℕ) → s ≤ 6 → P s
status_cases P p0 p1 p2 p3 p4 p5 p6 s h = elim (status_split s h) [
  | inl e ↦ subst P (sym e) p0
  | inr (inl e) ↦ subst P (sym e) p1
  | inr (inr (inl e)) ↦ subst P (sym e) p2
  | inr (inr (inr (inl e))) ↦ subst P (sym e) p3
  | inr (inr (inr (inr (inl e)))) ↦ subst P (sym e) p4
  | inr (inr (inr (inr (inr (inl e))))) ↦ subst P (sym e) p5
  | inr (inr (inr (inr (inr (inr e))))) ↦ subst P (sym e) p6
]

unmarshal_status-table :
    (s : ℕ) → s ≤ 6 → unmarshal_status ctx_status_to_string (status_text s) ≡ some s
unfolding unmarshal_status status_text text_at
unmarshal_status-table =
    status_cases (λ s. unmarshal_status ctx_status_to_string (status_text s) ≡ some s) refl refl
      refl refl refl refl refl

status_text_injective : (s k : ℕ) → s ≤ 6 → k ≤ 6 → status_text s ≡ status_text k → s ≡ k
status_text_injective s k a b e =
    let same : some s ≡ some k =
      sym (unmarshal_status-table s a)
      ∙ ap (unmarshal_status ctx_status_to_string) e
      ∙ unmarshal_status-table k b in
    cc

-- In whatever order the range goes through the entries of the map, as long as it has the status, UnmarshalText
-- of a status's text gives that status.
unmarshal_status-status_text :
    (es : List (ℕ × String)) (s : ℕ) {v : String}
    → s ≤ 6
    → Entries es
    → text_at es s ≡ some v
    → unmarshal_status es (status_text s) ≡ some s
unfolding unmarshal_status text_at
unmarshal_status-status_text [] s h all e = absurd (cc)
unmarshal_status-status_text ((k, w) ∷ es) s h (k_le, w_is, rest) e =
    elim (Bool-cases (str_eq w (status_text s))) [
      | inl same ↦
          let text : w ≡ status_text s = (eq_iff w (status_text s)).0 same in
          rw (same, status_text_injective k s k_le h (sym w_is ∙ text)) refl
      | inr other ↦ elim (Bool-cases (k == s)) [
        | inl key ↦ absurd (
            let is_s : k ≡ s = ground arith in
            let text : w ≡ status_text s = w_is ∙ ap status_text is_s in
            let found = (eq_iff w (status_text s)).1 text in cc)
        | inr key ↦
            let tail = sym (ap (λ (b : Bool). if b then some w else text_at es s) key) ∙ e in
            rw other (unmarshal_status-status_text es s h rest tail)
      ]
    ]

status_text_known : (s : ℕ) → s ≤ 6 → str_eq (status_text s) "unknown" ≡ false
unfolding status_text text_at
status_text_known =
    status_cases (λ s. str_eq (status_text s) "unknown" ≡ false) refl refl refl refl refl refl refl

status_text_above : (s : ℕ) → 6 < s → status_text s ≡ "unknown"
unfolding status_text text_at
status_text_above s h = ground arith

-- A status that is not of the constants is written as "unknown", which is no text of an entry.
unknown-unmarshal_status :
    (es : List (ℕ × String)) (s : ℕ)
    → 6 < s
    → Entries es
    → unmarshal_status es (status_text s) ≡ none
unfolding unmarshal_status
unknown-unmarshal_status [] s h all = refl
unknown-unmarshal_status ((k, w) ∷ es) s h (k_le, w_is, rest) =
    rw
      (
        status_text_above s h,
        w_is,
        status_text_known k k_le,
        sym (ap (unmarshal_status es) (status_text_above s h)),
        unknown-unmarshal_status es s h rest,
      )
      refl
