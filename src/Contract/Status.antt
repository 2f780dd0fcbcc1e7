-- ===== src/Contract/Status.antt =====
-- CStatus: a uint8 with six named values, and its text form.
use crosshub.Prelude.{
  ℕ, ◌≡◌, refl, ◌↔◌, ap, sym, subst, ◌∙◌, ◌⊎◌, inl, inr, true, ◌||◌, String, str_eq, eq_iff, Run,
  ok, err, ◌==◌, if◌then◌else◌, arith,
}

abbrev pub CStatus : Type 0
CStatus = ℕ

abbrev pub init : CStatus
init = 128

abbrev pub pending : CStatus
pending = 64

abbrev pub executed : CStatus
executed = 32

abbrev pub finished : CStatus
finished = 16

abbrev pub completed : CStatus
completed = 8

abbrev pub out_once_completed : CStatus
out_once_completed = 4

-- CStatus.String, and MarshalText, whose bytes are those of the text.
unfoldable pub to_string : CStatus → String
to_string c =
    if c == init
    then "Init"
    else if c == pending
    then "Pending"
    else if c == executed
    then "Executed"
    else if c == finished
    then "Finished"
    else if c == completed
    then "Completed"
    else if c == out_once_completed
    then "OutOnceCompleted"
    else "UnSupported"

-- The error names the text.
unfoldable pub parse : String → Run String CStatus
parse t =
    if str_eq t "Init"
    then ok init
    else if str_eq t "Pending"
    then ok pending
    else if str_eq t "Executed"
    then ok executed
    else if str_eq t "Finished"
    then ok finished
    else if str_eq t "Completed"
    then ok completed
    else if str_eq t "OutOnceCompleted"
    then ok out_once_completed
    else err t

-- UnmarshalText on a status that holds `old`: the status after the call, and the error.
unfoldable pub unmarshal_text : CStatus → String → CStatus × Run String (Unit {0})
unmarshal_text old t = elim (parse t) [
  | ok c ↦ (c, ok tt)
  | err e ↦ (old, err e)
  | Run.panic ↦ (old, Run.panic)
]

-- One of the six named values.
abbrev pub IsFlag : CStatus → Type 0
IsFlag c =
    (c == init
      || c == pending
      || c == executed
      || c == finished
      || c == completed
      || c == out_once_completed)
    ≡ true

flag_split :
    (c : CStatus)
    → IsFlag c
    → (c ≡ init)
      ⊎ ((c ≡ pending)
          ⊎ ((c ≡ executed) ⊎ ((c ≡ finished) ⊎ ((c ≡ completed) ⊎ (c ≡ out_once_completed)))))
flag_split c h = ground arith

-- What holds of the six values holds of every flag.
pub flag_cases {ℓ} :
    (P : CStatus → Type ℓ)
    → P init
    → P pending
    → P executed
    → P finished
    → P completed
    → P out_once_completed
    → (c : CStatus) → IsFlag c
    → P c
flag_cases P p1 p2 p3 p4 p5 p6 c h = elim (flag_split c h) [
  | inl e ↦ subst P (sym e) p1
  | inr (inl e) ↦ subst P (sym e) p2
  | inr (inr (inl e)) ↦ subst P (sym e) p3
  | inr (inr (inr (inl e))) ↦ subst P (sym e) p4
  | inr (inr (inr (inr (inl e)))) ↦ subst P (sym e) p5
  | inr (inr (inr (inr (inr e)))) ↦ subst P (sym e) p6
]

pub parse-to_string : (c : CStatus) → IsFlag c → parse (to_string c) ≡ ok c
unfolding parse to_string
parse-to_string = flag_cases (λ c. parse (to_string c) ≡ ok c) refl refl refl refl refl refl

pub to_string-parse : (t : String) (c : CStatus) → parse t ≡ ok c → (to_string c ≡ t) × IsFlag c
unfolding parse to_string
to_string-parse t c h = ground (
  arith,
  eq_iff t "Init",
  eq_iff t "Pending",
  eq_iff t "Executed",
  eq_iff t "Finished",
  eq_iff t "Completed",
  eq_iff t "OutOnceCompleted",
)

-- ParseCStatus accepts exactly the texts of the six flags, and gives each text its flag.
pub parse_iff : (t : String) (c : CStatus) → (parse t ≡ ok c) ↔ (IsFlag c × (to_string c ≡ t))
parse_iff t c = (
  λ h. ((to_string-parse t c h).1, (to_string-parse t c h).0),
  λ h. ap parse (sym h.1) ∙ parse-to_string c h.0,
)
