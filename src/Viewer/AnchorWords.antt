-- ===== src/Viewer/AnchorWords.antt =====
-- GetAnchors on the answers that the contract gives.
use crosshub.Prelude.{
  eq_bytes, eq_bytes_sound, ℕ, suc, ◌+◌, ◌-◌, ◌*◌, ◌≤◌, ◌<◌, ◌≡◌, refl, sym, ap, ◌∙◌, true, ltb,
  lt→ltb, leb, tests, ◌||◌, Bool-cases, inl, inr, Bytes, List, [], ◌∷◌, ◌++◌, append_assoc, length,
  take, drop, length-append, take-append, drop-append, ok, ◌>>=◌, if◌then◌else◌, arith,
}
use crosshub.Transaction.Crypto.{Address}
use crosshub.Viewer.Messages.{is_anchor}
use crosshub.Viewer.Anchors.{uint64_of, slice, read_anchors, add_anchors, long_anchors, get_anchors}

-- A word with an address in its last 20 bytes, and the words of a list.
pub record AddressWord : Type 0 where
  pub pad : Bytes
  pub address : Address
  pub pad_size : length pad ≡ 12
  pub address_size : length address ≡ 20

unfoldable pub words : List AddressWord → Bytes
words [] = []
words (w ∷ ws) = w.pad ++ (w.address ++ words ws)

abbrev pub addresses : List AddressWord → List Address
addresses [] = []
addresses (w ∷ ws) = w.address ∷ addresses ws

le→leb : (a b : ℕ) → a ≤ b → leb a b ≡ true
le→leb a b h = grind tests

slice-append :
    (a b c : Bytes) (from to : ℕ)
    → length a ≡ from
    → from + length b ≡ to
    → slice (a ++ (b ++ c)) from to ≡ ok b
unfolding slice
slice-append a b c from to e f =
    let total : length (a ++ (b ++ c)) ≡ length a + (length b + length c) =
      length-append a (b ++ c) ∙ ap (λ n. length a + n) (length-append b c) in
    let one : leb from to ≡ true = le→leb from to (omega arith) in
    let two : leb to (length (a ++ (b ++ c))) ≡ true =
      le→leb to (length (a ++ (b ++ c))) (omega arith) in
    let cut : take (to - from) (drop from (a ++ (b ++ c))) ≡ b =
      ap (take (to - from)) (drop-append from a (b ++ c) e)
      ∙ take-append (to - from) b c (omega arith) in
    ground (arith, one, two, cut)

read_anchors-words :
    (ws : List AddressWord) (i : ℕ) (before : Bytes)
    → length before ≡ 32 * (3 + i)
    → read_anchors (length ws) i (before ++ words ws) ≡ ok (addresses ws)
unfolding read_anchors words
read_anchors-words [] i before e = refl
read_anchors-words (w ∷ ws) i before e =
    let start : length (before ++ w.pad) ≡ 32 * (4 + i) - 20 =
      length-append before w.pad ∙ omega (arith, e, w.pad_size) in
    let stop : 32 * (4 + i) - 20 + length w.address ≡ 32 * (4 + i) =
      omega (arith, w.address_size) in
    let whole : (before ++ w.pad) ++ (w.address ++ words ws)
        ≡ before ++ (w.pad ++ (w.address ++ words ws)) =
      append_assoc before w.pad (w.address ++ words ws) in
    let found : slice (before ++ (w.pad ++ (w.address ++ words ws))) (32 * (4 + i) - 20)
          (32 * (4 + i))
        ≡ ok w.address =
      ap (λ r. slice r (32 * (4 + i) - 20) (32 * (4 + i))) (sym whole)
      ∙ slice-append (before ++ w.pad) w.address (words ws) _ _ start stop in
    let next : length ((before ++ w.pad) ++ w.address) ≡ 32 * (3 + suc i) =
      length-append (before ++ w.pad) w.address ∙ omega (arith, start, w.address_size) in
    let rest : read_anchors (length ws) (suc i) (before ++ (w.pad ++ (w.address ++ words ws)))
        ≡ ok (addresses ws) =
      ap (read_anchors (length ws) (suc i))
        (sym whole ∙ sym (append_assoc (before ++ w.pad) w.address (words ws)))
      ∙ read_anchors-words ws (suc i) ((before ++ w.pad) ++ w.address) next in
    ap
      (λ r. r >>= (λ anchor.
        read_anchors (length ws) (suc i) (before ++ (w.pad ++ (w.address ++ words ws)))
        >>= (λ anchors. ok (anchor ∷ anchors))))
      found
    ∙ ap (λ r. r >>= (λ anchors. ok (w.address ∷ anchors))) rest

-- An anchor that is there already is not added twice.
is_anchor-add_one :
    (a f : Address) (anchors : List Address)
    → is_anchor a (if is_anchor f anchors then anchors else f ∷ anchors)
      ≡ (eq_bytes a f || is_anchor a anchors)
unfolding is_anchor
is_anchor-add_one a f anchors = elim (Bool-cases (is_anchor f anchors)) [
  | inl there ↦ elim (Bool-cases (eq_bytes a f)) [
    | inl same ↦
        let known : is_anchor a anchors ≡ true =
          ap (λ x. is_anchor x anchors) (eq_bytes_sound a f same) ∙ there in
        ground (arith, there, same, known)
    | inr other ↦ ground (arith, there, other)
  ]
  | inr absent ↦ ground (arith, absent)
]

is_anchor-add_anchors :
    (a : Address) (found anchors : List Address)
    → is_anchor a (add_anchors found anchors) ≡ (is_anchor a found || is_anchor a anchors)
unfolding is_anchor
is_anchor-add_anchors a [] anchors = refl
is_anchor-add_anchors a (f ∷ found) anchors =
    let rest =
      is_anchor-add_anchors a found (if is_anchor f anchors then anchors else f ∷ anchors) in
    let one = is_anchor-add_one a f anchors in ground (arith, rest, one)

-- GetAnchors reads an answer of the contract, of a first word, the number of confirmations, the number of
-- anchors and their words, as these anchors: where the confirmations are not 0, an address is an anchor
-- afterwards just when it is one of them or was an anchor before.
pub get_anchors-words :
    (first count len : Bytes) (ws : List AddressWord) (anchors : List Address) (a : Address)
    → length first ≡ 32
    → length count ≡ 32
    → length len ≡ 32
    → uint64_of len ≡ length ws
    → 0 < uint64_of count
    → (get_anchors (first ++ (count ++ (len ++ words ws))) anchors
        ≡ ok (add_anchors (addresses ws) anchors))
      × (is_anchor a (add_anchors (addresses ws) anchors)
          ≡ (is_anchor a (addresses ws) || is_anchor a anchors))
unfolding get_anchors long_anchors
get_anchors-words first count len ws anchors a e1 e2 e3 n some_count =
    let ret = first ++ (count ++ (len ++ words ws)) in
    let total : length (first ++ (count ++ (len ++ words ws))) ≡ 96 + length (words ws) =
      length-append first _
      ∙ omega (
        arith,
        e1,
        length-append count (len ++ words ws),
        e2,
        length-append len (words ws),
        e3,
      ) in
    let enough : ltb 64 (length (first ++ (count ++ (len ++ words ws)))) ≡ true =
      lt→ltb 64 (length (first ++ (count ++ (len ++ words ws)))) (omega (arith, total)) in
    let s1 : slice (first ++ (count ++ (len ++ words ws))) 32 64 ≡ ok count =
      slice-append first count (len ++ words ws) 32 64 e1 (omega (arith, e2)) in
    let two : length (first ++ count) ≡ 64 = length-append first count ∙ omega (arith, e1, e2) in
    let s2 : slice (first ++ (count ++ (len ++ words ws))) 64 96 ≡ ok len =
      ap (λ r. slice r 64 96) (sym (append_assoc first count (len ++ words ws)))
      ∙ slice-append (first ++ count) len (words ws) 64 96 two (omega (arith, e3)) in
    let three : length ((first ++ count) ++ len) ≡ 32 * (3 + 0) =
      length-append (first ++ count) len ∙ omega (arith, two, e3) in
    let found : read_anchors (uint64_of len) 0 (first ++ (count ++ (len ++ words ws)))
        ≡ ok (addresses ws) =
      ap (λ m. read_anchors m 0 (first ++ (count ++ (len ++ words ws)))) n
      ∙ ap (read_anchors (length ws) 0) (
          sym (append_assoc first count (len ++ words ws))
          ∙ sym (append_assoc (first ++ count) len (words ws)))
      ∙ read_anchors-words ws 0 ((first ++ count) ++ len) three in
    let counted : ltb 0 (uint64_of count) ≡ true = lt→ltb 0 (uint64_of count) some_count in
    (ground (arith, enough, s1, s2, found, counted), is_anchor-add_anchors a (addresses ws) anchors)
