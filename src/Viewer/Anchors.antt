-- ===== src/Viewer/Anchors.antt =====
-- chainview.go: GetAnchors, which reads the anchors from the answer of the contract.
use crosshub.Prelude.{
  ℕ, zero, suc, ◌+◌, ◌-◌, ◌*◌, ◌%◌, ◌^◌, ltb, leb, Bytes, List, [], ◌∷◌, length, take, drop, Run,
  ok, panic, ◌>>=◌, if◌then◌else◌,
}
use crosshub.Transaction.Crypto.{Address}
use crosshub.Viewer.Messages.{is_anchor}

-- `new(big.Int).SetBytes(b).Uint64()`
unfoldable pub be_value : ℕ → Bytes → ℕ
be_value acc [] = acc
be_value acc (b ∷ bs) = be_value (acc * 256 + b) bs

abbrev pub uint64_of : Bytes → ℕ
uint64_of bs = be_value 0 bs % 2 ^ 64

-- `ret[from:to]`
unfoldable pub slice : Bytes → ℕ → ℕ → Run (Unit {0}) Bytes
slice ret from to =
    if leb from to
    then if leb to (length ret) then ok (take (to - from) (drop from ret)) else panic
    else panic

-- The loop over the anchors, on those that are left from the index `i`. The index of a slice does not come
-- near the end of a uint64 before it is past the end of the answer.
unfoldable pub read_anchors : ℕ → ℕ → Bytes → Run (Unit {0}) (List Address)
read_anchors zero i ret = ok []
read_anchors (suc n) i ret = do
  anchor ← slice ret (32 * (4 + i) - 20) (32 * (4 + i))
  anchors ← read_anchors n (suc i) ret
  ok (anchor ∷ anchors)

-- `this.Anchors[v] = struct{}{}` for each of them.
abbrev pub add_anchors : List Address → List Address → List Address
add_anchors [] anchors = anchors
add_anchors (a ∷ rest) anchors =
    add_anchors rest (if is_anchor a anchors then anchors else a ∷ anchors)

-- The part of GetAnchors on an answer with more than 64 bytes.
unfoldable pub long_anchors : Bytes → List Address → Run (Unit {0}) (List Address)
long_anchors ret anchors = do
  count ← slice ret 32 64
  len ← slice ret 64 96
  found ← read_anchors (uint64_of len) 0 ret
  ok (if ltb 0 (uint64_of count) then add_anchors found anchors else anchors)

-- GetAnchors from the answer of CallContract on.
unfoldable pub get_anchors : Bytes → List Address → Run (Unit {0}) (List Address)
get_anchors ret anchors = if ltb 64 (length ret) then long_anchors ret anchors else ok anchors
