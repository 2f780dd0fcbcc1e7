-- ===== src/IndexDb/Paging.antt =====
-- The pages of Query, put together.
use crosshub.Prelude.{
  ℕ, zero, suc, ◌+◌, ◌-◌, ◌*◌, ◌^◌, ◌<◌, ◌≡◌, refl, sym, ap, ◌∙◌, Bool, pos, List, [], ◌∷◌, ◌++◌,
  map, take, drop, some, arith,
}
use crosshub.Transaction.Ctx.{CrossTransaction}
use crosshub.IndexDb.Indexed.{to_cross_transaction}
use crosshub.IndexDb.Reads.{FieldName, IndexNode}
use crosshub.IndexDb.Query.{Storm, IsStorm, times_int64, query_args, query_rows}

module _ {ℓ} {A : Type ℓ} where
  map-take {κ} :
      {B : Type κ} (f : A → B) (n : ℕ) (xs : List A) → map f (take n xs) ≡ take n (map f xs)
  map-take f zero xs = refl
  map-take f (suc n) [] = refl
  map-take f (suc n) (x ∷ xs) = ap (◌∷◌ (f x)) (map-take f n xs)

  map-drop {κ} :
      {B : Type κ} (f : A → B) (n : ℕ) (xs : List A) → map f (drop n xs) ≡ drop n (map f xs)
  map-drop f zero xs = refl
  map-drop f (suc n) [] = refl
  map-drop f (suc n) (x ∷ xs) = map-drop f n xs

  take-nil : (n : ℕ) → take n (let xs : List A = [] in xs) ≡ []
  take-nil zero = refl
  take-nil (suc n) = refl

  -- A first part, and a part behind it.
  take-add : (n k : ℕ) (xs : List A) → take n xs ++ take k (drop n xs) ≡ take (n + k) xs
  take-add zero k xs = ap (λ j. take j xs) (omega arith)
  take-add (suc n) k [] = take-nil k ∙ sym (take-nil (suc n + k))
  take-add (suc n) k (x ∷ xs) =
      let e : suc n + k ≡ suc (n + k) = omega arith in
      ap (◌∷◌ x) (take-add n k xs) ∙ sym (ap (λ j. take j (x ∷ xs)) e)

times_int64_small : (a b : ℕ) → a * b < 2 ^ 63 → times_int64 a b ≡ pos (a * b)
unfolding times_int64
times_int64_small a b h = ground arith

module _ {F : Type 0} {node : IndexNode F} (storm : Storm node) (laws : IsStorm storm)
    (order_by : List FieldName) (reversed : Bool) (filter : List storm.Matcher) (s : node.Db) where
  -- A query for everything.
  abbrev pub whole : List CrossTransaction
  whole = query_rows storm (pos 0) (pos 0) order_by reversed filter s

  query_rows-query_args :
      (n page : ℕ)
      → query_rows storm (pos (suc n)) (pos (suc page)) order_by reversed filter s
        ≡ map to_cross_transaction (
            storm.find s (query_args storm (pos (suc n)) (pos (suc page)) order_by reversed filter))
  unfolding query_rows
  query_rows-query_args n page = ground arith

  query_args-page :
      (n page : ℕ)
      → suc n * page < 2 ^ 63
      → query_args storm (pos (suc n)) (pos (suc page)) order_by reversed filter ≡ record {
        filter = filter;
        order_by = order_by;
        reversed = reversed;
        limit = some (pos (suc n));
        skip = some (pos (suc n * page));
      }
  query_args-page n page b =
      let e : suc page - 1 ≡ page = omega arith in
      ground (arith, ap (times_int64 (suc n)) e, times_int64_small (suc n) page b)

  -- A page is a part of the whole, of the page's size or less.
  pub query_rows-take :
      (size page : ℕ)
      → 0 < size
      → size * page < 2 ^ 63
      → query_rows storm (pos size) (pos (suc page)) order_by reversed filter s
        ≡ take size (drop (size * page) whole)
  unfolding query_rows
  query_rows-take zero page h b = absurd (omega arith)
  query_rows-take (suc n) page h b =
      query_rows-query_args n page
      ∙ ap (λ q. map to_cross_transaction (storm.find s q)) (query_args-page n page b)
      ∙ ap (map to_cross_transaction)
          (laws.find_page s filter order_by reversed (suc n) (suc n * page))
      ∙ map-take to_cross_transaction (suc n) (
          drop (suc n * page)
            (storm.find s (query_args storm (pos 0) (pos 0) order_by reversed filter)))
      ∙ ap (take (suc n)) (
          map-drop to_cross_transaction (suc n * page)
            (storm.find s (query_args storm (pos 0) (pos 0) order_by reversed filter)))

  -- The pages from the first on.
  unfoldable pub pages : ℕ → ℕ → List CrossTransaction
  pages size zero = []
  pages size (suc k) =
      pages size k ++ query_rows storm (pos size) (pos (suc k)) order_by reversed filter s

  -- The pages from the first to the k-th, put together, are as many of the first transactions of the
  -- whole result, as long as their number is less than 2^63.
  pub pages-take :
      (size k : ℕ) → 0 < size → size * k < 2 ^ 63 → pages size k ≡ take (size * k) whole
  unfolding pages
  pages-take size zero h b = let z : 0 ≡ size * 0 = omega arith in ap (λ n. take n whole) z
  pages-take size (suc k) h b =
      let so_far : size * k < 2 ^ 63 = grind arith in
      let n : size * k + size ≡ size * suc k = grind arith in
      ap (λ l. l ++ query_rows storm (pos size) (pos (suc k)) order_by reversed filter s)
        (pages-take size k h so_far)
      ∙ ap (◌++◌ (take (size * k) whole)) (query_rows-take size k h so_far)
      ∙ take-add (size * k) size whole
      ∙ ap (λ j. take j whole) n
