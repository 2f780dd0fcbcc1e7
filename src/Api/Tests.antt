-- ===== src/Api/Tests.antt =====
-- Pages of two databases that are lists, already in order.
use crosshub.Prelude.{
  ℕ, ◌^◌, ◌≡◌, refl, false, ℤ, pos, negsuc, List, [], ◌∷◌, map, take, drop, Option, none, some, err,
  arith,
}
use crosshub.Prelude.Action.{pure}
use crosshub.Transaction.Ctx.{CrossTransaction, new_cross_transaction}
use crosshub.IndexDb.Indexed.{Indexed, new_cross_transaction_indexed}
use crosshub.IndexDb.Reads.{IndexNode, failed}
use crosshub.IndexDb.Query.{Storm, IsStorm, query_rows, times_int64}
use crosshub.IndexDb.Paging.{whole, pages, pages-take}
use crosshub.Api.Content.{
  RpcCrossTransaction, price_index, Content, CrossQueryApi, new_public_cross_query_api,
  ctx_content_by_page, query_by_page, page_data,
}
use crosshub.Api.Slices.{under, rpc, ctx_content_by_page-take}

abbrev listed : IndexNode ℕ
listed = record { Db = List (Indexed ℕ); one = λ d f k. err failed }

skipped : Option ℤ → List (Indexed ℕ) → List (Indexed ℕ)
skipped (some (pos k)) rows = drop k rows
skipped (some (negsuc k)) rows = rows
skipped none rows = rows

limited : Option ℤ → List (Indexed ℕ) → List (Indexed ℕ)
limited (some (pos n)) rows = take n rows
limited (some (negsuc n)) rows = rows
limited none rows = rows

abbrev listed_storm : Storm listed
listed_storm = record {
  Matcher = ℕ;
  find = λ d q. limited q.limit (skipped q.skip d);
  count = λ d filter. 0;
  set_key = λ b k n. pure tt;
  get_key = λ b k d. err failed;
}

listed_storm-IsStorm : IsStorm listed_storm
unfolding skipped limited
listed_storm-IsStorm = record { find_page = λ s filter order_by reversed n k. refl }

abbrev trade : ℕ → CrossTransaction
trade i =
    new_cross_transaction (pos 5) (pos i) (1 ∷ []) (2 ∷ []) 1 2 (i ∷ []) (8 ∷ []) (9 ∷ []) (3 ∷ [])

abbrev row : ℕ → Indexed ℕ
row i = new_cross_transaction_indexed (λ q. i) (trade i)

abbrev api : CrossQueryApi listed_storm
api =
    new_public_cross_query_api listed_storm (row 7 ∷ row 8 ∷ row 9 ∷ [])
      (row 1 ∷ row 2 ∷ row 3 ∷ [])

ctx_content_by_page-take_example :
    ctx_content_by_page listed_storm (pos 2) (pos 2) (pos 1) (pos 1) api ≡ record {
      local = under 2 (
          map rpc (
            take 2 (
              drop 2 (
                whole listed_storm listed_storm-IsStorm
                  (price_index ∷ [])
                  false
                  []
                  api.local_db))));
      remote = under 5 (
          map rpc (
            take 2 (
              drop 2 (
                whole listed_storm listed_storm-IsStorm
                  (price_index ∷ [])
                  false
                  []
                  api.remote_db))));
    }
ctx_content_by_page-take_example =
    ctx_content_by_page-take listed_storm listed_storm-IsStorm 2 1 (pos 1) (pos 1) api (omega arith)
      (omega arith)

pages-take_example :
    pages listed_storm listed_storm-IsStorm
      (price_index ∷ [])
      false
      []
      (row 1 ∷ row 2 ∷ row 3 ∷ [])
      2
      2
    ≡ take 4 (
        whole listed_storm listed_storm-IsStorm
          (price_index ∷ [])
          false
          []
          (row 1 ∷ row 2 ∷ row 3 ∷ []))
pages-take_example =
    pages-take listed_storm listed_storm-IsStorm (price_index ∷ []) false []
      (row 1 ∷ row 2 ∷ row 3 ∷ []) 2 2 (omega arith) (omega arith)

-- A page of the remote database that was asked for by its own size and number.
remote_run :
    ctx_content_by_page listed_storm (pos 1) (pos 1) (pos 3) (pos 1) api
    ≡ record { local = under 2 (rpc (trade 1) ∷ []); remote = under 5 (rpc (trade 7) ∷ []) }
unfolding ctx_content_by_page page_data crosshub.Api.Content.fill_status query_rows limited skipped
    times_int64 new_public_cross_query_api crosshub.Api.Content.append_at
    crosshub.Api.Content.new_rpc_cross_transaction new_cross_transaction
    crosshub.IndexDb.Indexed.to_cross_transaction new_cross_transaction_indexed
remote_run = refl

-- A skip of 2^64 is a skip of 0: the first page comes again.
skip_overflow : times_int64 (2 ^ 32) (2 ^ 32) ≡ pos 0
unfolding times_int64
skip_overflow = refl
