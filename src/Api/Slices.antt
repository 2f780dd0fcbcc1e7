-- ===== src/Api/Slices.antt =====
-- The content of a page of the RPC, as parts of what the two databases find by the index Price.
use crosshub.Prelude.{
  ℕ, suc, ◌*◌, ◌^◌, ◌<◌, ◌≡◌, refl, sym, ap, ap₂, ◌∙◌, false, ℤ, pos, List, [], ◌∷◌, ◌++◌, map,
  take, drop, Option, some, append_assoc, append-nil, arith,
}
use crosshub.Transaction.Ctx.{CrossTransaction}
use crosshub.IndexDb.Reads.{IndexNode}
use crosshub.IndexDb.Query.{Storm, IsStorm}
use crosshub.IndexDb.Paging.{whole, query_rows-take}
use crosshub.Api.Content.{
  RpcCrossTransaction, rpc_of, new_rpc_cross_transaction, ByStatus, price_index, append_at,
  fill_status, page_data, Content, CrossQueryApi, ctx_content_by_page,
}

-- All that there is stands under one status; where there is nothing, no status stands either.
abbrev pub under : {A : Type 0} → ℕ → List A → ByStatus A
under k [] = []
under k (x ∷ xs) = (k, x ∷ xs) ∷ []

abbrev pub rpc : CrossTransaction → Option RpcCrossTransaction
rpc tx = some (rpc_of tx)

abbrev content_of :
    ByStatus (Option RpcCrossTransaction) → ByStatus (Option RpcCrossTransaction) → Content
content_of l r = record { local = l; remote = r }

append_at-under :
    {A : Type 0} (k : ℕ) (x : A) (xs : List A)
    → append_at k x (under k xs) ≡ under k (xs ++ (x ∷ []))
unfolding append_at
append_at-under k x [] = refl
append_at-under k x (y ∷ xs) = ground arith

fill_status-under :
    (k : ℕ) (txs : List CrossTransaction) (done : List (Option RpcCrossTransaction))
    → fill_status k txs (under k done) ≡ under k (done ++ map rpc txs)
unfolding fill_status new_rpc_cross_transaction
fill_status-under k [] done = ap (under k) (sym (append-nil done))
fill_status-under k (tx ∷ txs) done =
    ap (fill_status k txs) (append_at-under k (rpc tx) done)
    ∙ fill_status-under k txs (done ++ (rpc tx ∷ []))
    ∙ ap (under k) (append_assoc done (rpc tx ∷ []) (map rpc txs))

module _ {F : Type 0} {node : IndexNode F} (storm : Storm node) (laws : IsStorm storm) where
  -- For a page size and a page number, both from 1 on, whose offset is below 2^63: the content has under "local",
  -- with status 2, the RPC objects of that page of the rows that the local database finds when it is asked for all
  -- of them by the index Price, and under "remote", with status 5, those of the same page of the remote database;
  -- the size and the page that are asked of the remote database change nothing. In which order the database puts
  -- the rows is not part of it.
  pub ctx_content_by_page-take :
      (size page : ℕ) (remote_size remote_page : ℤ) (api : CrossQueryApi storm)
      → 0 < size
      → size * page < 2 ^ 63
      → ctx_content_by_page storm (pos size) (pos (suc page)) remote_size remote_page api ≡ record {
        local = under 2 (
            map rpc (
              take size
                (drop (size * page) (whole storm laws (price_index ∷ []) false [] api.local_db))));
        remote = under 5 (
            map rpc (
              take size
                (drop (size * page) (whole storm laws (price_index ∷ []) false [] api.remote_db))));
      }
  unfolding ctx_content_by_page page_data
  ctx_content_by_page-take size page remote_size remote_page api h b =
      ap₂ content_of
        (fill_status-under 2 _ []
          ∙ ap (λ l. under 2 (map rpc l))
              (query_rows-take storm laws (price_index ∷ []) false [] api.local_db size page h b))
        (fill_status-under 5 _ []
          ∙ ap (λ l. under 5 (map rpc l))
              (query_rows-take storm laws (price_index ∷ []) false [] api.remote_db size page h b))
