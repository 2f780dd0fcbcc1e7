-- ===== src/IndexDb/HistoryTests.antt =====
-- A database of one row, with a cache of one entry.
use crosshub.Prelude.{
  ◌==◌, ◌≡◌, ◌≢◌, refl, sym, ap, ◌∙◌, ok-injective, eq_bytes, eq_bytes_sound, Bytes, true, List, [],
  ◌∷◌, Option, none, some, Run, ok, err, map_err, ℤ, pos, Bool-cases, inl, inr, if◌then◌else◌,
  arith,
}
use crosshub.Transaction.Ctx.{CrossTransaction, new_cross_transaction}
use crosshub.IndexDb.Indexed.{
  Indexed, new_cross_transaction_indexed, price_of, to_cross_transaction,
}
use crosshub.IndexDb.Reads.{
  FieldValue, hash, CacheKey, DbError, not_found, failed, get_failed, IndexNode, IndexDb, read,
  as_ctx, get_ctx, lookup, after_get, cached, fetched, put,
}
use crosshub.IndexDb.Writes.{
  IndexTx, writes, with_index_tx, write_all, write_one, closing, drop_key,
}
use crosshub.IndexDb.Upkeep.{IsIndexTx}
use crosshub.IndexDb.History.{
  IsTrue, Call, read_call, writes_call, after_call, after_calls, read-after_calls,
}
use crosshub.IndexDb.Tests.{
  Slot, slot_cache, slot_entry, slot_cache-IsArcCache, eq_key, eq_value, trade,
}

abbrev P : Type 0
P = ℤ × ℤ

abbrev Cell : Type 0
Cell = Option (Indexed P)

abbrev numbered : Indexed P → Indexed P
numbered x = record x { pk = 1 }

cell_one : Cell → FieldValue → Run DbError (Indexed P)
cell_one none k = err not_found
cell_one (some x) (hash h) = if eq_bytes x.ctx_id h then ok (numbered x) else err not_found
cell_one (some x) k = err not_found

cell_save : Indexed P → Cell → Cell × Run DbError (Unit {0})
cell_save x none = (some x, ok tt)
cell_save x (some y) = (some y, err failed)

cell_update : Indexed P → Cell → Cell × Run DbError (Unit {0})
cell_update x none = (none, err not_found)
cell_update x (some y) = if x.pk == 1 then (some x, ok tt) else (some y, err not_found)

cell_delete : Indexed P → Cell → Cell × Run DbError (Unit {0})
cell_delete x none = (none, err not_found)
cell_delete x (some y) = if x.pk == 1 then (none, ok tt) else (some y, err not_found)

abbrev cell_node : IndexNode P
cell_node = record { Db = Cell; one = λ s f k. cell_one s k }

abbrev cell_tx : IndexTx cell_node
cell_tx = record {
  begin = λ s. ok s;
  save = cell_save;
  update = cell_update;
  delete = cell_delete;
  commit = λ s. ok s;
}

cell_one-eq :
    (s : Cell) (h : Bytes) {y : Indexed P}
    → cell_one s (hash h) ≡ ok y
    → (y.ctx_id ≡ h) × (y.pk ≡ 1)
unfolding cell_one
cell_one-eq none h e = absurd (cc)
cell_one-eq (some x) h e = ground (arith, eq_bytes_sound x.ctx_id h)

cell_one-ne :
    (x : Indexed P) (h : Bytes) → h ≢ x.ctx_id → cell_one (some x) (hash h) ≡ err not_found
unfolding cell_one
cell_one-ne x h ne = elim (Bool-cases (eq_bytes x.ctx_id h)) [
  | inl e ↦ absurd (ne (sym (eq_bytes_sound x.ctx_id h e)))
  | inr e ↦ rw e
]

-- No row, where a row would have the key 1.
cell_one-none :
    (s : Cell) (h : Bytes) (x : Indexed P)
    → (x.pk == 1) ≡ true
    → ((y : Indexed P) → cell_one s (hash h) ≡ ok y → y.pk ≢ x.pk)
    → cell_one s (hash h) ≡ err not_found
unfolding cell_one
cell_one-none none h x e f = refl
cell_one-none (some y) h x e f = elim (Bool-cases (eq_bytes y.ctx_id h)) [
  | inl same ↦ absurd (f (numbered y) (rw same) (ground arith))
  | inr other ↦ rw other
]

cell_id_unique :
    (s : Cell) (h i : Bytes) {y z : Indexed P}
    → cell_one s (hash h) ≡ ok y
    → cell_one s (hash i) ≡ ok z
    → h ≡ i
unfolding cell_one
cell_id_unique none h i e f = absurd (cc)
cell_id_unique (some x) h i e f =
    ground (arith, eq_bytes_sound x.ctx_id h, eq_bytes_sound x.ctx_id i)

-- A call that leaves a cell after a success.
left_by :
    (r : Cell × Run DbError (Unit {0})) (c : Cell) {t : Cell} (h : Bytes)
    → r ≡ (t, ok tt)
    → r.0 ≡ c
    → cell_one t (hash h) ≡ cell_one c (hash h)
left_by r c h e f = ap (λ q. cell_one q (hash h)) (sym (ap (λ q. q.0) e) ∙ f)

cell_save-one :
    (s : Cell) {t : Cell} (x : Indexed P) (h : Bytes)
    → cell_save x s ≡ (t, ok tt)
    → h ≢ x.ctx_id
    → cell_one t (hash h) ≡ cell_one s (hash h)
unfolding cell_save cell_one
cell_save-one none x h e ne = left_by (cell_save x none) (some x) h e refl ∙ cell_one-ne x h ne
cell_save-one (some y) x h e ne = absurd (cc)

cell_update-one :
    (s : Cell) {t : Cell} (x : Indexed P) (h : Bytes)
    → cell_update x s ≡ (t, ok tt)
    → h ≢ x.ctx_id
    → ((y : Indexed P) → cell_one s (hash h) ≡ ok y → y.pk ≢ x.pk)
    → cell_one t (hash h) ≡ cell_one s (hash h)
unfolding cell_update
cell_update-one none x h e ne f = absurd (cc)
cell_update-one (some y) x h e ne f = elim (Bool-cases (x.pk == 1)) [
  | inl one ↦
      left_by (cell_update x (some y)) (some x) h e (ground arith)
      ∙ cell_one-ne x h ne
      ∙ sym (cell_one-none (some y) h x one f)
  | inr other ↦ absurd (ground arith)
]

cell_delete-one :
    (s : Cell) {t : Cell} (x : Indexed P) (h : Bytes)
    → cell_delete x s ≡ (t, ok tt)
    → ((y : Indexed P) → cell_one s (hash h) ≡ ok y → y.pk ≢ x.pk)
    → cell_one t (hash h) ≡ cell_one s (hash h)
unfolding cell_delete cell_one
cell_delete-one none x h e f = absurd (cc)
cell_delete-one (some y) x h e f = elim (Bool-cases (x.pk == 1)) [
  | inl one ↦
      left_by (cell_delete x (some y)) none h e (ground arith)
      ∙ sym (cell_one-none (some y) h x one f)
  | inr other ↦ absurd (ground arith)
]

cell_tx-IsIndexTx : IsIndexTx cell_tx
cell_tx-IsIndexTx = record {
  one_id = λ s h e. (cell_one-eq s h e).0;
  pk_unique = λ s h i e f p. cell_id_unique s h i e f;
  pk-ne-zero = λ s h e z. absurd (omega (arith, (cell_one-eq s h e).1));
  begin-one = λ s h e. ap (λ q. cell_one q (hash h)) (sym (ok-injective e));
  commit-one = λ s h e. ap (λ q. cell_one q (hash h)) (sym (ok-injective e));
  save-one = λ s x h new. cell_save-one s x h;
  update-one = cell_update-one;
  delete-one = cell_delete-one;
}

-- A row that is read, replaced and read again.
abbrev index : IndexDb cell_node slot_cache
index = record { db = some (new_cross_transaction_indexed (λ q. q) trade); cache = some none }

abbrev traded : CrossTransaction
traded =
    new_cross_transaction (pos 6) (pos 2) (1 ∷ []) (2 ∷ []) 1 2 (7 ∷ []) (8 ∷ []) (9 ∷ []) (3 ∷ [])

abbrev calls :
    List (Call (λ q. q) cell_node cell_tx slot_cache slot_cache-IsArcCache cell_tx-IsIndexTx)
calls = read_call (7 ∷ []) ∷ writes_call (traded ∷ []) true ∷ []

no_entry :
    (c : Slot) (k : CacheKey) (w : Indexed P)
    → ◌≡◌ {A = Option Slot} (some none) (some c)
    → slot_entry c k ≡ some w
    → ⊥
unfolding slot_entry
no_entry none k w e f = cc
no_entry (some p) k w e f = cc

index-IsTrue :
    IsTrue (λ q. q) cell_node cell_tx slot_cache slot_cache-IsArcCache cell_tx-IsIndexTx index
unfolding slot_cache-IsArcCache
index-IsTrue = record { agrees = λ c k w t e f. absurd (no_entry c k w e f) }

abbrev after : IndexDb cell_node slot_cache
after =
    after_calls (λ q. q) cell_node cell_tx slot_cache slot_cache-IsArcCache cell_tx-IsIndexTx calls
      index

read-after_calls_example :
    (read cell_node slot_cache (7 ∷ []) after).1
    ≡ as_ctx cell_node slot_cache
        (map_err (get_failed (7 ∷ [])) (cell_one after.db (hash (7 ∷ []))))
read-after_calls_example =
    read-after_calls (λ q. q) cell_node cell_tx slot_cache slot_cache-IsArcCache cell_tx-IsIndexTx
      calls index (7 ∷ []) (tt, (tt, tt)) index-IsTrue

-- The second Read gives what was written, not what the first had cached.
traded_run : (read cell_node slot_cache (7 ∷ []) after).1 ≡ ok traded
unfolding after_calls read get_ctx lookup after_get cached after_call writes with_index_tx write_all
    write_one cell_one slot_entry fetched eq_bytes new_cross_transaction_indexed
    new_cross_transaction cell_update price_of to_cross_transaction put closing drop_key eq_key
    eq_value
traded_run = refl
