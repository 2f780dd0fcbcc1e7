-- ===== src/Viewer/Stores.antt =====
-- The two stores of the viewer are IndexDBs.
use crosshub.Prelude.{ℤ}
use crosshub.IndexDb.Reads.{IndexNode, ArcCache}
use crosshub.IndexDb.Writes.{IndexTx, WriteError, State, write, deletes}
use crosshub.Viewer.Logs.{CtxStore}

abbrev pub index_store :
    {F : Type 0} (set_rat : ℤ × ℤ → F) (node : IndexNode F) → IndexTx node → ArcCache F → CtxStore
index_store set_rat node tx arc = record {
  Store = State set_rat node tx arc;
  Error = WriteError;
  write = write set_rat node tx arc;
  deletes = deletes set_rat node tx arc;
}
