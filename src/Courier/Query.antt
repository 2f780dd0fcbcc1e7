-- ===== src/Courier/Query.antt =====
-- database.go: Query of Store, over a parameter for storm's queries; its arithmetic is that of the index
-- database's Query.
use crosshub.Prelude.{
  ◌≡◌, ◌-◌, ◌||◌, Bool, true, false, ◌&&◌, ℤ, pos_part, List, [], ◌∷◌, String, str_eq, none, some,
  if◌then◌else◌,
}
use crosshub.Contract.Status.{CStatus}
use crosshub.Courier.Tx.{CrossTx}
use crosshub.Courier.Store.{Node}
use crosshub.IndexDb.Query.{QueryArgs, times_int64, is_positive}

-- q.Eq on a status.
pub record EqStatus : Type 0 where
  pub field : String
  pub status : CStatus

-- The names under which reflection finds a field of CrossTx. Contract embeds an interface, whose fields are
-- not promoted.
abbrev pub cross_tx_fields : List String
cross_tx_fields =
    "Contract" ∷ "IContract" ∷ "PK" ∷ "CrossID" ∷ "TxID" ∷ "BlockNumber" ∷ "TimeStamp" ∷ []

abbrev pub among : String → List String → Bool
among f [] = false
among f (g ∷ gs) = str_eq f g || among f gs

-- Find on a query, which leaves no rows where it has an error.
pub record Finder {D : Type 0} (node : Node D) : Type 0 where
  pub find : node.Db → QueryArgs EqStatus → List CrossTx

-- A matcher on a field that the struct does not have is an error of Find.
pub record IsFinder {D : Type 0} {node : Node D} (finder : Finder node) : Type 0 where
  pub unknown_field :
      (db : node.Db) (args : QueryArgs EqStatus) (e : EqStatus)
      → args.filter ≡ e ∷ []
      → among e.field cross_tx_fields ≡ false
      → finder.find db args ≡ []

-- Query
unfoldable pub query_txs :
    {D : Type 0} {node : Node D}
    → Finder node
    → ℤ
    → ℤ
    → List String
    → Bool
    → List EqStatus
    → node.Db
    → List CrossTx
query_txs finder page_size start_page order_by reversed filter db =
    if is_positive page_size && (if is_positive start_page then false else true)
    then []
    else finder.find db (record {
      filter = filter;
      order_by = order_by;
      reversed = reversed;
      limit = if is_positive page_size then some page_size else none;
      skip =
          if is_positive page_size
          then some (times_int64 (pos_part page_size) (pos_part start_page - 1))
          else none;
    })
