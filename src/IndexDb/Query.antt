-- ===== src/IndexDb/Query.antt =====
-- indexdb.go: Query, Count, and the config keys, over a parameter for storm's queries.
use crosshub.Prelude.{
  ℕ, ◌-◌, ◌*◌, ◌%◌, ◌^◌, ◌≡◌, ltb, Bool, true, false, ◌&&◌, String, ℤ, pos, negsuc, pos_part, List,
  [], map, take, drop, Option, none, some, Run, ok, err, panic, if◌then◌else◌,
}
use crosshub.Prelude.Action.{Action}
use crosshub.Transaction.Ctx.{CrossTransaction}
use crosshub.IndexDb.Indexed.{Indexed, to_cross_transaction}
use crosshub.IndexDb.Reads.{FieldName, DbError, IndexNode}

-- What a storm query is told before Find: a limit and a skip that are set, or not.
pub record QueryArgs (Matcher : Type 0) : Type 0 where
  pub filter : List Matcher
  pub order_by : List FieldName
  pub reversed : Bool
  pub limit : Option ℤ
  pub skip : Option ℤ

-- Find on a query, which leaves no rows where it has an error; Count; and Set and Get on a bucket.
pub record Storm {F : Type 0} (node : IndexNode F) : Type 1 where
  pub Matcher : Type 0
  pub find : node.Db → QueryArgs Matcher → List (Indexed F)
  pub count : node.Db → List Matcher → ℕ
  pub set_key : String → String → ℕ → Action node.Db DbError (Unit {0})
  pub get_key : String → String → node.Db → Run DbError ℕ

-- Skip passes over as many of the rows in order, and Limit keeps as many of what is left.
pub record IsStorm {F : Type 0} {node : IndexNode F} (storm : Storm node) : Type 0 where
  pub find_page :
      (s : node.Db) (filter : List storm.Matcher) (order_by : List FieldName) (reversed : Bool)
      (n k : ℕ)
      → storm.find s (record {
        filter = filter;
        order_by = order_by;
        reversed = reversed;
        limit = some (pos n);
        skip = some (pos k);
      })
        ≡ take n (
            drop k (
              storm.find s (record {
                filter = filter;
                order_by = order_by;
                reversed = reversed;
                limit = none;
                skip = none;
              })))

-- The product of two ints, each positive, as an int64.
unfoldable pub times_int64 : ℕ → ℕ → ℤ
times_int64 a b =
    let w = (a * b) % 2 ^ 64 in if ltb w (2 ^ 63) then pos w else negsuc (2 ^ 64 - 1 - w)

abbrev pub is_positive : ℤ → Bool
is_positive (pos n) = ltb 0 n
is_positive (negsuc n) = false

module _ {F : Type 0} {node : IndexNode F} (storm : Storm node) where
  abbrev pub query_args :
      ℤ → ℤ → List FieldName → Bool → List storm.Matcher → QueryArgs storm.Matcher
  query_args page_size start_page order_by reversed filter = record {
    filter = filter;
    order_by = order_by;
    reversed = reversed;
    limit = if is_positive page_size then some page_size else none;
    skip =
        if is_positive page_size
        then some (times_int64 (pos_part page_size) (pos_part start_page - 1))
        else none;
  }

  -- Query. An OrderBy of no field and no Reverse are the query's defaults.
  unfoldable pub query_rows :
      ℤ → ℤ → List FieldName → Bool → List storm.Matcher → node.Db → List CrossTransaction
  query_rows page_size start_page order_by reversed filter s =
      if is_positive page_size && (if is_positive start_page then false else true)
      then []
      else map to_cross_transaction
          (storm.find s (query_args page_size start_page order_by reversed filter))

  -- Count
  unfoldable pub count_rows : List storm.Matcher → node.Db → ℕ
  count_rows filter s = storm.count s filter

  -- Set
  unfoldable pub set_config : String → ℕ → Action node.Db DbError (Unit {0})
  set_config key value = storm.set_key "config" key value

  abbrev pub zero_on_error : Run DbError ℕ → Run DbError ℕ
  zero_on_error (ok n) = ok n
  zero_on_error (err e) = ok 0
  zero_on_error panic = panic

  -- Get
  unfoldable pub get_config : String → node.Db → Run DbError ℕ
  get_config key s = zero_on_error (storm.get_key "config" key s)
