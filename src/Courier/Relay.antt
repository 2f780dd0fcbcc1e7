-- ===== src/Courier/Relay.antt =====
-- toCrossHubTx (tx.go), and the loop of ProcessCrossTxs over the transactions it popped (txmanager.go).
use crosshub.Prelude.{
  ℕ, Bool, true, false, List, [], ◌∷◌, get_elem?, String, Option, none, some, ℤ, pos, ◌-ℤ◌, Run, ok,
  err, panic, Bytes,
}
use crosshub.Prelude.Action
use crosshub.Prelude.Action.{Action, and_then-ok}
use crosshub.Contract.Defs.{ContractCore, PrecommitContract, precommit, commit}
use crosshub.Transaction.Crypto.{Hash, SignError, Crypto}
use crosshub.Transaction.Ctx.{CrossTransaction, new_cross_transaction, new_ctx_signer, sign_ctx}
use crosshub.Courier.Tx.{CrossTx}
use crosshub.Courier.Store.{StoreError}

-- SimpleChain and Fabric
abbrev pub simple_chain : ℕ
simple_chain = 2

abbrev pub fabric : ℕ
fabric = 5

-- json.Marshal of the core, big.Int's SetString in base 10, common.HexToHash, common.BigToHash, and the
-- bytes of a string.
pub record Encoders : Type 0 where
  pub marshal_core : ContractCore → Option Bytes
  pub set_string : String → Option ℤ
  pub hex_to_hash : String → Hash
  pub big_to_hash : ℕ → Hash
  pub bytes_of : String → Bytes

-- A number that does not parse is 0.
abbrev pub number_or_zero : Option ℤ → ℤ
number_or_zero none = pos 0
number_or_zero (some z) = z

module _ (enc : Encoders) where
  -- `none` is nil. Args[2] may be out of range.
  unfoldable pub convert : CrossTx → PrecommitContract → Run StoreError (Option CrossTransaction)
  convert tx pre = elim (enc.marshal_core pre.contract_core) [
    | none ↦ ok none
    | some payload ↦ elim (get_elem? pre.contract_core.args 2) [
      | none ↦ panic
      | some amount ↦ ok (
          some (
            new_cross_transaction (number_or_zero (enc.set_string amount))
              (number_or_zero (enc.set_string pre.contract_core.value))
              (enc.bytes_of pre.contract_core.address) (enc.bytes_of "") fabric simple_chain
              (enc.hex_to_hash tx.cross_id) (enc.hex_to_hash tx.tx_id)
              (enc.big_to_hash tx.block_number) payload))
    ]
  ]

  unfoldable pub to_cross_hub_tx : CrossTx → Run StoreError (Option CrossTransaction)
  to_cross_hub_tx tx = elim tx.contract [
    | none ↦ ok none
    | some (precommit pre) ↦ convert tx pre
    | some (commit c) ↦ ok none
  ]

-- The priority queue, and the client of the other chain, whose Send may fail.
pub record Outside : Type 1 where
  pub Queue : Type 0
  pub push : CrossTx → ℤ → Queue → Queue
  pub Client : Type 0
  pub send : CrossTransaction → Client → Client × Bool

-- What a push documents: the entry is in the queue, and so is all that was.
pub record IsOutside (out : Outside) : Type 1 where
  pub Holds : out.Queue → CrossTx → Type 0
  pub push-Holds : (q : out.Queue) (tx : CrossTx) (p : ℤ) → Holds (out.push tx p q) tx
  pub push_keeps :
      (q : out.Queue) (tx : CrossTx) (p : ℤ) (j : CrossTx) → Holds q j → Holds (out.push tx p q) j

module _ (enc : Encoders) (out : Outside) (crypto : Crypto) (sign_hash : Hash → Option Bytes) where
  pub record Relay : Type 0 where
    pub queue : out.Queue
    pub client : out.Client

  -- signTx of a CrossTransaction, under chain id 11.
  abbrev pub sign_tx : CrossTransaction → Run SignError CrossTransaction
  sign_tx ctx = sign_ctx crypto ctx (new_ctx_signer (some (pos 11))) sign_hash

  -- `prq.Push(tx, -tx.TimeStamp.Seconds)`, and `continue`.
  unfoldable pub push_back : CrossTx → Action Relay StoreError (Option String)
  push_back tx st = elim tx.time_stamp [
    | none ↦ (st, panic)
    | some t ↦ (record st { queue = out.push tx (pos 0 -ℤ t.seconds) st.queue }, ok none)
  ]

  unfoldable pub send_signed : CrossTx → CrossTransaction → Action Relay StoreError (Option String)
  unfolding push_back
  send_signed tx signed st =
      let st' = record st { client = (out.send signed st.client).0 } in
      elim ((out.send signed st.client).1) [
        | true ↦ (st', ok (some tx.cross_id))
        | false ↦ push_back tx st'
      ]

  unfoldable pub sign_and_send :
      CrossTx → Option CrossTransaction → Action Relay StoreError (Option String)
  sign_and_send tx none st = (st, ok none)
  sign_and_send tx (some ctx) st = elim (sign_tx ctx) [
    | ok signed ↦ send_signed tx signed st
    | err e ↦ push_back tx st
    | panic ↦ (st, panic)
  ]

  -- A turn of the loop: the CrossID that goes on the success list.
  unfoldable pub relay_one : CrossTx → Action Relay StoreError (Option String)
  relay_one tx st = elim (to_cross_hub_tx enc tx) [
    | ok ctx ↦ sign_and_send tx ctx st
    | err e ↦ (st, err e)
    | panic ↦ (st, panic)
  ]

  abbrev pub append_success : Option String → List String → List String
  append_success none ids = ids
  append_success (some id) ids = id ∷ ids

  -- The loop, with its success list.
  unfoldable pub relay_all : List CrossTx → Action Relay StoreError (List String)
  relay_all [] st = (st, ok [])
  relay_all (tx ∷ rest) st = Action.and_then (relay_one tx st) (λ sent st1.
      Action.and_then (relay_all rest st1) (λ ids st2. (st2, ok (append_success sent ids))))
