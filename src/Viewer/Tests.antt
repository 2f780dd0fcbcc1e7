-- ===== src/Viewer/Tests.antt =====
-- Runs of the viewer on a chain with one log.
use crosshub.Prelude.{
  false, eq_bytes, ℕ, ◌+◌, ◌-◌, ◌≡◌, refl, ◌||◌, ◌==◌, Bytes, List, [], ◌∷◌, ◌++◌, replicate, ℤ,
  pos, negsuc, Option, none, some, ok, if◌then◌else◌, arith,
}
use crosshub.Transaction.Ctx.{
  CrossTransaction, new_ctx_signer, sign_ctx, sign_simple_ctx, ctx_preimage, ctx_signer_hash,
  ctx_with_signature, ctx_signature_values, new_cross_transaction,
}
use crosshub.Transaction.Tests.{
  plain, plain-IsCrypto, plain_sign, plain_sign-IsSigner, first_of, chain_of,
}
use crosshub.Viewer.Logs.{
  CtxStore, CrossMakerTx, Log, Abi, ctx_event, Hub, topic_of, stored_event, sign_maker_tx,
  on_maker_tx, on_topic, one_log, event_log,
}
use crosshub.Viewer.Window.{Viewer, polls}
use crosshub.Viewer.Scanning.{range_logs, IsFilter, polls-event_log}
use crosshub.Viewer.Messages.{
  is_anchor, local_chain, Node, ctx_message, Inbox, write_signed, handle_message,
}
use crosshub.Viewer.Relaying.{handle_message-on_maker_tx}
use crosshub.Viewer.Anchors.{uint64_of, be_value, add_anchors, get_anchors}
use crosshub.Viewer.AnchorWords.{AddressWord, words, addresses, get_anchors-words}

abbrev maker_args : CrossMakerTx
maker_args = record {
  tx_id = 5 ∷ [];
  value = pos 100;
  dest_value = pos 3;
  from = 1 ∷ [];
  to = [];
  purpose = 5;
  payload = [];
}

abbrev cross_abi : Abi
cross_abi = record {
  maker_tx = 1 ∷ [];
  taker_tx = 2 ∷ [];
  maker_finish = 3 ∷ [];
  unpack_maker_tx = λ b. maker_args;
  nil_amounts = λ b. false;
  unpack_taker_tx =
      λ b. record { tx_id = []; from = []; to = []; taker = []; purpose = 0; payload = [] };
  unpack_maker_finish = λ b. record { tx_id = [] };
}

-- A store that keeps the transactions that were written.
abbrev list_store : CtxStore
list_store = record {
  Store = List CrossTransaction;
  Error = Unit {0};
  write = λ ctx s. (ctx ∷ s, ok tt);
  deletes = λ ids s. (s, ok tt);
}

abbrev maker_log : Log
maker_log = record { topics = (1 ∷ []) ∷ []; content = []; tx_hash = 6 ∷ []; block_hash = 8 ∷ [] }

abbrev H : Type 0
H = Hub cross_abi plain plain_sign list_store

abbrev empty : H
empty = record { local_store = []; remote_store = []; events = [] }

abbrev block_logs : ℕ → List Log
block_logs n = if n == 100 then maker_log ∷ [] else []

abbrev filter_logs : ℤ → ℤ → Option (List Log)
filter_logs (pos a) (pos b) = some (range_logs block_logs a (b + 1 - a))
filter_logs (pos a) (negsuc b) = none
filter_logs (negsuc a) b = none

filter_logs-IsFilter : IsFilter filter_logs block_logs 101
filter_logs-IsFilter = record { filters = λ from to h. refl }

abbrev start : Viewer cross_abi plain plain_sign list_store
start = record { current_height = 99; hub = empty; anchors = [] }

abbrev after : H
after = (event_log cross_abi plain plain_sign list_store (range_logs block_logs 99 2) empty).0

after_run :
    event_log cross_abi plain plain_sign list_store (range_logs block_logs 99 2) empty
    ≡ (after, ok tt)
unfolding event_log one_log on_topic topic_of eq_bytes on_maker_tx sign_maker_tx stored_event
    sign_ctx ctx_signer_hash ctx_preimage ctx_with_signature ctx_signature_values new_ctx_signer
    new_cross_transaction first_of chain_of
after_run = refl

polls-event_log_example :
    polls cross_abi plain plain_sign list_store 1 (some 101) filter_logs start
    ≡ (record start { hub = after; current_height = 101 }, ok tt)
polls-event_log_example =
    polls-event_log cross_abi plain plain_sign list_store filter_logs block_logs 101
      filter_logs-IsFilter (omega arith) (omega arith) 1 start after (omega arith) (omega arith)
      after_run

abbrev noted : H
noted = (on_maker_tx cross_abi plain plain_sign list_store maker_log empty).0

noted_run : on_maker_tx cross_abi plain plain_sign list_store maker_log empty ≡ (noted, ok tt)
unfolding on_maker_tx sign_maker_tx stored_event sign_ctx ctx_signer_hash ctx_preimage
    ctx_with_signature ctx_signature_values new_ctx_signer new_cross_transaction first_of chain_of
noted_run = refl

abbrev node : Node
node = record {
  State = ℕ;
  Transaction = ℕ;
  pending_nonce = λ s. s;
  pack = λ name r. some [];
  sign_transaction = λ n b. some n;
  send_transaction = λ tx s. (s + 1, ok tt);
}

abbrev inbox : Inbox plain plain_sign list_store node
inbox = record { remote_store = []; chain = 0 }

abbrev signed_log : CrossTransaction
signed_log = new_cross_transaction (pos 100) (pos 3) (1 ∷ []) [] 2 5 (5 ∷ []) (6 ∷ []) (8 ∷ []) []

handle_message-on_maker_tx_example :
    (ctms cached : CrossTransaction) × (noted.events ≡ ctx_event ctms ∷ [])
    × (ctx_preimage plain ctms.ctx ≡ ctx_preimage plain signed_log.ctx)
    × (cached.ctx ≡ ctms.ctx)
    × (handle_message plain plain_sign list_store node ((7 ∷ []) ∷ []) (ctx_message ctms) inbox ≡ (
        if is_anchor (7 ∷ []) ((7 ∷ []) ∷ [])
        then write_signed plain plain_sign list_store node
            (sign_simple_ctx plain cached (new_ctx_signer local_chain) plain_sign)
            inbox
        else (inbox, ok tt)))
handle_message-on_maker_tx_example =
    handle_message-on_maker_tx plain plain-IsCrypto cross_abi list_store plain_sign (7 ∷ [])
      plain_sign-IsSigner maker_log empty noted list_store node plain_sign ((7 ∷ []) ∷ []) inbox
      noted_run

abbrev small_word : ℕ → Bytes
small_word n = replicate 31 0 ++ (n ∷ [])

abbrev one_word : AddressWord
one_word = record {
  pad = replicate 12 0;
  address = replicate 20 9;
  pad_size = refl;
  address_size = refl;
}

one_value : uint64_of (small_word 1) ≡ 1
unfolding be_value
one_value = refl

two_value : uint64_of (small_word 2) ≡ 2
unfolding be_value
two_value = refl

get_anchors-words_example :
    (get_anchors
        (small_word 64 ++ (small_word 2 ++ (small_word 1 ++ words (one_word ∷ []))))
        ((7 ∷ []) ∷ [])
      ≡ ok (add_anchors (addresses (one_word ∷ [])) ((7 ∷ []) ∷ [])))
    × (is_anchor (7 ∷ []) (add_anchors (addresses (one_word ∷ [])) ((7 ∷ []) ∷ []))
        ≡ (is_anchor (7 ∷ []) (addresses (one_word ∷ [])) || is_anchor (7 ∷ []) ((7 ∷ []) ∷ [])))
get_anchors-words_example =
    get_anchors-words (small_word 64) (small_word 2) (small_word 1) (one_word ∷ []) ((7 ∷ []) ∷ [])
      (7 ∷ []) refl refl refl one_value (omega (arith, two_value))
