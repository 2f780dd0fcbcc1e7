-- ===== src/Courier/RelayTests.antt =====
-- A run of the relay loop in which the first transaction is sent and the second is not.
use crosshub.Prelude.{
  ℕ, suc, ◌≡◌, refl, List, [], ◌∷◌, replicate, get_elem?, String, Option, none, some, pos, ok,
  Bytes, ◌==◌,
}
use crosshub.Transaction.Crypto.{Hash, Crypto}
use crosshub.Transaction.Ctx.{
  sign_ctx, ctx_signer_hash, ctx_preimage, ctx_with_signature, ctx_signature_values, new_ctx_signer,
  new_cross_transaction,
}
use crosshub.Contract.Status.{init}
use crosshub.Contract.Defs.{precommit, ContractCore}
use crosshub.Courier.Tx.{CrossTx}
use crosshub.Courier.Relay.{
  Encoders, convert, to_cross_hub_tx, Outside, IsOutside, Relay, push_back, send_signed,
  sign_and_send, relay_one, relay_all,
}
use crosshub.Courier.Accounted.{Accounted, relay_all-Accounted}

abbrev pub flat : Crypto
flat = record {
  keccak = λ b. b;
  pad_bytes = λ n. n ∷ [];
  set_bytes = λ b. 1;
  hex_to_address = λ b. b;
  derive_chain_id = λ v. v;
  recover_plain = λ h r s v. ok h;
}

abbrev pub sign_flat : Hash → Option Bytes
sign_flat h = some (replicate 65 1)

abbrev pub encoders : Encoders
encoders = record {
  marshal_core = λ c. some [];
  set_string = λ t. none;
  hex_to_hash = λ t. [];
  big_to_hash = λ n. n ∷ [];
  bytes_of = λ t. [];
}

-- Send succeeds the first time only.
abbrev outside : Outside
outside = record {
  Queue = List CrossTx;
  push = λ tx p q. tx ∷ q;
  Client = ℕ;
  send = λ ctx n. (suc n, n == 0);
}

outside-IsOutside : IsOutside outside
outside-IsOutside = record {
  Holds = λ q tx. (m : ℕ) × (get_elem? q m ≡ some tx);
  push-Holds = λ q tx p. (0, refl);
  push_keeps = λ q tx p j h. (suc (h.0), h.1);
}

abbrev pub three_args : ContractCore
three_args = record {
  address = "0x1";
  value = "5";
  description = "";
  owner = "a";
  to_call_func = "invoke";
  args = "a" ∷ "b" ∷ "10" ∷ [];
  creator = "a";
}

abbrev pub fresh : String → CrossTx
fresh id = record {
  contract = some (
      precommit
        (record { status = init; contract_id = id; receipt = ""; contract_core = three_args }));
  pk = pos 1;
  cross_id = id;
  tx_id = "t";
  block_number = 4;
  time_stamp = some (record { seconds = pos 100; nanos = pos 0 });
}

abbrev idle : Relay encoders outside flat sign_flat
idle = record { queue = []; client = 0 }

abbrev after_loop : Relay encoders outside flat sign_flat
after_loop = record { queue = fresh "b" ∷ []; client = 2 }

loop_runs :
    relay_all encoders outside flat sign_flat (fresh "a" ∷ fresh "b" ∷ []) idle
    ≡ (after_loop, ok ("a" ∷ []))
unfolding relay_all relay_one to_cross_hub_tx convert sign_and_send send_signed push_back sign_ctx
    ctx_signer_hash ctx_preimage ctx_with_signature ctx_signature_values new_ctx_signer
    new_cross_transaction
loop_runs = refl

relay_all-Accounted_example :
    Accounted encoders outside outside-IsOutside flat sign_flat after_loop.queue
      ("a" ∷ [])
      (fresh "b")
relay_all-Accounted_example =
    relay_all-Accounted encoders outside outside-IsOutside flat sign_flat
      (fresh "a" ∷ fresh "b" ∷ []) idle after_loop ("a" ∷ []) loop_runs 1 (fresh "b") refl
