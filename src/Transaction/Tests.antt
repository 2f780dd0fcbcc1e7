-- ===== src/Transaction/Tests.antt =====
-- A crypto library over lists of bytes, and signed transactions under it.
use crosshub.Prelude.{
  ℕ, ◌-◌, ◌/◌, ◌≡◌, refl, sym, ap, length, get_elem?, [], ◌∷◌, ◌++◌, replicate, ℤ, pos, negsuc,
  Option, none, some, ok, Bytes, arith,
}
use crosshub.Transaction.Crypto.{Hash, Crypto, IsCrypto, IsSigner}
use crosshub.Transaction.Ctx.{
  CrossTransaction, fresh_ctx, new_cross_transaction, new_ctx_signer, ctx_preimage, sign_ctx,
  ctx_sender, ctx_hash,
}
use crosshub.Transaction.Rtx.{
  ReceptTransaction, new_recept_transaction, Recept, construct_recept_data,
}
use crosshub.Transaction.Statuses.{ctx_status_to_string, status_text, unmarshal_status, text_at}
use crosshub.Transaction.Sender.{sign_ctx-sender}
use crosshub.Transaction.Preimage.{ctx_sender-moved_bytes}

unfoldable pub chain_of : ℤ → ℤ
chain_of (pos v) = pos ((v - 35) / 2)
chain_of (negsuc v) = negsuc v

unfoldable pub first_of : Bytes → ℕ
first_of [] = 0
first_of (b ∷ bs) = b

abbrev pub plain : Crypto
plain = record {
  keccak = λ b. b;
  pad_bytes = λ n. replicate 31 0 ++ (n ∷ []);
  set_bytes = first_of;
  hex_to_address = λ b. b;
  derive_chain_id = chain_of;
  recover_plain = λ h r s v. ok (7 ∷ []);
}

pub plain-IsCrypto : IsCrypto plain
unfolding chain_of
plain-IsCrypto = record { derive_chain_id-eip155 = λ c v b. ap pos (omega arith) }

abbrev pub plain_sign : Hash → Option Bytes
plain_sign h = some (replicate 64 9 ++ (1 ∷ []))

signature_of : Option Bytes → Bytes
signature_of none = []
signature_of (some sig) = sig

pub plain_sign-IsSigner : IsSigner plain plain_sign (7 ∷ [])
unfolding signature_of
plain_sign-IsSigner = record {
  sig_length = λ h sig e. ap (λ o. length (signature_of o)) (sym e);
  sig_recovers = λ h sig e. (1, ap (λ o. get_elem? (signature_of o) 64) (sym e), omega arith, refl);
}

abbrev pub order : CrossTransaction
order =
    new_cross_transaction (pos 100) (pos 3) (1 ∷ 2 ∷ []) (4 ∷ []) 1 2 (5 ∷ []) (6 ∷ []) (8 ∷ []) []

abbrev pub reply : ReceptTransaction
reply = new_recept_transaction (5 ∷ []) (6 ∷ []) (1 ∷ []) (4 ∷ []) (2 ∷ []) 1 2 []

sign_ctx-sender_example :
    (tx' : CrossTransaction) × (sign_ctx plain order (new_ctx_signer (some (pos 11))) plain_sign
      ≡ ok tx')
    × (ctx_preimage plain tx'.ctx ≡ ctx_preimage plain order.ctx)
    × ((ctx_sender plain (new_ctx_signer (some (pos 11))) tx').1 ≡ ok (7 ∷ []))
sign_ctx-sender_example =
    sign_ctx-sender plain plain-IsCrypto 11 order plain_sign (7 ∷ []) (replicate 64 9 ++ (1 ∷ []))
      (omega arith) plain_sign-IsSigner refl

ctx_sender-moved_bytes_example :
    ((ctx_hash plain (fresh_ctx (record order.ctx { from = (1 ∷ []) ++ (2 ∷ []); to = 4 ∷ [] }))).1
      ≡ (ctx_hash plain
          (fresh_ctx (record order.ctx { from = 1 ∷ []; to = (2 ∷ []) ++ (4 ∷ []) }))).1)
    × ((ctx_sender plain
          (new_ctx_signer (some (pos 11)))
          (fresh_ctx (record order.ctx { from = (1 ∷ []) ++ (2 ∷ []); to = 4 ∷ [] }))).1
        ≡ (ctx_sender plain
            (new_ctx_signer (some (pos 11)))
            (fresh_ctx (record order.ctx { from = 1 ∷ []; to = (2 ∷ []) ++ (4 ∷ []) }))).1)
ctx_sender-moved_bytes_example =
    ctx_sender-moved_bytes plain (new_ctx_signer (some (pos 11))) order.ctx (1 ∷ []) (2 ∷ [])
      (4 ∷ [])

-- The status "unknown" cannot be read back.
unknown_run : unmarshal_status ctx_status_to_string (status_text 9) ≡ none
unfolding unmarshal_status status_text text_at
unknown_run = refl

construct_recept_data_run :
    construct_recept_data plain (λ name (r : Recept). some (r.origin ∷ r.purpose ∷ r.taker)) reply
    ≡ some (1 ∷ 2 ∷ 2 ∷ [])
unfolding construct_recept_data new_recept_transaction
construct_recept_data_run = refl
