-- ===== src/Wire/Records.antt =====
-- The records of a payload read back from their JSON form (src/protocol/wire.ts).
use mostro_ts_client.Common.{
  false, ◌≡◌, refl, Option, none, some, ok, String-discrete, string_eq, ltb, ◌≤◌, arith,
}
use mathlib.Core.Option
use mathlib.Core.List.{map-id}
use mostro_ts_client.Common.Lists.{length}
use mostro_ts_client.Message.{
  UserInfo, SolverDisputeInfo, Peer, RestoredOrdersInfo, RestoredDisputesInfo, RestoreSessionInfo,
  CashuLockProof, CashuProofSignature,
}
use mostro_ts_client.Wire.{
  nullable, get, require_boolean, require_number, unless_null, or_null, end,
}
use mostro_ts_client.Wire.Fits.{
  FitsText, FitsDispute, FitsRestoredOrder, FitsRestoredDispute, FitsRestore, FitsProof,
  FitsSignature,
}
use mostro_ts_client.Wire.Parts.{
  user_info_from_json, peer_from_json, solver_dispute_info_from_json, restored_order_from_json,
  restored_dispute_from_json, restore_session_info_from_json, cashu_lock_proof_from_json,
  cashu_proof_signature_from_json,
}
use mostro_ts_client.Wire.Single.{
  require_string-string, require_number-int, require_integer-int, optional_string-nullable,
  cast-nullable_string, cast-nullable_text, cast-get-optional, each-items, count-items,
}
use mostro_ts_client.Wire.Typed.{
  decoded_user_info, decoded_peer, decoded_dispute_info, decoded_restored_dispute, decoded_restore,
  decoded_lock_proof,
}
use mostro_ts_client.Wire.Write.{
  initiator_to_string, user_info_to_json, peer_to_json, solver_dispute_info_to_json,
  restored_order_to_json, restored_dispute_to_json, restore_session_info_to_json,
  cashu_lock_proof_to_json, cashu_proof_signature_to_json, with_reputation,
}

pub user_info_read_back :
    (i : UserInfo) → user_info_from_json (user_info_to_json i) ≡ ok (decoded_user_info i)
unfolding user_info_from_json user_info_to_json get String-discrete require_number
user_info_read_back i = refl

maybe_user :
    (o : Option UserInfo)
    → unless_null user_info_from_json (nullable user_info_to_json o)
      ≡ ok (Option.map decoded_user_info o)
unfolding user_info_from_json user_info_to_json get String-discrete require_number
maybe_user none = refl
maybe_user (some i) = refl

maybe_reputation :
    (r : Option UserInfo)
    → or_null user_info_from_json (get "reputation" (with_reputation r end))
      ≡ ok (Option.map decoded_user_info r)
unfolding user_info_from_json user_info_to_json get String-discrete require_number
maybe_reputation none = refl
maybe_reputation (some i) = refl

pub peer_read_back :
    (p : Peer) → FitsText p.pubkey → peer_from_json (peer_to_json p) ≡ ok (decoded_peer p)
unfolding peer_from_json peer_to_json get String-discrete
peer_read_back p h = rw (require_string-string p.pubkey h, maybe_reputation p.reputation)

pub dispute_info_read_back :
    (i : SolverDisputeInfo)
    → FitsDispute i
    → solver_dispute_info_from_json (solver_dispute_info_to_json i) ≡ ok (decoded_dispute_info i)
unfolding solver_dispute_info_from_json solver_dispute_info_to_json get String-discrete
    require_boolean
dispute_info_read_back i h = rw (
  require_string-string i.id h.id,
  require_string-string i.kind h.kind,
  require_string-string i.status h.status,
  require_string-string i.order_previous_status h.previous,
  require_string-string i.initiator_pubkey h.initiator,
  require_string-string i.payment_method h.method,
  maybe_user i.initiator_info,
  maybe_user i.counterpart_info,
  require_number-int i.premium,
  require_number-int i.amount,
  require_number-int i.fiat_amount,
  require_number-int i.fee,
  require_number-int i.routing_fee,
  require_number-int i.invoice_held_at,
  require_number-int i.taken_at,
  require_number-int i.created_at,
  cast-nullable_string i.hash,
  cast-nullable_string i.preimage,
  cast-nullable_string i.buyer_pubkey,
  cast-nullable_string i.seller_pubkey,
  cast-nullable_string i.buyer_invoice,
)

pub restored_order_read_back :
    (o : RestoredOrdersInfo)
    → FitsRestoredOrder o
    → restored_order_from_json (restored_order_to_json o) ≡ ok o
unfolding restored_order_from_json restored_order_to_json get String-discrete
restored_order_read_back o (id, index, status) = rw (
  require_string-string o.order_id id,
  require_integer-int o.trade_index index,
  require_string-string o.status status,
)

pub restored_dispute_read_back :
    (d : RestoredDisputesInfo)
    → FitsRestoredDispute d
    → restored_dispute_from_json (restored_dispute_to_json d) ≡ ok (decoded_restored_dispute d)
unfolding restored_dispute_from_json restored_dispute_to_json get String-discrete
restored_dispute_read_back d h = rw (
  require_string-string d.dispute_id h.dispute,
  require_string-string d.order_id h.order,
  require_integer-int d.trade_index h.index,
  require_string-string d.status h.status,
  optional_string-nullable d.solver_pubkey h.solver,
  cast-nullable_text initiator_to_string d.initiator,
)

within : (n m : _) → n ≤ m → ltb m n ≡ false
within n m h = ground arith

pub restore_read_back :
    (info : RestoreSessionInfo)
    → FitsRestore info
    → restore_session_info_from_json (restore_session_info_to_json info) ≡ ok (decoded_restore info)
unfolding restore_session_info_from_json restore_session_info_to_json get String-discrete
restore_read_back info h = rw (
  count-items restored_order_to_json info.orders,
  count-items restored_dispute_to_json info.disputes,
  within (length info.orders) 10000 h.few_orders,
  within (length info.disputes) 10000 h.few_disputes,
  each-items restored_order_to_json restored_order_from_json (λ o. o) FitsRestoredOrder
      restored_order_read_back info.orders h.orders,
  each-items restored_dispute_to_json restored_dispute_from_json decoded_restored_dispute
      FitsRestoredDispute restored_dispute_read_back info.disputes h.disputes,
  map-id info.orders,
)

pub lock_proof_read_back :
    (p : CashuLockProof)
    → FitsProof p
    → cashu_lock_proof_from_json (cashu_lock_proof_to_json p) ≡ ok (decoded_lock_proof p)
unfolding cashu_lock_proof_from_json cashu_lock_proof_to_json get String-discrete
lock_proof_read_back p h = rw (
  require_string-string p.token h.token,
  require_string-string p.mint_url h.mint,
  require_string-string p.buyer_pubkey h.buyer,
  require_string-string p.seller_pubkey h.seller,
  require_string-string p.mostro_pubkey h.mostro,
  cast-get-optional "fee_token" p.fee_token end refl,
)

pub signature_read_back :
    (s : CashuProofSignature)
    → FitsSignature s
    → cashu_proof_signature_from_json (cashu_proof_signature_to_json s) ≡ ok s
unfolding cashu_proof_signature_from_json cashu_proof_signature_to_json get String-discrete
signature_read_back s (secret, signature) =
    rw (require_string-string s.secret secret, require_string-string s.signature signature)
