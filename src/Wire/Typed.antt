-- ===== src/Wire/Typed.antt =====
-- The run-time value of a well-typed message, where null stands for a missing value, as a value that
-- the readers of src/protocol/wire.ts can return.
use mostro_ts_client.Common.{map}
use mathlib.Core.Option
use mostro_ts_client.Kind.{kind_to_string}
use mostro_ts_client.Status.{status_to_string}
use mostro_ts_client.Action.{action_to_string}
use mostro_ts_client.CantDo.{cant_do_reason_to_string}
use mostro_ts_client.Order.{SmallOrder}
use mostro_ts_client.Message.{
  UserInfo, SolverDisputeInfo, Peer, PaymentFailedInfo, RestoredDisputesInfo, RestoreSessionInfo,
  BondPayoutRequest, CashuLockProof, Payload, MessageKind, Message,
}
use mostro_ts_client.Wire.{string, integer, int, nullable}
use mostro_ts_client.Wire.Decoded.{
  DecodedOrder, DecodedUserInfo, DecodedPeer, DecodedDisputeInfo, DecodedPaymentFailed,
  DecodedRestoredDispute, DecodedRestore, DecodedPayoutRequest, DecodedLockProof, DecodedPayload,
  DecodedKind, DecodedMessage,
}
use mostro_ts_client.Wire.Write.{initiator_to_string}

abbrev pub decoded_order : SmallOrder → DecodedOrder
decoded_order o = record {
  id = nullable string o.id;
  kind = nullable (λ k. string (kind_to_string k)) o.kind;
  status = nullable (λ s. string (status_to_string s)) o.status;
  amount = integer o.amount;
  fiat_code = o.fiat_code;
  min_amount = nullable int o.min_amount;
  max_amount = nullable int o.max_amount;
  fiat_amount = integer o.fiat_amount;
  payment_method = o.payment_method;
  premium = integer o.premium;
  buyer_trade_pubkey = nullable string o.buyer_trade_pubkey;
  seller_trade_pubkey = nullable string o.seller_trade_pubkey;
  buyer_invoice = nullable string o.buyer_invoice;
  created_at = nullable int o.created_at;
  expires_at = nullable int o.expires_at;
}

abbrev pub decoded_user_info : UserInfo → DecodedUserInfo
decoded_user_info i = record {
  rating = integer i.rating;
  reviews = integer i.reviews;
  operating_days = integer i.operating_days;
}

abbrev pub decoded_peer : Peer → DecodedPeer
decoded_peer p = record {
  pubkey = p.pubkey;
  reputation = Option.map decoded_user_info p.reputation;
}

abbrev pub decoded_dispute_info : SolverDisputeInfo → DecodedDisputeInfo
decoded_dispute_info i = record {
  id = i.id;
  kind = i.kind;
  status = i.status;
  hash = nullable string i.hash;
  preimage = nullable string i.preimage;
  order_previous_status = i.order_previous_status;
  initiator_pubkey = i.initiator_pubkey;
  buyer_pubkey = nullable string i.buyer_pubkey;
  seller_pubkey = nullable string i.seller_pubkey;
  initiator_full_privacy = i.initiator_full_privacy;
  counterpart_full_privacy = i.counterpart_full_privacy;
  initiator_info = Option.map decoded_user_info i.initiator_info;
  counterpart_info = Option.map decoded_user_info i.counterpart_info;
  premium = integer i.premium;
  payment_method = i.payment_method;
  amount = integer i.amount;
  fiat_amount = integer i.fiat_amount;
  fee = integer i.fee;
  routing_fee = integer i.routing_fee;
  buyer_invoice = nullable string i.buyer_invoice;
  invoice_held_at = integer i.invoice_held_at;
  taken_at = integer i.taken_at;
  created_at = integer i.created_at;
}

abbrev pub decoded_payment_failed : PaymentFailedInfo → DecodedPaymentFailed
decoded_payment_failed i = record {
  payment_attempts = integer i.payment_attempts;
  payment_retries_interval = integer i.payment_retries_interval;
}

abbrev pub decoded_restored_dispute : RestoredDisputesInfo → DecodedRestoredDispute
decoded_restored_dispute d = record {
  dispute_id = d.dispute_id;
  order_id = d.order_id;
  trade_index = d.trade_index;
  status = d.status;
  initiator = nullable (λ i. string (initiator_to_string i)) d.initiator;
  solver_pubkey = d.solver_pubkey;
}

abbrev pub decoded_restore : RestoreSessionInfo → DecodedRestore
decoded_restore info = record {
  orders = info.orders;
  disputes = map decoded_restored_dispute info.disputes;
}

abbrev pub decoded_payout_request : BondPayoutRequest → DecodedPayoutRequest
decoded_payout_request r = record {
  order = decoded_order r.order;
  slashed_at = integer r.slashed_at;
}

abbrev pub decoded_lock_proof : CashuLockProof → DecodedLockProof
decoded_lock_proof p = record {
  token = p.token;
  mint_url = p.mint_url;
  buyer_pubkey = p.buyer_pubkey;
  seller_pubkey = p.seller_pubkey;
  mostro_pubkey = p.mostro_pubkey;
  fee_token = nullable string p.fee_token;
}

abbrev pub decoded_payload : Payload → DecodedPayload
decoded_payload (Payload.order o) = DecodedPayload.order (decoded_order o)
decoded_payload (Payload.payment_request o invoice sats) =
    DecodedPayload.payment_request (Option.map decoded_order o) invoice (Option.map integer sats)
decoded_payload (Payload.text_message s) = DecodedPayload.text_message s
decoded_payload (Payload.peer p) = DecodedPayload.peer (decoded_peer p)
decoded_payload (Payload.rating_user n) = DecodedPayload.rating_user (integer n)
decoded_payload (Payload.amount n) = DecodedPayload.amount (integer n)
decoded_payload (Payload.dispute id info) =
    DecodedPayload.dispute id (Option.map decoded_dispute_info info)
decoded_payload (Payload.cant_do reason) =
    DecodedPayload.cant_do (Option.map cant_do_reason_to_string reason)
decoded_payload (Payload.next_trade key index) = DecodedPayload.next_trade key (integer index)
decoded_payload (Payload.payment_failed i) =
    DecodedPayload.payment_failed (decoded_payment_failed i)
decoded_payload (Payload.restore_data info) = DecodedPayload.restore_data (decoded_restore info)
decoded_payload (Payload.ids texts) = DecodedPayload.ids texts
decoded_payload (Payload.orders os) = DecodedPayload.orders (map decoded_order os)
decoded_payload (Payload.bond_resolution b) = DecodedPayload.bond_resolution b
decoded_payload (Payload.bond_payout_request r) =
    DecodedPayload.bond_payout_request (decoded_payout_request r)
decoded_payload (Payload.cashu_lock_proof p) =
    DecodedPayload.cashu_lock_proof (decoded_lock_proof p)
decoded_payload (Payload.cashu_signatures ss) = DecodedPayload.cashu_signatures ss

abbrev pub decoded_kind : MessageKind → DecodedKind
decoded_kind k = record {
  version = integer k.version;
  request_id = k.request_id;
  trade_index = k.trade_index;
  id = k.id;
  action = action_to_string k.action;
  payload = Option.map decoded_payload k.payload;
}

abbrev pub decoded_message : Message → DecodedMessage
decoded_message m = record { variant = m.variant; value = decoded_kind m.value }
