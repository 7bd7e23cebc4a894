-- ===== src/Wire/Write.antt =====
-- The writers of src/protocol/wire.ts. A field that is null is left out or written as null, as the
-- source does for each.
use mostro_ts_client.Common.{String, Option, none, some}
use mostro_ts_client.Kind.{kind_to_string}
use mostro_ts_client.Status.{status_to_string}
use mostro_ts_client.Action.{action_to_string}
use mostro_ts_client.CantDo.{cant_do_reason_to_string}
use mostro_ts_client.Order.{SmallOrder}
use mostro_ts_client.Message.{
  UserInfo, SolverDisputeInfo, Peer, PaymentFailedInfo, RestoredOrdersInfo, DisputeInitiator,
  RestoredDisputesInfo, RestoreSessionInfo, BondResolution, BondPayoutRequest, CashuLockProof,
  CashuProofSignature, Payload, MessageKind, Variant, Message,
}
use mostro_ts_client.Wire.{
  Value, boolean, string, array, object, nil, cons, Fields, end, field, int, nullable, optional,
  items, ◌&◌,
}

unfoldable pub order_fields : SmallOrder → Fields
order_fields o =
    optional "id" o.id
    & field "kind" (nullable (λ k. string (kind_to_string k)) o.kind)
    & field "status" (nullable (λ s. string (status_to_string s)) o.status)
    & field "amount" (int o.amount)
    & field "fiat_code" (string o.fiat_code)
    & field "min_amount" (nullable int o.min_amount)
    & field "max_amount" (nullable int o.max_amount)
    & field "fiat_amount" (int o.fiat_amount)
    & field "payment_method" (string o.payment_method)
    & field "premium" (int o.premium)
    & optional "buyer_trade_pubkey" o.buyer_trade_pubkey
    & optional "seller_trade_pubkey" o.seller_trade_pubkey
    & optional "buyer_invoice" o.buyer_invoice
    & field "created_at" (nullable int o.created_at)
    & field "expires_at" (nullable int o.expires_at)
    & end

unfoldable pub small_order_to_json : SmallOrder → Value
small_order_to_json o = object (order_fields o)

unfoldable pub user_info_to_json : UserInfo → Value
user_info_to_json i = object (
    field "rating" (int i.rating)
    & field "reviews" (int i.reviews)
    & field "operating_days" (int i.operating_days)
    & end)

abbrev pub with_reputation : Option UserInfo → Fields → Fields
with_reputation none fs = fs
with_reputation (some i) fs = field "reputation" (user_info_to_json i) fs

unfoldable pub peer_to_json : Peer → Value
peer_to_json p = object (field "pubkey" (string p.pubkey) & with_reputation p.reputation & end)

unfoldable pub solver_dispute_info_to_json : SolverDisputeInfo → Value
solver_dispute_info_to_json i = object (
    field "id" (string i.id)
    & field "kind" (string i.kind)
    & field "status" (string i.status)
    & field "hash" (nullable string i.hash)
    & field "preimage" (nullable string i.preimage)
    & field "order_previous_status" (string i.order_previous_status)
    & field "initiator_pubkey" (string i.initiator_pubkey)
    & field "buyer_pubkey" (nullable string i.buyer_pubkey)
    & field "seller_pubkey" (nullable string i.seller_pubkey)
    & field "initiator_full_privacy" (boolean i.initiator_full_privacy)
    & field "counterpart_full_privacy" (boolean i.counterpart_full_privacy)
    & field "initiator_info" (nullable user_info_to_json i.initiator_info)
    & field "counterpart_info" (nullable user_info_to_json i.counterpart_info)
    & field "premium" (int i.premium)
    & field "payment_method" (string i.payment_method)
    & field "amount" (int i.amount)
    & field "fiat_amount" (int i.fiat_amount)
    & field "fee" (int i.fee)
    & field "routing_fee" (int i.routing_fee)
    & field "buyer_invoice" (nullable string i.buyer_invoice)
    & field "invoice_held_at" (int i.invoice_held_at)
    & field "taken_at" (int i.taken_at)
    & field "created_at" (int i.created_at)
    & end)

-- the value on the wire
unfoldable pub initiator_to_string : DisputeInitiator → String
initiator_to_string DisputeInitiator.buyer = "buyer"
initiator_to_string DisputeInitiator.seller = "seller"

-- `{ ...o }` of a restored order and of a restored dispute
unfoldable pub restored_order_to_json : RestoredOrdersInfo → Value
restored_order_to_json o = object (
    field "order_id" (string o.order_id)
    & field "trade_index" (int o.trade_index)
    & field "status" (string o.status)
    & end)

unfoldable pub restored_dispute_to_json : RestoredDisputesInfo → Value
restored_dispute_to_json d = object (
    field "dispute_id" (string d.dispute_id)
    & field "order_id" (string d.order_id)
    & field "trade_index" (int d.trade_index)
    & field "status" (string d.status)
    & field "initiator" (nullable (λ i. string (initiator_to_string i)) d.initiator)
    & field "solver_pubkey" (nullable string d.solver_pubkey)
    & end)

unfoldable pub restore_session_info_to_json : RestoreSessionInfo → Value
restore_session_info_to_json info = object (
    field "orders" (array (items restored_order_to_json info.orders))
    & field "disputes" (array (items restored_dispute_to_json info.disputes))
    & end)

unfoldable pub bond_payout_request_to_json : BondPayoutRequest → Value
bond_payout_request_to_json r =
    object
      (field "order" (small_order_to_json r.order) & field "slashed_at" (int r.slashed_at) & end)

unfoldable pub cashu_lock_proof_to_json : CashuLockProof → Value
cashu_lock_proof_to_json p = object (
    field "token" (string p.token)
    & field "mint_url" (string p.mint_url)
    & field "buyer_pubkey" (string p.buyer_pubkey)
    & field "seller_pubkey" (string p.seller_pubkey)
    & field "mostro_pubkey" (string p.mostro_pubkey)
    & optional "fee_token" p.fee_token
    & end)

unfoldable pub cashu_proof_signature_to_json : CashuProofSignature → Value
cashu_proof_signature_to_json s =
    object (field "secret" (string s.secret) & field "signature" (string s.signature) & end)

-- `{ ...value }` of a failed payment and of a bond resolution
unfoldable pub payment_failed_to_json : PaymentFailedInfo → Value
payment_failed_to_json i = object (
    field "payment_attempts" (int i.payment_attempts)
    & field "payment_retries_interval" (int i.payment_retries_interval)
    & end)

unfoldable pub bond_resolution_to_json : BondResolution → Value
bond_resolution_to_json b = object (
    field "slash_seller" (boolean b.slash_seller)
    & field "slash_buyer" (boolean b.slash_buyer)
    & end)

-- an object with one field
abbrev pub tagged : String → Value → Value
tagged k v = object (field k v end)

unfoldable pub payload_to_json : Payload → Value
payload_to_json (Payload.order o) = tagged "order" (small_order_to_json o)
payload_to_json (Payload.payment_request o invoice sats) = tagged "payment_request" (
    array (
      cons (nullable small_order_to_json o) (cons (string invoice) (cons (nullable int sats) nil))))
payload_to_json (Payload.text_message s) = tagged "text_message" (string s)
payload_to_json (Payload.peer p) = tagged "peer" (peer_to_json p)
payload_to_json (Payload.rating_user n) = tagged "rating_user" (int n)
payload_to_json (Payload.amount n) = tagged "amount" (int n)
payload_to_json (Payload.dispute id info) =
    tagged "dispute"
      (array (cons (string id) (cons (nullable solver_dispute_info_to_json info) nil)))
payload_to_json (Payload.cant_do reason) =
    tagged "cant_do" (nullable (λ r. string (cant_do_reason_to_string r)) reason)
payload_to_json (Payload.next_trade key index) =
    tagged "next_trade" (array (cons (string key) (cons (int index) nil)))
payload_to_json (Payload.payment_failed i) = tagged "payment_failed" (payment_failed_to_json i)
payload_to_json (Payload.restore_data info) =
    tagged "restore_data" (restore_session_info_to_json info)
payload_to_json (Payload.ids texts) = tagged "ids" (array (items string texts))
payload_to_json (Payload.orders os) = tagged "orders" (array (items small_order_to_json os))
payload_to_json (Payload.bond_resolution b) = tagged "bond_resolution" (bond_resolution_to_json b)
payload_to_json (Payload.bond_payout_request r) =
    tagged "bond_payout_request" (bond_payout_request_to_json r)
payload_to_json (Payload.cashu_lock_proof p) =
    tagged "cashu_lock_proof" (cashu_lock_proof_to_json p)
payload_to_json (Payload.cashu_signatures ss) =
    tagged "cashu_signatures" (array (items cashu_proof_signature_to_json ss))

unfoldable pub kind_fields : MessageKind → Fields
kind_fields k =
    field "version" (int k.version)
    & field "request_id" (nullable int k.request_id)
    & field "trade_index" (nullable int k.trade_index)
    & optional "id" k.id
    & field "action" (string (action_to_string k.action))
    & field "payload" (nullable payload_to_json k.payload)
    & end

unfoldable pub message_kind_to_json : MessageKind → Value
message_kind_to_json k = object (kind_fields k)

-- the key of a variant
unfoldable pub variant_to_string : Variant → String
variant_to_string Variant.order = "order"
variant_to_string Variant.dispute = "dispute"
variant_to_string Variant.cant_do = "cant-do"
variant_to_string Variant.rate = "rate"
variant_to_string Variant.dm = "dm"
variant_to_string Variant.restore = "restore"

unfoldable pub message_to_json : Message → Value
message_to_json m = tagged (variant_to_string m.variant) (message_kind_to_json m.value)
