-- ===== src/Wire/Parts.antt =====
-- The readers of the records in a message (src/protocol/wire.ts). The fields are read in the order
-- of the source, and the first that fails decides what is thrown.
use mostro_ts_client.Common.{String, List, string_eq, ltb, Result, ok, err, throw_if, ◌>>=◌, ◌>>◌}
use mostro_ts_client.Fault.{Fault, type_error, too_many_items, wrong_array_length}
use mostro_ts_client.Message.{RestoredOrdersInfo, BondResolution, CashuProofSignature}
use mostro_ts_client.Wire.{
  Value, undefined, null, array, Items, nil, cons, get, fields_of, require_object, require_array,
  max_restore_items, require_string, require_number, require_integer, require_boolean, or_null,
  unless_null, optional_string, cast, each, count,
}
use mostro_ts_client.Wire.Decoded.{
  DecodedOrder, DecodedUserInfo, DecodedPeer, DecodedDisputeInfo, DecodedPaymentFailed,
  DecodedRestoredDispute, DecodedRestore, DecodedPayoutRequest, DecodedLockProof, DecodedPayload,
}

unfoldable pub small_order_from_json : Value → Result Fault DecodedOrder
small_order_from_json v = do
  o ← require_object v
  amount ← require_number (get "amount" o)
  fiat_code ← require_string (get "fiat_code" o)
  fiat_amount ← require_number (get "fiat_amount" o)
  payment_method ← require_string (get "payment_method" o)
  premium ← require_number (get "premium" o)
  ok (record {
    id = cast (get "id" o);
    kind = cast (get "kind" o);
    status = cast (get "status" o);
    amount = amount;
    fiat_code = fiat_code;
    min_amount = cast (get "min_amount" o);
    max_amount = cast (get "max_amount" o);
    fiat_amount = fiat_amount;
    payment_method = payment_method;
    premium = premium;
    buyer_trade_pubkey = cast (get "buyer_trade_pubkey" o);
    seller_trade_pubkey = cast (get "seller_trade_pubkey" o);
    buyer_invoice = cast (get "buyer_invoice" o);
    created_at = cast (get "created_at" o);
    expires_at = cast (get "expires_at" o);
  })

unfoldable pub payment_request_from_json : Value → Result Fault DecodedPayload
payment_request_from_json (array (cons o (cons invoice (cons amount nil)))) = do
  order ← unless_null small_order_from_json o
  text ← require_string invoice
  number ← unless_null require_number amount
  ok (DecodedPayload.payment_request order text number)
payment_request_from_json _ = err wrong_array_length

unfoldable pub user_info_from_json : Value → Result Fault DecodedUserInfo
user_info_from_json v = do
  o ← fields_of v
  rating ← require_number (get "rating" o)
  reviews ← require_number (get "reviews" o)
  operating_days ← require_number (get "operating_days" o)
  ok (record { rating = rating; reviews = reviews; operating_days = operating_days })

unfoldable pub peer_from_json : Value → Result Fault DecodedPeer
peer_from_json v = do
  p ← require_object v
  pubkey ← require_string (get "pubkey" p)
  reputation ← or_null user_info_from_json (get "reputation" p)
  ok (record { pubkey = pubkey; reputation = reputation })

unfoldable pub solver_dispute_info_from_json : Value → Result Fault DecodedDisputeInfo
solver_dispute_info_from_json v = do
  o ← fields_of v
  id ← require_string (get "id" o)
  kind ← require_string (get "kind" o)
  status ← require_string (get "status" o)
  order_previous_status ← require_string (get "order_previous_status" o)
  initiator_pubkey ← require_string (get "initiator_pubkey" o)
  initiator_full_privacy ← require_boolean (get "initiator_full_privacy" o)
  counterpart_full_privacy ← require_boolean (get "counterpart_full_privacy" o)
  initiator_info ← unless_null user_info_from_json (get "initiator_info" o)
  counterpart_info ← unless_null user_info_from_json (get "counterpart_info" o)
  premium ← require_number (get "premium" o)
  payment_method ← require_string (get "payment_method" o)
  amount ← require_number (get "amount" o)
  fiat_amount ← require_number (get "fiat_amount" o)
  fee ← require_number (get "fee" o)
  routing_fee ← require_number (get "routing_fee" o)
  invoice_held_at ← require_number (get "invoice_held_at" o)
  taken_at ← require_number (get "taken_at" o)
  created_at ← require_number (get "created_at" o)
  ok (record {
    id = id;
    kind = kind;
    status = status;
    hash = cast (get "hash" o);
    preimage = cast (get "preimage" o);
    order_previous_status = order_previous_status;
    initiator_pubkey = initiator_pubkey;
    buyer_pubkey = cast (get "buyer_pubkey" o);
    seller_pubkey = cast (get "seller_pubkey" o);
    initiator_full_privacy = initiator_full_privacy;
    counterpart_full_privacy = counterpart_full_privacy;
    initiator_info = initiator_info;
    counterpart_info = counterpart_info;
    premium = premium;
    payment_method = payment_method;
    amount = amount;
    fiat_amount = fiat_amount;
    fee = fee;
    routing_fee = routing_fee;
    buyer_invoice = cast (get "buyer_invoice" o);
    invoice_held_at = invoice_held_at;
    taken_at = taken_at;
    created_at = created_at;
  })

unfoldable pub dispute_tuple_from_json : Value → Result Fault DecodedPayload
dispute_tuple_from_json (array (cons id (cons info nil))) = do
  dispute_id ← require_string id
  dispute_info ← unless_null solver_dispute_info_from_json info
  ok (DecodedPayload.dispute dispute_id dispute_info)
dispute_tuple_from_json _ = err wrong_array_length

unfoldable pub next_trade_from_json : Value → Result Fault DecodedPayload
next_trade_from_json (array (cons key (cons index nil))) = do
  pubkey ← require_string key
  number ← require_number index
  ok (DecodedPayload.next_trade pubkey number)
next_trade_from_json _ = err wrong_array_length

unfoldable pub payment_failed_from_json : Value → Result Fault DecodedPaymentFailed
payment_failed_from_json v = do
  o ← fields_of v
  attempts ← require_number (get "payment_attempts" o)
  interval ← require_number (get "payment_retries_interval" o)
  ok (record { payment_attempts = attempts; payment_retries_interval = interval })

unfoldable pub restored_order_from_json : Value → Result Fault RestoredOrdersInfo
restored_order_from_json v = do
  r ← fields_of v
  order_id ← require_string (get "order_id" r)
  trade_index ← require_integer (get "trade_index" r)
  status ← require_string (get "status" r)
  ok (record { order_id = order_id; trade_index = trade_index; status = status })

unfoldable pub restored_dispute_from_json : Value → Result Fault DecodedRestoredDispute
restored_dispute_from_json v = do
  r ← fields_of v
  dispute_id ← require_string (get "dispute_id" r)
  order_id ← require_string (get "order_id" r)
  trade_index ← require_integer (get "trade_index" r)
  status ← require_string (get "status" r)
  solver_pubkey ← optional_string (get "solver_pubkey" r)
  ok (record {
    dispute_id = dispute_id;
    order_id = order_id;
    trade_index = trade_index;
    status = status;
    initiator = cast (get "initiator" r);
    solver_pubkey = solver_pubkey;
  })

-- `(v as unknown[] | null) ?? []`, of which `length` and `map` are read: another value has no `map`
-- and throws in the end
abbrev pub array_or_empty : Value → Result Fault Items
array_or_empty undefined = ok nil
array_or_empty null = ok nil
array_or_empty (array xs) = ok xs
array_or_empty _ = err type_error

unfoldable pub restore_session_info_from_json : Value → Result Fault DecodedRestore
restore_session_info_from_json v = do
  o ← fields_of v
  orders ← array_or_empty (get "orders" o)
  disputes ← array_or_empty (get "disputes" o)
  throw_if (ltb max_restore_items (count orders)) too_many_items
  throw_if (ltb max_restore_items (count disputes)) too_many_items
  restored ← each restored_order_from_json orders
  disputed ← each restored_dispute_from_json disputes
  ok (record { orders = restored; disputes = disputed })

unfoldable pub string_array_from_json : Value → Result Fault (List String)
string_array_from_json v = do xs ← require_array v; each require_string xs

unfoldable pub small_order_array_from_json : Value → Result Fault (List DecodedOrder)
small_order_array_from_json v = do xs ← require_array v; each small_order_from_json xs

unfoldable pub bond_resolution_from_json : Value → Result Fault BondResolution
bond_resolution_from_json v = do
  o ← fields_of v
  slash_seller ← require_boolean (get "slash_seller" o)
  slash_buyer ← require_boolean (get "slash_buyer" o)
  ok (record { slash_seller = slash_seller; slash_buyer = slash_buyer })

unfoldable pub bond_payout_request_from_json : Value → Result Fault DecodedPayoutRequest
bond_payout_request_from_json v = do
  o ← fields_of v
  order ← small_order_from_json (get "order" o)
  slashed_at ← require_number (get "slashed_at" o)
  ok (record { order = order; slashed_at = slashed_at })

unfoldable pub cashu_lock_proof_from_json : Value → Result Fault DecodedLockProof
cashu_lock_proof_from_json v = do
  o ← fields_of v
  token ← require_string (get "token" o)
  mint_url ← require_string (get "mint_url" o)
  buyer_pubkey ← require_string (get "buyer_pubkey" o)
  seller_pubkey ← require_string (get "seller_pubkey" o)
  mostro_pubkey ← require_string (get "mostro_pubkey" o)
  ok (record {
    token = token;
    mint_url = mint_url;
    buyer_pubkey = buyer_pubkey;
    seller_pubkey = seller_pubkey;
    mostro_pubkey = mostro_pubkey;
    fee_token = cast (get "fee_token" o);
  })

unfoldable pub cashu_proof_signature_from_json : Value → Result Fault CashuProofSignature
cashu_proof_signature_from_json v = do
  o ← fields_of v
  secret ← require_string (get "secret" o)
  signature ← require_string (get "signature" o)
  ok (record { secret = secret; signature = signature })

unfoldable pub cashu_proof_signature_array_from_json :
    Value → Result Fault (List CashuProofSignature)
cashu_proof_signature_array_from_json v = do
  xs ← require_array v
  each cashu_proof_signature_from_json xs
