-- ===== src/Wire/Read.antt =====
-- The readers of payloads and messages (src/protocol/wire.ts).
use mostro_ts_client.Common.{String, if◌then◌else◌, ◌==◌, string_eq, Result, ok, err, ◌>>=◌}
use mostro_ts_client.Fault.{Fault, not_a_string, unknown_variant}
use mostro_ts_client.Message.{Variant}
use mostro_ts_client.Wire.{
  Value, string, get, require_object, single_field, require_string, require_number, or_null,
  unless_null, optional_string, optional_integer,
}
use mostro_ts_client.Wire.Parts.{
  small_order_from_json, payment_request_from_json, peer_from_json, dispute_tuple_from_json,
  next_trade_from_json, payment_failed_from_json, restore_session_info_from_json,
  string_array_from_json, small_order_array_from_json, bond_resolution_from_json,
  bond_payout_request_from_json, cashu_lock_proof_from_json, cashu_proof_signature_array_from_json,
}
use mostro_ts_client.Wire.Decoded.{DecodedPayload, DecodedKind, DecodedMessage}

-- the reader of a payload and the constructor around its value
abbrev pub wrap : {A : Type 0} → (A → DecodedPayload) → Result Fault A → Result Fault DecodedPayload
wrap make m = m >>= λ a. ok (make a)

-- the `switch` over the variant of a payload
unfoldable pub payload_of_variant : String → Value → Result Fault DecodedPayload
payload_of_variant variant v =
    if variant == "order"
    then wrap DecodedPayload.order (small_order_from_json v)
    else if variant == "payment_request"
    then payment_request_from_json v
    else if variant == "text_message"
    then wrap DecodedPayload.text_message (require_string v)
    else if variant == "peer"
    then wrap DecodedPayload.peer (peer_from_json v)
    else if variant == "rating_user"
    then wrap DecodedPayload.rating_user (require_number v)
    else if variant == "amount"
    then wrap DecodedPayload.amount (require_number v)
    else if variant == "dispute"
    then dispute_tuple_from_json v
    else if variant == "cant_do"
    then wrap DecodedPayload.cant_do (unless_null require_string v)
    else if variant == "next_trade"
    then next_trade_from_json v
    else if variant == "payment_failed"
    then wrap DecodedPayload.payment_failed (payment_failed_from_json v)
    else if variant == "restore_data"
    then wrap DecodedPayload.restore_data (restore_session_info_from_json v)
    else if variant == "ids"
    then wrap DecodedPayload.ids (string_array_from_json v)
    else if variant == "orders"
    then wrap DecodedPayload.orders (small_order_array_from_json v)
    else if variant == "bond_resolution"
    then wrap DecodedPayload.bond_resolution (bond_resolution_from_json v)
    else if variant == "bond_payout_request"
    then wrap DecodedPayload.bond_payout_request (bond_payout_request_from_json v)
    else if variant == "cashu_lock_proof"
    then wrap DecodedPayload.cashu_lock_proof (cashu_lock_proof_from_json v)
    else if variant == "cashu_signatures"
    then wrap DecodedPayload.cashu_signatures (cashu_proof_signature_array_from_json v)
    else err (unknown_variant variant)

unfoldable pub payload_from_json : Value → Result Fault DecodedPayload
payload_from_json v = do
  o ← require_object v
  (variant, value) ← single_field o
  payload_of_variant variant value

-- `typeof action !== "string"`, with no bound on the length
abbrev pub typeof_string : Value → Result Fault String
typeof_string (string s) = ok s
typeof_string _ = err not_a_string

unfoldable pub message_kind_from_json : Value → Result Fault DecodedKind
message_kind_from_json v = do
  o ← require_object v
  version ← require_number (get "version" o)
  action ← typeof_string (get "action" o)
  request_id ← optional_integer (get "request_id" o)
  trade_index ← optional_integer (get "trade_index" o)
  id ← optional_string (get "id" o)
  payload ← or_null payload_from_json (get "payload" o)
  ok (record {
    version = version;
    request_id = request_id;
    trade_index = trade_index;
    id = id;
    action = action;
    payload = payload;
  })

-- the `switch` over the variant of a message, after its value was read
abbrev pub message_of_variant : String → DecodedKind → Result Fault DecodedMessage
message_of_variant variant kind =
    if variant == "order"
    then ok (record { variant = Variant.order; value = kind })
    else if variant == "dispute"
    then ok (record { variant = Variant.dispute; value = kind })
    else if variant == "cant-do"
    then ok (record { variant = Variant.cant_do; value = kind })
    else if variant == "rate"
    then ok (record { variant = Variant.rate; value = kind })
    else if variant == "dm"
    then ok (record { variant = Variant.dm; value = kind })
    else if variant == "restore"
    then ok (record { variant = Variant.restore; value = kind })
    else err (unknown_variant variant)

unfoldable pub message_from_json : Value → Result Fault DecodedMessage
message_from_json v = do
  o ← require_object v
  (variant, value) ← single_field o
  kind ← message_kind_from_json value
  message_of_variant variant kind
