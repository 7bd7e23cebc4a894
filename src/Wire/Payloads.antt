-- ===== src/Wire/Payloads.antt =====
-- Payloads read back from their JSON form (src/protocol/wire.ts).
use mostro_ts_client.Common.{◌≡◌, refl, Option, none, some, ok, String-discrete, string_eq}
use mathlib.Core.Option
use mathlib.Core.List.{map-id}
use mostro_ts_client.Common.Int.{ℤ}
use mostro_ts_client.Order.{SmallOrder}
use mostro_ts_client.CantDo.{CantDoReason, cant_do_reason_to_string}
use mostro_ts_client.Message.{SolverDisputeInfo, Payload}
use mostro_ts_client.Wire.{
  string, int, integer, nullable, get, require_number, require_string, require_boolean, unless_null,
  utf16_length,
}
use mostro_ts_client.Wire.Fits.{FitsText, FitsOrder, FitsDispute, FitsSignature, FitsPayload}
use mostro_ts_client.Wire.Orders.{order_read_back}
use mostro_ts_client.Wire.Parts.{
  small_order_from_json, solver_dispute_info_from_json, payment_request_from_json,
  dispute_tuple_from_json, next_trade_from_json, payment_failed_from_json,
  bond_resolution_from_json, bond_payout_request_from_json, string_array_from_json,
  small_order_array_from_json, cashu_proof_signature_array_from_json,
  cashu_proof_signature_from_json,
}
use mostro_ts_client.Wire.Read.{payload_of_variant, payload_from_json}
use mostro_ts_client.Wire.Records.{
  peer_read_back, dispute_info_read_back, restore_read_back, lock_proof_read_back,
  signature_read_back,
}
use mostro_ts_client.Wire.Single.{
  require_string-string, each-items, unless_null-nullable, some_of_ok,
}
use mostro_ts_client.Wire.Typed.{decoded_order, decoded_dispute_info, decoded_payload}
use mostro_ts_client.Wire.Write.{
  small_order_to_json, solver_dispute_info_to_json, payload_to_json, payment_failed_to_json,
  bond_resolution_to_json, bond_payout_request_to_json, cashu_proof_signature_to_json,
}

some_order :
    (o : SmallOrder)
    → FitsOrder o
    → unless_null small_order_from_json (small_order_to_json o) ≡ ok (some (decoded_order o))
unfolding small_order_to_json
some_order o h = some_of_ok _ _ (order_read_back o h)

some_dispute :
    (i : SolverDisputeInfo)
    → FitsDispute i
    → unless_null solver_dispute_info_from_json (solver_dispute_info_to_json i)
      ≡ ok (some (decoded_dispute_info i))
unfolding solver_dispute_info_to_json
some_dispute i h = some_of_ok _ _ (dispute_info_read_back i h)

maybe_int : (n : Option ℤ) → unless_null require_number (nullable int n) ≡ ok (Option.map integer n)
unfolding require_number
maybe_int none = refl
maybe_int (some n) = refl

maybe_reason :
    (r : Option CantDoReason)
    → unless_null require_string (nullable (λ r. string (cant_do_reason_to_string r)) r)
      ≡ ok (Option.map cant_do_reason_to_string r)
unfolding require_string cant_do_reason_to_string utf16_length
maybe_reason none = refl
maybe_reason (some CantDoReason.invalid_signature) = refl
maybe_reason (some _) = refl

pub payload_read_back :
    (p : Payload) → FitsPayload p → payload_from_json (payload_to_json p) ≡ ok (decoded_payload p)
unfolding payload_from_json payload_to_json payload_of_variant String-discrete
    payment_request_from_json dispute_tuple_from_json next_trade_from_json payment_failed_from_json
    string_array_from_json small_order_array_from_json bond_resolution_from_json
    bond_payout_request_from_json cashu_proof_signature_array_from_json payment_failed_to_json
    bond_resolution_to_json bond_payout_request_to_json require_number require_boolean get
payload_read_back (Payload.order o) h = rw (order_read_back o h)
payload_read_back (Payload.payment_request o invoice sats) (h, t) = rw (
  unless_null-nullable small_order_to_json small_order_from_json decoded_order FitsOrder some_order
      o h,
  require_string-string invoice t,
  maybe_int sats,
)
payload_read_back (Payload.text_message s) h = rw (require_string-string s h)
payload_read_back (Payload.peer p) h = rw (peer_read_back p h)
payload_read_back (Payload.rating_user n) h = refl
payload_read_back (Payload.amount n) h = refl
payload_read_back (Payload.dispute id info) (t, h) = rw (
  require_string-string id t,
  unless_null-nullable solver_dispute_info_to_json solver_dispute_info_from_json
      decoded_dispute_info FitsDispute some_dispute info h,
)
payload_read_back (Payload.cant_do reason) h = rw (maybe_reason reason)
payload_read_back (Payload.next_trade key index) h = rw (require_string-string key h)
payload_read_back (Payload.payment_failed i) h = refl
payload_read_back (Payload.restore_data info) h = rw (restore_read_back info h)
payload_read_back (Payload.ids texts) h =
    rw (
      each-items string require_string (λ s. s) FitsText require_string-string texts h,
      map-id texts,
    )
payload_read_back (Payload.orders os) h = rw (
    each-items small_order_to_json small_order_from_json decoded_order FitsOrder order_read_back os
      h)
payload_read_back (Payload.bond_resolution b) h = refl
payload_read_back (Payload.bond_payout_request r) h = rw (order_read_back r.order h)
payload_read_back (Payload.cashu_lock_proof p) h = rw (lock_proof_read_back p h)
payload_read_back (Payload.cashu_signatures ss) h = rw (
  each-items cashu_proof_signature_to_json cashu_proof_signature_from_json (λ s. s) FitsSignature
      signature_read_back ss h,
  map-id ss,
)
