-- ===== src/Wire/Bounds.antt =====
-- What every message that the readers of src/protocol/wire.ts return satisfies.
use mostro_ts_client.Common.{
  String, Bool, ◌≡◌, Result, ok, ◌>>=◌, if◌then◌else◌, ◌==◌, string_eq, arith, ap,
}
use mostro_ts_client.Common.Lists.{All}
use mostro_ts_client.Fault.{Fault, unknown_variant}
use mostro_ts_client.Wire.{
  Value, undefined, array, object, nil, cons, end, field, get, require_object, require_array,
  single_field, require_string, require_number, require_integer, unless_null, optional_string,
  optional_integer,
}
use mostro_ts_client.Wire.Decoded.{DecodedPayload, DecodedKind, DecodedMessage}
use mostro_ts_client.Wire.Fits.{FitsText, FitsIndex, Maybe}
use mostro_ts_client.Wire.Parts.{
  restore_session_info_from_json, string_array_from_json, next_trade_from_json,
  payment_request_from_json, dispute_tuple_from_json, solver_dispute_info_from_json,
  small_order_from_json, peer_from_json, payment_failed_from_json, small_order_array_from_json,
  bond_resolution_from_json, bond_payout_request_from_json, cashu_lock_proof_from_json,
  cashu_proof_signature_array_from_json,
}
use mostro_ts_client.Wire.Read.{
  payload_of_variant, payload_from_json, message_kind_from_json, message_of_variant,
  message_from_json, wrap, typeof_string,
}
use mostro_ts_client.Wire.Restores.{Bounded, restore-Returns}
use mostro_ts_client.Wire.Returns.{
  Returns, any, bind-Returns, ok-Returns, err-Returns, if-Returns, string-Returns, integer-Returns,
  or_null-Returns, each-Returns,
}
use mostro_ts_client.Wire.Write.{variant_to_string}

-- the texts of a payload that are checked, and the bounds of a restore
abbrev pub CheckedPayload : DecodedPayload → Type 0
CheckedPayload (DecodedPayload.text_message s) = FitsText s
CheckedPayload (DecodedPayload.payment_request o invoice sats) = FitsText invoice
CheckedPayload (DecodedPayload.next_trade key index) = FitsText key
CheckedPayload (DecodedPayload.ids texts) = All FitsText texts
CheckedPayload (DecodedPayload.restore_data r) = Bounded r
CheckedPayload _ = Unit

request-Returns : (v : Value) → Returns CheckedPayload (payment_request_from_json v)
unfolding payment_request_from_json
request-Returns (array (cons o (cons invoice (cons sats nil)))) a e =
    bind-Returns _ CheckedPayload _ _ (any (unless_null small_order_from_json o))
      (λ order _. bind-Returns _ CheckedPayload _ _ (string-Returns invoice) (λ text p.
        bind-Returns _ CheckedPayload _ _ (any (unless_null require_number sats))
          (λ n _. ok-Returns CheckedPayload _ p)))
      a e
request-Returns undefined a e = cc
request-Returns _ a e = cc

dispute-Returns : (v : Value) → Returns CheckedPayload (dispute_tuple_from_json v)
unfolding dispute_tuple_from_json
dispute-Returns (array (cons id (cons info nil))) a e =
    bind-Returns _ CheckedPayload _ _ (any (require_string id))
      (λ d _.
        bind-Returns _ CheckedPayload _ _ (any (unless_null solver_dispute_info_from_json info))
          (λ i _. ok-Returns CheckedPayload _ tt))
      a e
dispute-Returns undefined a e = cc
dispute-Returns _ a e = cc

next_trade-Returns : (v : Value) → Returns CheckedPayload (next_trade_from_json v)
unfolding next_trade_from_json
next_trade-Returns (array (cons key (cons index nil))) a e =
    bind-Returns _ CheckedPayload _ _ (string-Returns key)
      (λ k p.
        bind-Returns _ CheckedPayload _ _ (any (require_number index))
          (λ n _. ok-Returns CheckedPayload _ p))
      a e
next_trade-Returns undefined a e = cc
next_trade-Returns _ a e = cc

texts-Returns : (v : Value) → Returns (All FitsText) (string_array_from_json v)
unfolding string_array_from_json
texts-Returns v =
    bind-Returns _ _ _ _ (any (require_array v))
      (λ xs _ l e. (each-Returns FitsText require_string string-Returns xs l e).0)

-- a reader whose result is put under a constructor
wrap-Returns :
    {A : Type 0} (Q : A → Type 0) (make : A → DecodedPayload) (m : Result Fault A)
    → Returns Q m
    → ((a : A) → Q a → CheckedPayload (make a))
    → Returns CheckedPayload (wrap make m)
wrap-Returns Q make m h k =
    bind-Returns Q CheckedPayload m _ h (λ a q. ok-Returns _ (make a) (k a q))

free :
    {A : Type 0} (make : A → DecodedPayload) (m : Result Fault A)
    → ((a : A) → CheckedPayload (make a))
    → Returns CheckedPayload (wrap make m)
free make m k = wrap-Returns _ make m (any m) (λ a _. k a)

-- one case of the `switch`
case :
    (b : Bool) {m n : Result Fault DecodedPayload}
    → Returns CheckedPayload m
    → Returns CheckedPayload n
    → Returns CheckedPayload (if b then m else n)
case b {m} {n} h k = if-Returns CheckedPayload b m n h k

variant-Returns : (k : String) (v : Value) → Returns CheckedPayload (payload_of_variant k v)
unfolding payload_of_variant
variant-Returns k v =
    case (k == "order") (free DecodedPayload.order (small_order_from_json v) (λ a. tt)) (
      case (k == "payment_request") (request-Returns v) (
        case (k == "text_message")
          (wrap-Returns _ DecodedPayload.text_message (require_string v) (string-Returns v)
            (λ a p. p))
          (case (k == "peer") (free DecodedPayload.peer (peer_from_json v) (λ a. tt)) (
            case (k == "rating_user") (free DecodedPayload.rating_user (require_number v) (λ a. tt))
              (case (k == "amount") (free DecodedPayload.amount (require_number v) (λ a. tt)) (
                case (k == "dispute") (dispute-Returns v) (
                  case (k == "cant_do")
                    (free DecodedPayload.cant_do (unless_null require_string v) (λ a. tt))
                    (case (k == "next_trade") (next_trade-Returns v) (
                      case (k == "payment_failed")
                        (free DecodedPayload.payment_failed (payment_failed_from_json v) (λ a. tt))
                        (case (k == "restore_data")
                          (wrap-Returns _ DecodedPayload.restore_data
                            (restore_session_info_from_json v) (restore-Returns v) (λ a p. p))
                          (case (k == "ids")
                            (wrap-Returns _ DecodedPayload.ids (string_array_from_json v)
                              (texts-Returns v) (λ a p. p))
                            (case (k == "orders")
                              (free DecodedPayload.orders (small_order_array_from_json v) (λ a. tt))
                              (case (k == "bond_resolution")
                                (free DecodedPayload.bond_resolution (bond_resolution_from_json v)
                                  (λ a. tt))
                                (case (k == "bond_payout_request")
                                  (free DecodedPayload.bond_payout_request
                                    (bond_payout_request_from_json v) (λ a. tt))
                                  (case (k == "cashu_lock_proof")
                                    (free DecodedPayload.cashu_lock_proof
                                      (cashu_lock_proof_from_json v) (λ a. tt))
                                    (case (k == "cashu_signatures")
                                      (free DecodedPayload.cashu_signatures
                                        (cashu_proof_signature_array_from_json v) (λ a. tt))
                                      (err-Returns _ (unknown_variant k))))))))))))))))))

payload-Returns : (v : Value) → Returns CheckedPayload (payload_from_json v)
unfolding payload_from_json
payload-Returns v =
    bind-Returns _ _ _ _ (any (require_object v))
      (λ o _. bind-Returns _ _ _ _ (any (single_field o)) (λ (k, w) _. variant-Returns k w))

-- what is checked of the body of a message
pub record CheckedKind (k : DecodedKind) : Type 0 where
  pub request_id : Maybe FitsIndex k.request_id
  pub trade_index : Maybe FitsIndex k.trade_index
  pub id : Maybe FitsText k.id
  pub payload : Maybe CheckedPayload k.payload

kind-Returns : (v : Value) → Returns CheckedKind (message_kind_from_json v)
unfolding message_kind_from_json optional_integer optional_string
kind-Returns v = bind-Returns _ _ _ _ (any (require_object v)) (λ o _.
    bind-Returns _ _ _ _ (any (require_number (get "version" o))) (λ version _.
      bind-Returns _ _ _ _ (any (typeof_string (get "action" o))) (λ action _.
        bind-Returns _ _ _ _
          (or_null-Returns FitsIndex require_integer integer-Returns (get "request_id" o))
          (λ request_id p.
            bind-Returns _ _ _ _
              (or_null-Returns FitsIndex require_integer integer-Returns (get "trade_index" o))
              (λ trade_index q.
                bind-Returns _ _ _ _
                  (or_null-Returns FitsText require_string string-Returns (get "id" o))
                  (λ id t.
                    bind-Returns _ _ _ _
                      (or_null-Returns CheckedPayload payload_from_json payload-Returns
                        (get "payload" o))
                      (λ payload u.
                        ok-Returns _ _
                          (record { request_id = p; trade_index = q; id = t; payload = u }))))))))

variant_of_text :
    (k : String) (d : DecodedKind)
    → Returns (λ m. (k ≡ variant_to_string m.variant) × (m.value ≡ d)) (message_of_variant k d)
unfolding variant_to_string
variant_of_text k d m e = ground arith

message-Returns :
    (k : String) (w : Value)
    → Returns
        (λ m. (k ≡ variant_to_string m.variant) × CheckedKind m.value)
        (message_kind_from_json w >>= message_of_variant k)
message-Returns k w =
    bind-Returns _ _ _ _ (kind-Returns w)
      (λ d c m e. let h = variant_of_text k d m e in (h.0, rw h.1 c))

-- A message that the readers return from any JSON value was an object with one key, the text of the
-- message's variant. Its request id and its trade index, where it has them, are not negative; its id
-- is at most a million units long, and so are a text message, an invoice, a next trade key and every
-- id of a list; a restore has at most 10,000 orders and 10,000 disputes, each with texts within that
-- limit and a trade index that is not negative.
pub read_message_checked :
    (v : Value) (d : DecodedMessage)
    → message_from_json v ≡ ok d
    → (w : Value) × (v ≡ object (field (variant_to_string d.variant) w end)) × CheckedKind d.value
unfolding message_from_json
read_message_checked (object (field k w end)) d e =
    let h = message-Returns k w d e in (w, ap (λ (t : String). object (field t w end)) h.0, h.1)
read_message_checked (object end) d e = cc
read_message_checked (object (field k w (field j u fs))) d e = cc
read_message_checked undefined d e = cc
read_message_checked _ d e = cc
