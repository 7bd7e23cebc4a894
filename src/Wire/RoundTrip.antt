-- ===== src/Wire/RoundTrip.antt =====
-- Messages read back from their JSON form (src/protocol/wire.ts).
use mostro_ts_client.Common.{◌≡◌, refl, Option, none, some, ok, String-discrete, ◌>>=◌, string_eq}
use mathlib.Core.Option
use mostro_ts_client.Action.{action_to_string}
use mostro_ts_client.Message.{Payload, Variant, Message}
use mostro_ts_client.Wire.{nullable, string, int, get, or_null, optional_string}
use mostro_ts_client.Wire.Decoded.{DecodedKind}
use mostro_ts_client.Wire.Fits.{FitsText, Maybe, FitsPayload, FitsMessage}
use mostro_ts_client.Wire.Payloads.{payload_read_back}
use mostro_ts_client.Wire.Read.{
  payload_from_json, message_kind_from_json, message_of_variant, message_from_json,
}
use mostro_ts_client.Wire.Single.{
  some_of_ok, get-optional, optional_string-get, optional_integer-nullable, require_number-int,
}
use mostro_ts_client.Wire.Typed.{decoded_payload, decoded_kind, decoded_message}
use mostro_ts_client.Wire.Write.{
  payload_to_json, kind_fields, message_kind_to_json, message_to_json, variant_to_string,
}

-- a payload is written as an object, so the reader does not take it for null
or_null-payload :
    (p : Payload)
    → or_null payload_from_json (payload_to_json p)
      ≡ (payload_from_json (payload_to_json p) >>= λ a. ok (some a))
unfolding payload_to_json
or_null-payload (Payload.order o) = refl
or_null-payload _ = refl

Maybe-payload :
    (p : Option Payload)
    → Maybe FitsPayload p
    → or_null payload_from_json (nullable payload_to_json p) ≡ ok (Option.map decoded_payload p)
Maybe-payload none h = refl
Maybe-payload (some p) h = rw (or_null-payload p) (some_of_ok _ _ (payload_read_back p h))

module _ (m : Message) where
  get_version : get "version" (kind_fields m.value) ≡ int m.value.version
  unfolding kind_fields get String-discrete
  get_version = refl

  get_request_id : get "request_id" (kind_fields m.value) ≡ nullable int m.value.request_id
  unfolding kind_fields get String-discrete
  get_request_id = refl

  get_trade_index : get "trade_index" (kind_fields m.value) ≡ nullable int m.value.trade_index
  unfolding kind_fields get String-discrete
  get_trade_index = refl

  get_action : get "action" (kind_fields m.value) ≡ string (action_to_string m.value.action)
  unfolding kind_fields get String-discrete
  get_action = get-optional _ _ _ _ refl refl

  get_payload : get "payload" (kind_fields m.value) ≡ nullable payload_to_json m.value.payload
  unfolding kind_fields get String-discrete
  get_payload = get-optional _ _ _ _ refl refl

  get_id :
      Maybe FitsText m.value.id → optional_string (get "id" (kind_fields m.value)) ≡ ok m.value.id
  unfolding kind_fields get String-discrete
  get_id h = optional_string-get _ _ _ refl h

  kind_read_back :
      FitsMessage m
      → message_kind_from_json (message_kind_to_json m.value) ≡ ok (decoded_kind m.value)
  unfolding message_kind_from_json message_kind_to_json
  kind_read_back fits = rw (
    get_version,
    get_action,
    get_request_id,
    get_trade_index,
    get_payload,
    require_number-int m.value.version,
    optional_integer-nullable m.value.request_id fits.request_id,
    optional_integer-nullable m.value.trade_index fits.trade_index,
    get_id fits.id,
    Maybe-payload m.value.payload fits.payload,
  )

variant_read_back :
    (v : Variant) (k : DecodedKind)
    → message_of_variant (variant_to_string v) k ≡ ok (record { variant = v; value = k })
unfolding variant_to_string String-discrete
variant_read_back Variant.order k = refl
variant_read_back _ k = refl

-- A message whose checked texts are within a million units, whose indices are not negative and whose
-- restore lists have at most 10,000 entries is read back from its JSON form as it was written,
-- whatever its variant and payload are; only the rating of an order is not part of that form.
pub message_read_back :
    (m : Message) → FitsMessage m → message_from_json (message_to_json m) ≡ ok (decoded_message m)
unfolding message_from_json message_to_json
message_read_back m fits =
    rw (kind_read_back m fits) (variant_read_back m.variant (decoded_kind m.value))
