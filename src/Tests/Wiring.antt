-- ===== src/Tests/Wiring.antt =====
-- Examples for the JSON form of messages.
use mostro_ts_client.Common.{◌≡◌, some, [], ◌∷◌, ok, arith}
use mostro_ts_client.Common.Int.{pos}
use mostro_ts_client.Action.{Action}
use mostro_ts_client.Message.{Payload, Message}
use mostro_ts_client.Wire.{Value, object, field, end, utf16_length}
use mostro_ts_client.Wire.Write.{message_to_json, variant_to_string}
use mostro_ts_client.Wire.Read.{message_from_json}
use mostro_ts_client.Wire.Typed.{decoded_message}
use mostro_ts_client.Wire.Fits.{FitsMessage}
use mostro_ts_client.Wire.RoundTrip.{message_read_back}
use mostro_ts_client.Wire.Bounds.{CheckedKind, read_message_checked}
use mostro_ts_client.Tests.{message_of}

abbrev pub restore_message : Message
restore_message = message_of Action.restore_session (
    some (
      Payload.restore_data (record {
        orders = record { order_id = "o1"; trade_index = pos 3; status = "active" } ∷ [];
        disputes = [];
      })))

pub restore_message-Fits : FitsMessage restore_message
unfolding utf16_length
restore_message-Fits = record {
  request_id = omega arith;
  trade_index = tt;
  id = omega arith;
  payload = record {
    orders = ((omega arith, omega arith, omega arith), tt);
    disputes = tt;
    few_orders = omega arith;
    few_disputes = omega arith;
  };
}

message_read_back_example :
    message_from_json (message_to_json restore_message) ≡ ok (decoded_message restore_message)
message_read_back_example = message_read_back restore_message restore_message-Fits

read_message_checked_example :
    (w : Value) × (message_to_json restore_message
      ≡ object (field (variant_to_string (decoded_message restore_message).variant) w end))
    × CheckedKind (decoded_message restore_message).value
read_message_checked_example =
    read_message_checked (message_to_json restore_message) (decoded_message restore_message)
      message_read_back_example
