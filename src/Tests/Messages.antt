-- ===== src/Tests/Messages.antt =====
-- Examples for the messages of a trade.
use mostro_ts_client.Common.{ℕ, String, ◌≡◌, ◌↔◌, none, some, ok, err}
use mostro_ts_client.Common.Int.{ℤ, pos, ◌≤ℤ◌, ◌<ℤ◌}
use mostro_ts_client.Action.{Action, action_eq}
use mostro_ts_client.Message.{Payload, MessageKind}
use mostro_ts_client.Fault.{minimum_expiration}
use mostro_ts_client.Flow.{
  NewOrderInput, NewOrderOutcome, build_new_order, hold_invoice, handle_take_order_response,
  compute_next_trade_payload,
}
use mostro_ts_client.Flow.Replies.{TakeReply, handle_take_order_response_iff}
use mostro_ts_client.Flow.Range.{Continues, next_trade_payload_total}
use mostro_ts_client.Flow.Requests.{IsNewOrder, build_new_order_total}
use mostro_ts_client.Tests.{sample_order, message_of}

abbrev order_input : NewOrderInput
order_input = record {
  kind = some "sell";
  fiat_code = none;
  amount = none;
  fiat_amount = pos 30;
  min_amount = none;
  max_amount = none;
  payment_method = "cash";
  premium = none;
  buyer_invoice = none;
  expiration_days = none;
}

build_new_order_total_example :
    (pos 1 ≤ℤ pos 1
      → (out : NewOrderOutcome) × (build_new_order (pos 1000) (pos 7) none order_input ≡ ok out)
        × IsNewOrder (pos 1000) (pos 7) none order_input out)
    × (pos 1 <ℤ pos 1
        → build_new_order (pos 1000) (pos 7) none order_input ≡ err minimum_expiration)
build_new_order_total_example = build_new_order_total (pos 1000) (pos 7) none order_input

abbrev bill : MessageKind
bill = (message_of Action.pay_invoice (some (Payload.payment_request none "lnbc1" none))).value

abbrev reserve_three : ℤ → ℕ → (ℤ × String) × ℕ
reserve_three base s = ((pos 3, "key"), 4)

handle_take_order_response_iff_example :
    (handle_take_order_response bill (pos 7) ≡ ok (hold_invoice none "lnbc1" none (pos 7))) ↔ (
      (bill.request_id ≡ some (pos 7))
      × TakeReply bill.action bill.payload (pos 7) (hold_invoice none "lnbc1" none (pos 7)))
handle_take_order_response_iff_example =
    handle_take_order_response_iff bill (pos 7) (hold_invoice none "lnbc1" none (pos 7))

next_trade_payload_total_example :
    ((min max : ℤ)
      → Continues sample_order min max
      → compute_next_trade_payload reserve_three sample_order 3
        ≡ (some (Payload.next_trade "key" (pos 3)), 4))
    × (((min max : ℤ) → ¬ Continues sample_order min max)
        → compute_next_trade_payload reserve_three sample_order 3 ≡ (none, 3))
next_trade_payload_total_example = next_trade_payload_total reserve_three sample_order 3
