-- ===== src/Flow.antt =====
-- src/protocol/flow.ts: the messages of a trade and the replies to them.
pub mod Requests
pub mod Replies
pub mod Range
use mostro_ts_client.Common.{
  String, Bool, true, false, ◌&&◌, ◌||◌, not, ◌≡◌, Option, none, some, if◌then◌else◌, ◌==◌, ◌!=◌,
  is_some, or_default, or_else, option_eq, string_eq, Result, ok, err, ◌>>=◌, ◌>>◌, throw_if,
}
use mostro_ts_client.Common.Text.{trim, to_lower, to_upper}
use mostro_ts_client.Common.Int.{ℤ, pos, ◌+ℤ◌, ◌-ℤ◌, ◌*ℤ◌, ltb_ℤ, int_eq}
use mostro_ts_client.Kind.{Kind, buy, sell}
use mostro_ts_client.Status.{Status}
use mostro_ts_client.Action.{Action, action_eq}
use mostro_ts_client.CantDo.{CantDoReason}
use mostro_ts_client.Order.{SmallOrder}
use mostro_ts_client.Message.{Payload, MessageKind, Message, new_order_message}
use mostro_ts_client.Fault.{
  Fault, null_request_id, mismatched_request_id, unexpected_action, no_payload, failed_verification,
  cant_do_error, minimum_expiration, kind_not_specified, rating_out_of_range, missing_order_id,
  missing_dispute_payload,
}
use mostro_ts_client.Verify.{verify_message_kind}

pub record NewOrderInput : Type 0 where
  pub kind : Option String
  pub fiat_code : Option String
  pub amount : Option ℤ
  pub fiat_amount : ℤ
  pub min_amount : Option ℤ
  pub max_amount : Option ℤ
  pub payment_method : String
  pub premium : Option ℤ
  pub buyer_invoice : Option String
  pub expiration_days : Option ℤ

pub record NewOrderOutcome : Type 0 where
  pub message : Message
  pub small_order : SmallOrder
  pub request_id : ℤ
  pub trade_index : ℤ

-- `minAmount !== undefined && maxAmount !== undefined && maxAmount > 0`
abbrev pub is_range : Option ℤ → Option ℤ → Bool
is_range (some min) (some max) = ltb_ℤ (pos 0) max
is_range _ _ = false

-- an order's id, pubkeys and times are filled in by the daemon
abbrev pub pending_order : NewOrderInput → ℤ → SmallOrder
pending_order input expires_at =
    let range = is_range input.min_amount input.max_amount in
    record {
      id = none;
      kind = some (if to_lower (trim (or_default input.kind "buy")) == "sell" then sell else buy);
      status = some Status.pending;
      amount = or_default input.amount (pos 0);
      fiat_code = to_upper (trim (or_default input.fiat_code "USD"));
      min_amount = if range then input.min_amount else none;
      max_amount = if range then input.max_amount else none;
      fiat_amount = if range then pos 0 else input.fiat_amount;
      payment_method = input.payment_method;
      premium = or_default input.premium (pos 0);
      buyer_trade_pubkey = none;
      seller_trade_pubkey = none;
      buyer_invoice = input.buyer_invoice;
      created_at = some (pos 0);
      expires_at = some expires_at;
      rating = none;
    }

-- a built message is returned only if it passes verification
abbrev pub verified : Action → Message → Result Fault Message
verified action message =
    if verify_message_kind message.value then ok message else err (failed_verification action)

-- `now` is the clock in seconds, and `request_id` what `newRequestId` draws
unfoldable pub build_new_order :
    (now request_id : ℤ) → Option ℤ → NewOrderInput → Result Fault NewOrderOutcome
build_new_order now request_id last_trade_index input = do
  let days = or_default input.expiration_days (pos 1)
  throw_if (ltb_ℤ days (pos 1)) minimum_expiration
  let order = pending_order input (now +ℤ days *ℤ pos 86400)
  let trade_index = or_default last_trade_index (pos 1) +ℤ pos 1
  message ← verified Action.new_order (
      new_order_message none (some request_id) (some trade_index) Action.new_order
        (some (Payload.order order)))
  ok (record {
    message = message;
    small_order = order;
    request_id = request_id;
    trade_index = trade_index;
  })

-- the two tests that begin most of the reply handlers; the id itself if both pass
abbrev pub echoed : Option ℤ → ℤ → Result Fault ℤ
echoed none expected = err null_request_id
echoed (some id) expected = if id != expected then err mismatched_request_id else ok id

pub data NewOrderResponse : Type 0 where
  order_created : SmallOrder → (request_id : ℤ) → NewOrderResponse
  bond_invoice : Option SmallOrder → String → Option ℤ → (request_id : ℤ) → NewOrderResponse

-- the `switch` of `handleNewOrderResponse`
new_order_reply : Action → Option Payload → ℤ → Result Fault NewOrderResponse
new_order_reply Action.new_order (some (Payload.order o)) id = ok (order_created o id)
new_order_reply Action.new_order _ id = err (no_payload Action.new_order)
new_order_reply Action.pay_bond_invoice (some (Payload.payment_request o invoice amount)) id =
    ok (bond_invoice o invoice amount id)
new_order_reply Action.pay_bond_invoice _ id = err (no_payload Action.pay_bond_invoice)
new_order_reply action _ id = err (unexpected_action action)

unfoldable pub handle_new_order_response : MessageKind → ℤ → Result Fault NewOrderResponse
unfolding new_order_reply
handle_new_order_response kind expected = do
  id ← echoed kind.request_id expected
  new_order_reply kind.action kind.payload id

unfoldable pub build_trade_message :
    (order_id : String) (request_id : ℤ) → Action → Option Payload → Option ℤ → Result Fault Message
build_trade_message order_id request_id action payload trade_index =
    verified action (new_order_message (some order_id) (some request_id) trade_index action payload)

pub data TakeAction : Type 0 where
  take_buy take_sell : TakeAction

abbrev pub take_action : TakeAction → Action
take_action take_buy = Action.take_buy
take_action take_sell = Action.take_sell

-- `if (input.invoice)`: neither null nor empty
abbrev pub nonempty : Option String → Option String
nonempty none = none
nonempty (some s) = if s == "" then none else some s

unfoldable pub build_take_order_payload :
    TakeAction → (invoice : Option String) (amount : Option ℤ) → Option Payload
build_take_order_payload take_buy invoice none = none
build_take_order_payload take_buy invoice (some amount) = some (Payload.amount amount)
build_take_order_payload take_sell invoice amount = elim (nonempty invoice) [
  | some invoice' ↦ some (Payload.payment_request none invoice' amount)
  | none ↦ some (Payload.amount (or_default amount (pos 0)))
]

take_action_of : Option Kind → Result Fault TakeAction
take_action_of (some buy) = ok take_buy
take_action_of (some sell) = ok take_sell
take_action_of none = err kind_not_specified

unfoldable pub take_action_for_order : SmallOrder → Result Fault TakeAction
unfolding take_action_of
take_action_for_order order = take_action_of order.kind

pub data TakeOrderResponse : Type 0 where
  hold_invoice : Option SmallOrder → String → Option ℤ → (request_id : ℤ) → TakeOrderResponse
  bond_invoice : Option SmallOrder → String → Option ℤ → (request_id : ℤ) → TakeOrderResponse
  add_invoice : SmallOrder → (request_id : ℤ) → TakeOrderResponse

abbrev reason_in : Option Payload → Option CantDoReason
reason_in (some (Payload.cant_do reason)) = reason
reason_in _ = none

-- the `switch` of `handleTakeOrderResponse`
take_order_reply : Action → Option Payload → ℤ → Result Fault TakeOrderResponse
take_order_reply Action.pay_invoice (some (Payload.payment_request o invoice amount)) id =
    ok (hold_invoice o invoice amount id)
take_order_reply Action.pay_invoice _ id = err (no_payload Action.pay_invoice)
take_order_reply Action.pay_bond_invoice (some (Payload.payment_request o invoice amount)) id =
    ok (TakeOrderResponse.bond_invoice o invoice amount id)
take_order_reply Action.pay_bond_invoice _ id = err (no_payload Action.pay_bond_invoice)
take_order_reply Action.cant_do payload id = err (cant_do_error (reason_in payload) (some id))
take_order_reply Action.add_invoice (some (Payload.order o)) id = ok (add_invoice o id)
take_order_reply Action.add_invoice _ id = err (no_payload Action.add_invoice)
take_order_reply action _ id = err (unexpected_action action)

unfoldable pub handle_take_order_response : MessageKind → ℤ → Result Fault TakeOrderResponse
unfolding take_order_reply
handle_take_order_response kind expected = do
  id ← echoed kind.request_id expected
  take_order_reply kind.action kind.payload id

unfoldable pub build_rate_user_message :
    (order_id : String) (request_id rating : ℤ) → Result Fault Message
build_rate_user_message order_id request_id rating = do
  throw_if (ltb_ℤ rating (pos 1) || ltb_ℤ (pos 5) rating) (rating_out_of_range rating)
  verified Action.rate_user (
      new_order_message (some order_id) (some request_id) none Action.rate_user
        (some (Payload.rating_user rating)))

unfoldable pub handle_rate_user_response : MessageKind → ℤ → Result Fault (Unit {0})
handle_rate_user_response kind expected = do
  id ← echoed kind.request_id expected
  throw_if (kind.action != Action.rate_received) (unexpected_action kind.action)

-- `reserve` is the store's reservation, from a base for the first index: the index, the trade
-- pubkey, and the store after it
module _ {S : Type 0} (reserve : ℤ → S → (ℤ × String) × S) where
  announce : (ℤ × String) × S → Option Payload × S
  announce ((index, pubkey), s) = (some (Payload.next_trade pubkey index), s)

  next_trade_payload : Option ℤ → Option ℤ → ℤ → S → Option Payload × S
  next_trade_payload (some min) (some max) fiat s =
      if ltb_ℤ (max -ℤ fiat) min then (none, s) else announce (reserve (pos 0) s)
  next_trade_payload _ _ fiat s = (none, s)

  unfoldable pub compute_next_trade_payload : SmallOrder → S → Option Payload × S
  unfolding next_trade_payload announce
  compute_next_trade_payload order s =
      next_trade_payload order.min_amount order.max_amount order.fiat_amount s

pub data Completion : Type 0 where
  fiat_sent release : Completion

abbrev pub completion_action : Completion → Action
completion_action fiat_sent = Action.fiat_sent
completion_action release = Action.release

unfoldable pub build_trade_completion_message :
    (order_id : String) (request_id : ℤ) → Completion → Option Payload → Result Fault Message
unfolding build_trade_message
build_trade_completion_message order_id request_id completion next_trade =
    build_trade_message order_id request_id (completion_action completion) next_trade none

unfoldable pub build_dispute_message : (order_id : String) (request_id : ℤ) → Result Fault Message
build_dispute_message order_id request_id =
    verified Action.dispute
      (new_order_message (some order_id) (some request_id) none Action.dispute none)

pub record DisputeNotification : Type 0 where
  pub order_id : String
  pub dispute_id : String
  pub initiated_by_you : Bool

notified : Option String → Option Payload → Bool → Result Fault DisputeNotification
notified none payload you = err missing_order_id
notified (some id) (some (Payload.dispute dispute_id info)) you =
    ok (record { order_id = id; dispute_id = dispute_id; initiated_by_you = you })
notified (some id) _ you = err missing_dispute_payload

unfoldable pub handle_dispute_notification : MessageKind → Result Fault DisputeNotification
unfolding notified
handle_dispute_notification kind =
    if kind.action != Action.dispute_initiated_by_you
      && kind.action != Action.dispute_initiated_by_peer
    then err (unexpected_action kind.action)
    else notified kind.id kind.payload (kind.action == Action.dispute_initiated_by_you)
