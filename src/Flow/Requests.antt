-- ===== src/Flow/Requests.antt =====
-- The messages that flow.ts builds: when it builds one, and what a reader finds in it.
use mostro_ts_client.Common.{
  String, true, false, ◌||◌, ◌≡◌, refl, ◌⊎◌, Option, none, some, or_default, ok, err, arith,
}
use mathlib.Core.Option
use mostro_ts_client.Common.Int.{ℤ, pos, ltb_ℤ, ◌≤ℤ◌, ◌<ℤ◌, ◌+ℤ◌, ◌*ℤ◌}
use mostro_ts_client.Action.{Action, Action-discrete, action_eq}
use mostro_ts_client.Message.{Payload, Message, new_order_message}
use mostro_ts_client.Fault.{minimum_expiration, rating_out_of_range}
use mostro_ts_client.Verify.{
  verify_message_kind, get_order, get_rating, get_amount, get_payment_request, get_next_trade_key,
}
use mostro_ts_client.Flow.{
  NewOrderInput, NewOrderOutcome, pending_order, build_new_order, build_trade_message, TakeAction,
  take_buy, take_sell, take_action, nonempty, build_take_order_payload, build_rate_user_message,
  Completion, fiat_sent, release, build_trade_completion_message,
}

-- What a caller of `buildNewOrder` relies on.
pub record IsNewOrder (now request_id : ℤ) (last : Option ℤ) (input : NewOrderInput)
    (out : NewOrderOutcome) : Type 0 where
  pub accepted : verify_message_kind out.message.value ≡ true
  pub carried : get_order out.message.value ≡ some out.small_order
  pub correlated : out.message.value.request_id ≡ some request_id
  pub next_key : out.message.value.trade_index ≡ some (or_default last (pos 1) +ℤ pos 1)
  pub expiry :
      out.small_order.expires_at
      ≡ some (now +ℤ or_default input.expiration_days (pos 1) *ℤ pos 86400)

-- the outcome where nothing is thrown
abbrev built : ℤ → ℤ → Option ℤ → NewOrderInput → NewOrderOutcome
built now request_id last input =
    let order =
      pending_order input (now +ℤ or_default input.expiration_days (pos 1) *ℤ pos 86400) in
    let trade_index = or_default last (pos 1) +ℤ pos 1 in
    record {
      message =
          new_order_message none (some request_id) (some trade_index) Action.new_order
            (some (Payload.order order));
      small_order = order;
      request_id = request_id;
      trade_index = trade_index;
    }

days_accepted : (days : ℤ) → pos 1 ≤ℤ days → ltb_ℤ days (pos 1) ≡ false
days_accepted days h = ground arith

days_refused : (days : ℤ) → days <ℤ pos 1 → ltb_ℤ days (pos 1) ≡ true
days_refused days h = ground arith

-- With an expiry of at least one day `buildNewOrder` returns a message that passes verification, that
-- carries the order it reports, the request id, the trade index after the last one (2 on a first
-- run) and the expiry asked for. With less than one day it throws.
pub build_new_order_total :
    (now request_id : ℤ) (last : Option ℤ) (input : NewOrderInput)
    → let days = or_default input.expiration_days (pos 1) in
      (pos 1 ≤ℤ days
        → (out : NewOrderOutcome) × (build_new_order now request_id last input ≡ ok out)
          × IsNewOrder now request_id last input out)
      × (days <ℤ pos 1 → build_new_order now request_id last input ≡ err minimum_expiration)
unfolding build_new_order verify_message_kind get_order
build_new_order_total now request_id last input = (
  λ h. (
    built now request_id last input,
    rw (days_accepted _ h),
    record { accepted = refl; carried = refl; correlated = refl; next_key = refl; expiry = refl },
  ),
  λ h. rw (days_refused _ h),
)

rating_accepted : (r : ℤ) → pos 1 ≤ℤ r → r ≤ℤ pos 5 → (ltb_ℤ r (pos 1) || ltb_ℤ (pos 5) r) ≡ false
rating_accepted r p q = ground arith

rating_refused : (r : ℤ) → (r <ℤ pos 1) ⊎ (pos 5 <ℤ r) → (ltb_ℤ r (pos 1) || ltb_ℤ (pos 5) r) ≡ true
rating_refused r h = ground arith

-- A rating from 1 to 5 is built into a message from which `getRating` reads it back; any other
-- rating is refused with an error that names it.
pub rating_round_trip :
    (id : String) (request_id r : ℤ)
    → (pos 1 ≤ℤ r
        → r ≤ℤ pos 5
        → (m : Message) × (build_rate_user_message id request_id r ≡ ok m)
          × (get_rating m.value ≡ ok r))
      × ((r <ℤ pos 1) ⊎ (pos 5 <ℤ r)
          → build_rate_user_message id request_id r ≡ err (rating_out_of_range r))
unfolding build_rate_user_message get_rating verify_message_kind
rating_round_trip id request_id r = (
  λ p q. (
    new_order_message (some id) (some request_id) none Action.rate_user
        (some (Payload.rating_user r)),
    rw (rating_accepted r p q),
    rw (rating_accepted r p q),
  ),
  λ h. rw (rating_refused r h),
)

-- What the daemon reads in a take message for an order of a given kind.
abbrev pub taken_amount : TakeAction → Option String → Option ℤ → Option ℤ
taken_amount take_buy invoice amount = amount
taken_amount take_sell none amount = some (or_default amount (pos 0))
taken_amount take_sell (some _) amount = amount

abbrev pub taken_invoice : TakeAction → Option String → Option String
taken_invoice take_buy invoice = none
taken_invoice take_sell invoice = invoice

take_built :
    (t : TakeAction) (id : String) (request_id : ℤ) (invoice given : Option String)
    (amount index : Option ℤ)
    → nonempty invoice ≡ given
    → (m : Message) × (build_trade_message id request_id
          (take_action t)
          (build_take_order_payload t invoice amount)
          index
        ≡ ok m)
      × (m.value.id ≡ some id)
      × (get_amount m.value ≡ taken_amount t given amount)
      × (get_payment_request m.value ≡ taken_invoice t given)
unfolding build_trade_message build_take_order_payload verify_message_kind get_amount
    get_payment_request Action-discrete
take_built take_buy id request_id invoice given none index e = (
  new_order_message (some id) (some request_id) index Action.take_buy none,
  refl,
  refl,
  refl,
  refl,
)
take_built take_buy id request_id invoice given (some amount) index e = (
  new_order_message (some id) (some request_id) index Action.take_buy
      (some (Payload.amount amount)),
  refl,
  refl,
  refl,
  refl,
)
take_built take_sell id request_id invoice none amount index e = (
  new_order_message (some id) (some request_id) index Action.take_sell
      (some (Payload.amount (or_default amount (pos 0)))),
  rw (e, build_take_order_payload),
  refl,
  refl,
  refl,
)
take_built take_sell id request_id invoice (some given) amount index e = (
  new_order_message (some id) (some request_id) index Action.take_sell
      (some (Payload.payment_request none given amount)),
  rw (e, build_take_order_payload),
  refl,
  refl,
  refl,
)

-- A take message never fails verification. It names the order, and the daemon reads from it the
-- amount asked for (0 for a sell order taken with neither invoice nor amount) and, for a sell order,
-- the invoice unless that is empty.
pub take_message_read :
    (t : TakeAction) (id : String) (request_id : ℤ) (invoice : Option String)
    (amount index : Option ℤ)
    → (m : Message) × (build_trade_message id request_id
          (take_action t)
          (build_take_order_payload t invoice amount)
          index
        ≡ ok m)
      × (m.value.id ≡ some id)
      × (get_amount m.value ≡ taken_amount t (nonempty invoice) amount)
      × (get_payment_request m.value ≡ taken_invoice t (nonempty invoice))
take_message_read t id request_id invoice amount index =
    take_built t id request_id invoice (nonempty invoice) amount index refl

-- Completing a trade, with no payload or with a next trade key, never throws, and the next trade key
-- is read back by `getNextTradeKey`.
pub completion_round_trip :
    (id : String) (request_id : ℤ) (c : Completion) (key : Option (String × ℤ))
    → (m : Message) × (build_trade_completion_message id request_id c
          (Option.map (λ k. Payload.next_trade k.0 k.1) key)
        ≡ ok m)
      × (m.value.id ≡ some id)
      × (get_next_trade_key m.value ≡ ok key)
unfolding build_trade_completion_message verify_message_kind get_next_trade_key Action-discrete
completion_round_trip id request_id fiat_sent none = (_, refl, refl, refl)
completion_round_trip id request_id fiat_sent (some k) = (_, refl, refl, refl)
completion_round_trip id request_id release none = (_, refl, refl, refl)
completion_round_trip id request_id release (some k) = (_, refl, refl, refl)
