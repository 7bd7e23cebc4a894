-- ===== src/Client/Requests.antt =====
-- The requests of src/protocol/client.ts. `reserve` is the backend's reserveNextTradeIndex, `unwrap` opens
-- an event with a secret, `network` gives the events that are delivered after a message is sent,
-- `now` is the clock, `request_id` what newRequestId draws, and `null_id` stands for null as a key,
-- where the code asserts that an order has an id.
use mostro_ts_client.Common.{
  String, Bool, true, false, ◌&&◌, Option, none, some, List, [], ◌∷◌, if◌then◌else◌, ◌==◌,
  string_eq, or_default, or_else, is_some, Result, ok, err, ◌>>=◌,
}
use mathlib.Core.Option
use mostro_ts_client.Common.Dict.{insert}
use mostro_ts_client.Common.Int.{ℤ, pos, ◌-ℤ◌, int_eq}
use mostro_ts_client.Kind.{kind_to_string}
use mostro_ts_client.Status.{status_to_string}
use mostro_ts_client.Action.{Action}
use mostro_ts_client.Order.{SmallOrder}
use mostro_ts_client.Message.{Payload, MessageKind, Message}
use mostro_ts_client.Store.{UserRow, OrderRow, SaveOrderInput, Store}
use mostro_ts_client.DmRouter.{NostrEvent}
use mostro_ts_client.Fault.{Fault}
use mostro_ts_client.Invoice.{add_invoice, build_invoice_message, handle_add_invoice_response}
use mostro_ts_client.OrderBook.{empty_order}
use mostro_ts_client.Flow.{
  NewOrderInput, NewOrderResponse, order_created, build_new_order, handle_new_order_response,
  TakeOrderResponse, hold_invoice, take_action, take_action_for_order, build_take_order_payload,
  build_trade_message, handle_take_order_response, nonempty, Completion, completion_action,
  compute_next_trade_payload, build_dispute_message, handle_dispute_notification,
  build_rate_user_message, handle_rate_user_response,
}
use mostro_ts_client.Client.{Client, track_order, require_trade_secret}
use mostro_ts_client.Client.Exchange.{roundtrip}

pub data Role : Type 0 where
  maker taker : Role

pub data NextStep : Type 0 where
  no_step : NextStep
  pay_bond : Role → String → Option ℤ → NextStep
  pay_hold_invoice : String → Option ℤ → NextStep
  submit_invoice_step : ℤ → NextStep

-- CreateOrderResult and TakeOrderResult
pub record OrderResult : Type 0 where
  pub order_id : String
  pub status : Option String
  pub next : NextStep

pub record Keys : Type 0 where
  pub pubkey : String
  pub secret : String

abbrev pub status_text : Option SmallOrder → Option String
status_text none = none
status_text (some o) = Option.map status_to_string o.status

abbrev pub create_result : String → MessageKind → NewOrderResponse → OrderResult
create_result null_id kind (order_created o _) = record {
  order_id = or_default o.id null_id;
  status = status_text (some o);
  next = no_step;
}
create_result null_id kind (NewOrderResponse.bond_invoice o invoice amount _) = record {
  order_id = or_default (or_else (Option.bind o (λ (o : SmallOrder). o.id)) kind.id) "";
  status = if is_some (nonempty kind.id) then some "waiting-maker-bond" else none;
  next = pay_bond maker invoice (or_else amount (Option.map (λ (o : SmallOrder). o.amount) o));
}

abbrev pub payload_order : Option Payload → Option SmallOrder
payload_order (some (Payload.order o)) = some o
payload_order _ = none

-- `small?.status ?? kind.id ? "pending" : null`
abbrev pub persisted_status : Option SmallOrder → Option String → Option String
persisted_status small id =
    if is_some (nonempty (or_else (status_text small) id)) then some "pending" else none

-- the row of an order that this client made or took, a missing order giving the defaults
unfoldable pub persisted : ℤ → String → MessageKind → String → ℤ → Bool → SaveOrderInput
persisted now order_id kind secret index is_mine =
    let small = payload_order kind.payload in
    let o = or_default small empty_order in
    record {
      id = order_id;
      kind = Option.map kind_to_string o.kind;
      status = persisted_status small kind.id;
      amount = o.amount;
      fiat_code = o.fiat_code;
      min_amount = o.min_amount;
      max_amount = o.max_amount;
      fiat_amount = o.fiat_amount;
      payment_method = o.payment_method;
      premium = o.premium;
      trade_keys = secret;
      counterparty_pubkey = none;
      is_mine = is_mine;
      buyer_invoice = o.buyer_invoice;
      request_id = none;
      trade_index = index;
      created_at = some (or_default o.created_at now);
      expires_at = o.expires_at;
    }

abbrev pub take_next : TakeOrderResponse → NextStep
take_next (hold_invoice _ invoice amount _) = pay_hold_invoice invoice amount
take_next (TakeOrderResponse.bond_invoice _ invoice amount _) = pay_bond taker invoice amount
take_next (TakeOrderResponse.add_invoice o _) = submit_invoice_step o.amount

abbrev pub order_of_take : TakeOrderResponse → Option SmallOrder
order_of_take (hold_invoice o _ _ _) = o
order_of_take (TakeOrderResponse.bond_invoice o _ _ _) = o
order_of_take (TakeOrderResponse.add_invoice o _) = some o

abbrev pub create_answers : List Action
create_answers = Action.new_order ∷ Action.pay_bond_invoice ∷ []

abbrev pub take_answers : List Action
take_answers =
    Action.take_sell ∷ Action.take_buy ∷ Action.pay_invoice ∷ Action.pay_bond_invoice
    ∷ Action.add_invoice ∷ []

abbrev pub cancel_answers : List Action
cancel_answers =
    Action.cooperative_cancel_initiated_by_you ∷ Action.cooperative_cancel_accepted
    ∷ Action.canceled ∷ []

module _ (store : Store) (pubkey_from_secret : String → String)
    (reserve : ℤ → store.S → (ℤ × Keys) × store.S) (upsert_user : UserRow → store.S → store.S)
    (unwrap : String → NostrEvent → Result Fault (Option Message))
    (network : Message → List NostrEvent) (now request_id : ℤ) (identity null_id : String) where
  open store use {S, get_order, save_order}

  abbrev pub exchange : Client S → String → Message → List Action → Result Fault MessageKind
  exchange c secret message expected = roundtrip c.router (unwrap secret) expected (network message)

  -- the trade is registered: `trades.set`, `trackOrder`
  abbrev pub registered : String → String → Client S → Client S
  registered id secret c = record c {
    trades = insert id secret c.trades;
    router = track_order pubkey_from_secret id secret c.router;
  }

  unfoldable pub persist_order : String → MessageKind → String → ℤ → Bool → Client S → Client S
  persist_order id kind secret index is_mine c = record c {
    db = (save_order (persisted now id kind secret index is_mine) c.db).0;
  }

  abbrev pub create_reply :
      Client S → ℤ → Keys → NewOrderInput → Result Fault (MessageKind × NewOrderResponse)
  create_reply c index keys input = do
    built ← build_new_order now request_id (some (index -ℤ pos 1)) input
    kind ← exchange c keys.secret built.message create_answers
    reply ← handle_new_order_response kind built.request_id
    ok (kind, reply)

  -- the order is registered and stored, and the user's index moves
  abbrev pub created :
      Client S
      → ℤ
      → Keys
      → Result Fault (MessageKind × NewOrderResponse)
      → Client S × Result Fault OrderResult
  created c index keys (err f) = (c, err f)
  created c index keys (ok (kind, reply)) =
      let result = create_result null_id kind reply in
      let c1 =
        persist_order result.order_id kind keys.secret index true
          (registered result.order_id keys.secret c) in
      let user : UserRow = record {
        i0_pubkey = identity;
        last_trade_index = some index;
        created_at = now;
      } in
      (record c1 { db = upsert_user user c1.db }, ok result)

  unfoldable pub create_order : NewOrderInput → Client S → Client S × Result Fault OrderResult
  create_order input c =
      let ((index, keys), db) = reserve (pos 1) c.db in
      let c1 = record c { db = db } in created c1 index keys (create_reply c1 index keys input)

  abbrev pub take_reply :
      Client S
      → ℤ
      → Keys
      → SmallOrder
      → Option String
      → Option ℤ
      → Result Fault (MessageKind × TakeOrderResponse)
  take_reply c index keys o invoice amount = do
    action ← take_action_for_order o
    message ←
        build_trade_message (or_default o.id null_id) request_id (take_action action)
          (build_take_order_payload action invoice amount) (some index)
    kind ← exchange c keys.secret message take_answers
    reply ← handle_take_order_response kind request_id
    ok (kind, reply)

  -- only an order that asks for an invoice is stored
  abbrev pub stored_take :
      String → MessageKind → String → ℤ → TakeOrderResponse → Client S → Client S
  stored_take id kind secret index (TakeOrderResponse.add_invoice _ _) c =
      persist_order id kind secret index false c
  stored_take id kind secret index _ c = c

  abbrev pub taken :
      Client S
      → ℤ
      → Keys
      → String
      → Result Fault (MessageKind × TakeOrderResponse)
      → Client S × Result Fault OrderResult
  taken c index keys id (err f) = (c, err f)
  taken c index keys id (ok (kind, reply)) = (
    stored_take id kind keys.secret index reply (registered id keys.secret c),
    ok (record {
      order_id = id;
      status = status_text (order_of_take reply);
      next = take_next reply;
    }),
  )

  unfoldable pub take_order :
      SmallOrder → Option String → Option ℤ → Client S → Client S × Result Fault OrderResult
  take_order o invoice amount c =
      let ((index, keys), db) = reserve (pos 1) c.db in
      let c1 = record c { db = db } in
      taken c1 index keys (or_default o.id null_id) (take_reply c1 index keys o invoice amount)

  unfoldable pub submit_invoice : String → String → Client S → Result Fault (Unit {0})
  submit_invoice order_id invoice c = do
    secret ← require_trade_secret order_id c
    message ← build_invoice_message order_id request_id add_invoice invoice
    kind ←
        exchange c secret message
          (Action.waiting_seller_to_pay ∷ Action.hold_invoice_payment_accepted ∷ [])
    handle_add_invoice_response kind request_id

  abbrev announced_part : (ℤ × Keys) × S → (ℤ × String) × S
  announced_part ((index, keys), s) = ((index, keys.pubkey), s)

  -- the maker of a range order announces the next trade
  abbrev range_payload : Option OrderRow → S → Option Payload × S
  range_payload none s = (none, s)
  range_payload (some row) s =
      if row.is_mine == pos 1 && is_some row.min_amount && is_some row.max_amount
      then compute_next_trade_payload (λ base s'. announced_part (reserve base s'))
          (record empty_order {
            min_amount = row.min_amount;
            max_amount = row.max_amount;
            fiat_amount = row.fiat_amount;
          })
          s
      else (none, s)

  abbrev pub completion_reply :
      String → Completion → String → Option Payload → Client S → Result Fault (Unit {0})
  completion_reply order_id completion secret payload c = do
    message ← build_trade_message order_id request_id (completion_action completion) payload none
    kind ←
        exchange c secret message (Action.fiat_sent_ok ∷ Action.hold_invoice_payment_settled ∷ [])
    ok tt

  abbrev pub send_with :
      Result Fault String → String → Completion → Client S → Client S × Result Fault (Unit {0})
  send_with (err f) order_id completion c = (c, err f)
  send_with (ok secret) order_id completion c =
      let (payload, db) = range_payload (get_order order_id c.db) c.db in
      let c1 = record c { db = db } in (c1, completion_reply order_id completion secret payload c1)

  unfoldable pub send_trade_action :
      String → Completion → Client S → Client S × Result Fault (Unit {0})
  send_trade_action order_id completion c =
      send_with (require_trade_secret order_id c) order_id completion c

  unfoldable pub cancel_order : String → Client S → Result Fault (Unit {0})
  cancel_order order_id c = do
    secret ← require_trade_secret order_id c
    message ← build_trade_message order_id request_id Action.cancel none none
    kind ← exchange c secret message cancel_answers
    ok tt

  unfoldable pub open_dispute : String → Client S → Result Fault String
  open_dispute order_id c = do
    secret ← require_trade_secret order_id c
    message ← build_dispute_message order_id request_id
    kind ←
        exchange c secret message
          (Action.dispute_initiated_by_you ∷ Action.dispute_initiated_by_peer ∷ [])
    notification ← handle_dispute_notification kind
    ok notification.dispute_id

  unfoldable pub rate_user : String → ℤ → Client S → Result Fault (Unit {0})
  rate_user order_id rating c = do
    secret ← require_trade_secret order_id c
    message ← build_rate_user_message order_id request_id rating
    kind ← exchange c secret message (Action.rate_received ∷ [])
    handle_rate_user_response kind request_id
