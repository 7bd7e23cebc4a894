-- ===== src/Applicator.antt =====
-- src/protocol/applicator.ts: a decrypted message of a trade applied to the local database. The
-- database is any backend; `pubkey_from_secret` and `derive_conv_secret` (deriveChatKeys, its
-- convSecretHex) stand for the key derivations.
pub mod Candidate
pub mod Carried
pub mod Guarded
pub mod History
pub mod Refusal
pub mod Reads
use mostro_ts_client.Common.{
  String, Bool, true, false, ◌&&◌, ◌||◌, not, ◌≡◌, Option, none, some, if◌then◌else◌, ◌==◌, ◌!=◌,
  string_eq, or_default, or_else, is_some,
}
use mathlib.Core.Option
use mostro_ts_client.Common.Int.{ℤ, pos, int_eq}
use mostro_ts_client.Kind.{Kind, kind_to_string}
use mostro_ts_client.Status.{Status, status_to_string}
use mostro_ts_client.Action.{Action, action_eq}
use mostro_ts_client.StateMachine.{
  should_apply_status_transition, map_action_to_status, parse_status, parse_kind,
}
use mostro_ts_client.Order.{SmallOrder}
use mostro_ts_client.Message.{Payload, MessageKind, Message}
use mostro_ts_client.Store.{OrderRow, SaveOrderInput, Store, kept}

abbrev pub order_in : Option Payload → Option SmallOrder
order_in (some (Payload.order o)) = some o
order_in _ = none

abbrev pub requested_in : Option Payload → Option SmallOrder
requested_in (some (Payload.payment_request o _ _)) = o
requested_in _ = none

abbrev pub payout_in : Option Payload → Option SmallOrder
payout_in (some (Payload.bond_payout_request b)) = some b.order
payout_in _ = none

unfoldable pub small_order_from_payload : Action → Option Payload → Option SmallOrder
small_order_from_payload Action.add_invoice p = order_in p
small_order_from_payload Action.buyer_took_order p = order_in p
small_order_from_payload Action.hold_invoice_payment_accepted p = order_in p
small_order_from_payload Action.new_order p = order_in p
small_order_from_payload Action.pay_invoice p = requested_in p
small_order_from_payload Action.pay_bond_invoice p = requested_in p
small_order_from_payload Action.add_bond_invoice p = payout_in p
small_order_from_payload _ p = none

-- the `switch` of `resolvedStatusCandidate` for a message with no order
status_of_action : Action → Option String
status_of_action Action.canceled = some "canceled"
status_of_action Action.cooperative_cancel_accepted = some "cooperatively-canceled"
status_of_action Action.waiting_buyer_invoice = some "waiting-buyer-invoice"
status_of_action Action.add_invoice = some "waiting-buyer-invoice"
status_of_action Action.waiting_seller_to_pay = some "waiting-payment"
status_of_action Action.pay_invoice = some "waiting-payment"
status_of_action Action.pay_bond_invoice = some "waiting-taker-bond"
status_of_action Action.admin_canceled = some "canceled-by-admin"
status_of_action Action.fiat_sent_ok = some "fiat-sent"
status_of_action Action.release = some "settled-hold-invoice"
status_of_action Action.released = some "settled-hold-invoice"
status_of_action Action.hold_invoice_payment_settled = some "settled-hold-invoice"
status_of_action Action.purchase_completed = some "success"
status_of_action Action.dispute_initiated_by_you = some "dispute"
status_of_action Action.dispute_initiated_by_peer = some "dispute"
status_of_action _ = none

abbrev order_candidate : Action → SmallOrder → Option String
order_candidate action order =
    Option.map status_to_string (or_else (map_action_to_status action order) order.status)

unfoldable pub resolved_status_candidate : Action → Option Payload → Option String
unfolding small_order_from_payload status_of_action map_action_to_status
resolved_status_candidate action payload = elim (small_order_from_payload action payload) [
  | some order ↦ order_candidate action order
  | none ↦ status_of_action action
]

-- what `applyTradeDm` returns
pub record AppliedDmResult : Type 0 where
  pub order_id : String
  pub action : Action
  pub status : Option String
  pub dispute_id : Option String
  pub solver : Option (String × String)
  pub order_upserted : Bool

-- `statusCandidate ? parseStatus(statusCandidate) : null`, and the guard on it
abbrev transition_ok : Option Status → Option Status → Option Kind → Action → Bool
transition_ok current none kind action = false
transition_ok current (some candidate) kind action =
    action == Action.cant_do || should_apply_status_transition current candidate kind (some action)

-- the status that the message may apply
unfoldable pub applied_status : Option OrderRow → MessageKind → Option String
unfolding resolved_status_candidate should_apply_status_transition parse_status parse_kind
applied_status existing kind =
    let current = parse_status (kept (λ r. r.status) existing) in
    let kind_type = parse_kind (kept (λ r. r.kind) existing) in
    let status_candidate =
      if kind.action == Action.cant_do
      then none
      else resolved_status_candidate kind.action kind.payload in
    let candidate = parse_status status_candidate in
    if transition_ok current candidate kind_type kind.action then status_candidate else none

-- the counterpart, once the order names both sides: the side that is not this client's key
learned_counterparty : Option String → Option String → String → Option String → Option String
learned_counterparty (some buyer) (some seller) mine known =
    if buyer == "" || seller == ""
    then known
    else if buyer != mine
    then some buyer
    else if seller != mine
    then some seller
    else known
learned_counterparty _ _ mine known = known

-- `smallOrder && smallOrder.id`
pub identified : Option SmallOrder → Option SmallOrder
identified none = none
identified (some order) = elim order.id [
  | none ↦ none
  | some id ↦ if id == "" then none else some order
]

-- the dispute id that the message announces
pub announced : Action → Option Payload → Option String
announced Action.dispute_initiated_by_you (some (Payload.dispute id info)) = some id
announced Action.dispute_initiated_by_peer (some (Payload.dispute id info)) = some id
announced _ _ = none

module _ (store : Store) (pubkey_from_secret : String → String)
    (derive_conv_secret : String → String → String) where
  open store use {
    S, get_order, save_order, update_order_status, update_dispute_id, update_solver_chat,
  }

  -- the row that is saved for an order in the message
  pub snapshot :
      String → String → MessageKind → Option OrderRow → Option String → SmallOrder → SaveOrderInput
  snapshot order_id trade_secret kind existing applied order = record {
    id = order_id;
    kind = Option.map kind_to_string order.kind;
    status = or_else applied (kept (λ r. r.status) existing);
    amount = order.amount;
    fiat_code = order.fiat_code;
    min_amount = order.min_amount;
    max_amount = order.max_amount;
    fiat_amount = order.fiat_amount;
    payment_method = order.payment_method;
    premium = order.premium;
    trade_keys = or_default (kept (λ r. r.trade_keys) existing) "";
    counterparty_pubkey =
        learned_counterparty order.buyer_trade_pubkey order.seller_trade_pubkey
          (pubkey_from_secret trade_secret) (kept (λ r. r.counterparty_pubkey) existing);
    is_mine = or_default (Option.map (λ r. r.is_mine == pos 1) existing) false;
    buyer_invoice = order.buyer_invoice;
    request_id = kind.request_id;
    trade_index =
        or_default (or_else (kept (λ r. r.trade_index) existing) kind.trade_index) (pos 0);
    created_at = or_else (kept (λ r. r.created_at) existing) order.created_at;
    expires_at = order.expires_at;
  }

  -- the save, or the update of the status alone
  persist : String → String → MessageKind → Option OrderRow → Option String → S → S
  persist order_id trade_secret kind existing applied s =
      elim (identified (small_order_from_payload kind.action kind.payload)) [
        | some order ↦ (save_order (snapshot order_id trade_secret kind existing applied order) s).0
        | none ↦ elim applied [
          | none ↦ s
          | some status ↦ if status == "" then s else update_order_status order_id status s
        ]
      ]

  persist_dispute : String → Option String → S → S
  persist_dispute order_id none s = s
  persist_dispute order_id (some dispute_id) s = update_dispute_id order_id dispute_id s

  -- the solver that took the dispute, and the secret of the chat with them
  pub assigned : String → Action → Option Payload → Option (String × String)
  assigned trade_secret Action.admin_took_dispute (some (Payload.peer p)) =
      some (p.pubkey, derive_conv_secret trade_secret p.pubkey)
  assigned trade_secret _ _ = none

  persist_solver : String → Option (String × String) → S → S
  persist_solver order_id none s = s
  persist_solver order_id (some (pubkey, shared)) s = update_solver_chat order_id pubkey shared s

  unfoldable pub apply_trade_dm :
      (order_id trade_secret : String) → Message → S → S × AppliedDmResult
  unfolding persist snapshot learned_counterparty identified announced persist_dispute assigned
      persist_solver
  apply_trade_dm order_id trade_secret message s =
      let kind = message.value in
      let existing = get_order order_id s in
      let applied = applied_status existing kind in
      let s1 = persist order_id trade_secret kind existing applied s in
      let dispute_id = announced kind.action kind.payload in
      let s2 = persist_dispute order_id dispute_id s1 in
      let solver = assigned trade_secret kind.action kind.payload in
      let s3 = persist_solver order_id solver s2 in
      (
        s3,
        record {
          order_id = order_id;
          action = kind.action;
          status = applied;
          dispute_id = dispute_id;
          solver = solver;
          order_upserted = is_some (identified (small_order_from_payload kind.action kind.payload));
        },
      )
