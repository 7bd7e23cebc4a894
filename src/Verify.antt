-- ===== src/Verify.antt =====
-- src/protocol/verify.ts: the consistency of a message, and what is read out of its payload.
pub mod Laws
use mostro_ts_client.Common.{
  String, Bool, true, false, ◌&&◌, ◌||◌, not, Option, none, some, List, [], ◌∷◌, if◌then◌else◌,
  is_some, Result, ok, err,
}
use mostro_ts_client.Common.Lists.{includes, is_nil}
use mostro_ts_client.Common.Int.{ℤ, pos, ltb_ℤ}
use mostro_ts_client.Action.{Action, action_eq}
use mostro_ts_client.Order.{SmallOrder}
use mostro_ts_client.Message.{Payload, MessageKind, Message}
use mostro_ts_client.Fault.{Fault, not_next_trade, rating_payload, rating_value}

-- the actions that require an id and forbid the two bond payloads
abbrev pub other_actions : List Action
other_actions =
    Action.take_sell ∷ Action.take_buy ∷ Action.fiat_sent ∷ Action.fiat_sent_ok ∷ Action.release
    ∷ Action.released ∷ Action.dispute ∷ Action.admin_canceled ∷ Action.admin_settled ∷ Action.rate
    ∷ Action.rate_received ∷ Action.admin_take_dispute ∷ Action.admin_took_dispute
    ∷ Action.dispute_initiated_by_you ∷ Action.dispute_initiated_by_peer
    ∷ Action.waiting_buyer_invoice ∷ Action.purchase_completed ∷ Action.bond_payout_completed
    ∷ Action.bond_slashed ∷ Action.hold_invoice_payment_accepted
    ∷ Action.hold_invoice_payment_settled ∷ Action.hold_invoice_payment_canceled
    ∷ Action.waiting_seller_to_pay ∷ Action.buyer_took_order ∷ Action.buyer_invoice_accepted
    ∷ Action.bond_invoice_accepted ∷ Action.cooperative_cancel_initiated_by_you
    ∷ Action.cooperative_cancel_initiated_by_peer ∷ Action.cooperative_cancel_accepted
    ∷ Action.cancel ∷ Action.invoice_updated ∷ Action.admin_add_solver ∷ Action.send_dm
    ∷ Action.trade_pubkey ∷ Action.cashu_escrow_locked ∷ Action.canceled ∷ []

-- `payload !== null && payload.variant === v`, for each variant that is tested
abbrev pub carries_order : Option Payload → Bool
carries_order (some (Payload.order _)) = true
carries_order _ = false

abbrev pub carries_payment_request : Option Payload → Bool
carries_payment_request (some (Payload.payment_request _ _ _)) = true
carries_payment_request _ = false

abbrev pub carries_bond_payout_request : Option Payload → Bool
carries_bond_payout_request (some (Payload.bond_payout_request _)) = true
carries_bond_payout_request _ = false

abbrev pub carries_bond_resolution : Option Payload → Bool
carries_bond_resolution (some (Payload.bond_resolution _)) = true
carries_bond_resolution _ = false

abbrev pub carries_cashu_lock_proof : Option Payload → Bool
carries_cashu_lock_proof (some (Payload.cashu_lock_proof _)) = true
carries_cashu_lock_proof _ = false

abbrev pub carries_payment_failed : Option Payload → Bool
carries_payment_failed (some (Payload.payment_failed _)) = true
carries_payment_failed _ = false

abbrev pub carries_rating_user : Option Payload → Bool
carries_rating_user (some (Payload.rating_user _)) = true
carries_rating_user _ = false

abbrev pub carries_cant_do : Option Payload → Bool
carries_cant_do (some (Payload.cant_do _)) = true
carries_cant_do _ = false

abbrev pub carries_ids : Option Payload → Bool
carries_ids (some (Payload.ids _)) = true
carries_ids _ = false

abbrev pub carries_orders : Option Payload → Bool
carries_orders (some (Payload.orders _)) = true
carries_orders _ = false

-- with `payload.value.length > 0`
abbrev pub carries_signatures : Option Payload → Bool
carries_signatures (some (Payload.cashu_signatures sigs)) = not (is_nil sigs)
carries_signatures _ = false

-- the `switch` of `verifyMessageKind`; the last clause is `default`
verify_action : Action → Option String → Option Payload → Bool
verify_action Action.new_order id p = carries_order p
verify_action Action.pay_invoice id p = if is_some id then carries_payment_request p else false
verify_action Action.pay_bond_invoice id p = if is_some id then carries_payment_request p else false
verify_action Action.add_invoice id p = if is_some id then carries_payment_request p else false
verify_action Action.add_bond_invoice id p =
    if is_some id then carries_bond_payout_request p || carries_payment_request p else false
verify_action Action.admin_settle id p =
    if is_some id then not (is_some p) || carries_bond_resolution p else false
verify_action Action.admin_cancel id p =
    if is_some id then not (is_some p) || carries_bond_resolution p else false
verify_action Action.add_cashu_escrow id p =
    if is_some id then carries_cashu_lock_proof p else false
verify_action Action.cashu_pm_signature id p = if is_some id then carries_signatures p else false
verify_action Action.last_trade_index id p = not (is_some p)
verify_action Action.restore_session id p = not (is_some p)
verify_action Action.payment_failed id p = if is_some id then carries_payment_failed p else false
verify_action Action.rate_user id p = carries_rating_user p
verify_action Action.cant_do id p = carries_cant_do p
verify_action Action.orders id p = carries_ids p || carries_orders p
verify_action action id p =
    if includes other_actions action
    then if is_some id
      then not (carries_bond_resolution p || carries_bond_payout_request p)
      else false
    else false

unfoldable pub verify_message_kind : MessageKind → Bool
unfolding verify_action
verify_message_kind kind = verify_action kind.action kind.id kind.payload

unfoldable pub verify_message : Message → Bool
verify_message message = verify_message_kind message.value

next_trade_of : Option Payload → Result Fault (Option (String × ℤ))
next_trade_of none = ok none
next_trade_of (some (Payload.next_trade pubkey index)) = ok (some (pubkey, index))
next_trade_of (some _) = err not_next_trade

unfoldable pub get_next_trade_key : MessageKind → Result Fault (Option (String × ℤ))
unfolding next_trade_of
get_next_trade_key kind = next_trade_of kind.payload

rating_of : Option Payload → Result Fault ℤ
rating_of (some (Payload.rating_user v)) =
    if ltb_ℤ v (pos 1) || ltb_ℤ (pos 5) v then err rating_value else ok v
rating_of _ = err rating_payload

unfoldable pub get_rating : MessageKind → Result Fault ℤ
unfolding rating_of
get_rating kind = rating_of kind.payload

order_of : Action → Option Payload → Option SmallOrder
order_of Action.new_order (some (Payload.order o)) = some o
order_of _ _ = none

unfoldable pub get_order : MessageKind → Option SmallOrder
unfolding order_of
get_order kind = order_of kind.action kind.payload

abbrev request_of : Option Payload → Option String
request_of (some (Payload.payment_request _ invoice _)) = some invoice
request_of (some (Payload.order o)) = o.buyer_invoice
request_of _ = none

payment_request_of : Action → Option Payload → Option String
payment_request_of Action.take_sell p = request_of p
payment_request_of Action.add_invoice p = request_of p
payment_request_of Action.add_bond_invoice p = request_of p
payment_request_of Action.new_order p = request_of p
payment_request_of _ p = none

unfoldable pub get_payment_request : MessageKind → Option String
unfolding payment_request_of
get_payment_request kind = payment_request_of kind.action kind.payload

abbrev override_of : Option Payload → Option ℤ
override_of (some (Payload.payment_request _ _ amount)) = amount
override_of (some (Payload.amount amount)) = some amount
override_of _ = none

amount_of : Action → Option Payload → Option ℤ
amount_of Action.take_sell p = override_of p
amount_of Action.take_buy p = override_of p
amount_of _ p = none

unfoldable pub get_amount : MessageKind → Option ℤ
unfolding amount_of
get_amount kind = amount_of kind.action kind.payload

unfoldable pub has_trade_index : MessageKind → Bool × ℤ
has_trade_index kind = elim kind.trade_index [ some index ↦ (true, index) | none ↦ (false, pos 0) ]
