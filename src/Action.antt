-- ===== src/Action.antt =====
-- src/protocol/action.ts: the verb of a message.
use mostro_ts_client.Common.{String, Option, List, [], ◌∷◌, ◌==◌, Eq, string_eq}
use mostro_ts_client.Common.Lists.{find_first}

pub data Action : Type 0 where
  new_order take_sell take_buy pay_invoice pay_bond_invoice fiat_sent fiat_sent_ok release released
        cancel canceled cooperative_cancel_initiated_by_you cooperative_cancel_initiated_by_peer
        dispute_initiated_by_you dispute_initiated_by_peer cooperative_cancel_accepted
        buyer_invoice_accepted bond_invoice_accepted purchase_completed bond_payout_completed
        bond_slashed hold_invoice_payment_accepted hold_invoice_payment_settled
        hold_invoice_payment_canceled waiting_seller_to_pay waiting_buyer_invoice add_invoice
        add_bond_invoice buyer_took_order rate rate_user rate_received cant_do dispute admin_cancel
        admin_canceled admin_settle admin_settled admin_add_solver admin_take_dispute
        admin_took_dispute payment_failed invoice_updated send_dm trade_pubkey restore_session
        last_trade_index orders add_cashu_escrow cashu_escrow_locked cashu_pm_signature :
      Action

unfoldable pub Action-discrete : Discrete Action
Action-discrete = hlevel

instance abbrev pub action_eq : Eq Action
action_eq = record { dec = Action-discrete }

-- the value on the wire
unfoldable pub action_to_string : Action → String
action_to_string new_order = "new-order"
action_to_string take_sell = "take-sell"
action_to_string take_buy = "take-buy"
action_to_string pay_invoice = "pay-invoice"
action_to_string pay_bond_invoice = "pay-bond-invoice"
action_to_string fiat_sent = "fiat-sent"
action_to_string fiat_sent_ok = "fiat-sent-ok"
action_to_string release = "release"
action_to_string released = "released"
action_to_string cancel = "cancel"
action_to_string canceled = "canceled"
action_to_string cooperative_cancel_initiated_by_you = "cooperative-cancel-initiated-by-you"
action_to_string cooperative_cancel_initiated_by_peer = "cooperative-cancel-initiated-by-peer"
action_to_string dispute_initiated_by_you = "dispute-initiated-by-you"
action_to_string dispute_initiated_by_peer = "dispute-initiated-by-peer"
action_to_string cooperative_cancel_accepted = "cooperative-cancel-accepted"
action_to_string buyer_invoice_accepted = "buyer-invoice-accepted"
action_to_string bond_invoice_accepted = "bond-invoice-accepted"
action_to_string purchase_completed = "purchase-completed"
action_to_string bond_payout_completed = "bond-payout-completed"
action_to_string bond_slashed = "bond-slashed"
action_to_string hold_invoice_payment_accepted = "hold-invoice-payment-accepted"
action_to_string hold_invoice_payment_settled = "hold-invoice-payment-settled"
action_to_string hold_invoice_payment_canceled = "hold-invoice-payment-canceled"
action_to_string waiting_seller_to_pay = "waiting-seller-to-pay"
action_to_string waiting_buyer_invoice = "waiting-buyer-invoice"
action_to_string add_invoice = "add-invoice"
action_to_string add_bond_invoice = "add-bond-invoice"
action_to_string buyer_took_order = "buyer-took-order"
action_to_string rate = "rate"
action_to_string rate_user = "rate-user"
action_to_string rate_received = "rate-received"
action_to_string cant_do = "cant-do"
action_to_string dispute = "dispute"
action_to_string admin_cancel = "admin-cancel"
action_to_string admin_canceled = "admin-canceled"
action_to_string admin_settle = "admin-settle"
action_to_string admin_settled = "admin-settled"
action_to_string admin_add_solver = "admin-add-solver"
action_to_string admin_take_dispute = "admin-take-dispute"
action_to_string admin_took_dispute = "admin-took-dispute"
action_to_string payment_failed = "payment-failed"
action_to_string invoice_updated = "invoice-updated"
action_to_string send_dm = "send-dm"
action_to_string trade_pubkey = "trade-pubkey"
action_to_string restore_session = "restore-session"
action_to_string last_trade_index = "last-trade-index"
action_to_string orders = "orders"
action_to_string add_cashu_escrow = "add-cashu-escrow"
action_to_string cashu_escrow_locked = "cashu-escrow-locked"
action_to_string cashu_pm_signature = "cashu-pm-signature"

-- `Object.values(Action)`
abbrev pub all_actions : List Action
all_actions =
    new_order ∷ take_sell ∷ take_buy ∷ pay_invoice ∷ pay_bond_invoice ∷ fiat_sent ∷ fiat_sent_ok
    ∷ release ∷ released ∷ cancel ∷ canceled ∷ cooperative_cancel_initiated_by_you
    ∷ cooperative_cancel_initiated_by_peer ∷ dispute_initiated_by_you ∷ dispute_initiated_by_peer
    ∷ cooperative_cancel_accepted ∷ buyer_invoice_accepted ∷ bond_invoice_accepted
    ∷ purchase_completed ∷ bond_payout_completed ∷ bond_slashed ∷ hold_invoice_payment_accepted
    ∷ hold_invoice_payment_settled ∷ hold_invoice_payment_canceled ∷ waiting_seller_to_pay
    ∷ waiting_buyer_invoice ∷ add_invoice ∷ add_bond_invoice ∷ buyer_took_order ∷ rate ∷ rate_user
    ∷ rate_received ∷ cant_do ∷ dispute ∷ admin_cancel ∷ admin_canceled ∷ admin_settle
    ∷ admin_settled ∷ admin_add_solver ∷ admin_take_dispute ∷ admin_took_dispute ∷ payment_failed
    ∷ invoice_updated ∷ send_dm ∷ trade_pubkey ∷ restore_session ∷ last_trade_index ∷ orders
    ∷ add_cashu_escrow ∷ cashu_escrow_locked ∷ cashu_pm_signature ∷ []

-- the value whose text is `s`: `includes` over the values, then the cast
unfoldable pub action_from_string : String → Option Action
action_from_string s = find_first (λ a. action_to_string a == s) all_actions
