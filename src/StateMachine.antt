-- ===== src/StateMachine.antt =====
-- src/protocol/stateMachine.ts: the status guard and the maps from actions to statuses.
pub mod Guard
use mostro_ts_client.Common.{
  ℕ, String, Bool, true, false, ◌&&◌, Option, none, some, if◌then◌else◌, ◌==◌, leb, option_eq,
  or_else, string_eq, String-discrete,
}
use mostro_ts_client.Kind.{Kind, buy, sell, kind_from_string}
use mostro_ts_client.Status.{
  Status, status_eq, active, canceled, canceled_by_admin, settled_by_admin, completed_by_admin,
  dispute, expired, fiat_sent, settled_hold_invoice, pending, success, waiting_buyer_invoice,
  waiting_payment, waiting_taker_bond, cooperatively_canceled, in_progress, waiting_maker_bond,
  status_from_string,
}
use mostro_ts_client.Action.{Action, action_eq}
use mostro_ts_client.Order.{SmallOrder}

-- statuses that are sticky once reached
unfoldable pub is_terminal_trade_status : Status → Bool
is_terminal_trade_status canceled = true
is_terminal_trade_status canceled_by_admin = true
is_terminal_trade_status settled_by_admin = true
is_terminal_trade_status completed_by_admin = true
is_terminal_trade_status expired = true
is_terminal_trade_status cooperatively_canceled = true
is_terminal_trade_status success = true
is_terminal_trade_status _ = false

-- `kind === "buy" ? b : kind === "sell" ? s : null`
abbrev by_kind : Option Kind → ℕ → ℕ → Option ℕ
by_kind none b s = none
by_kind (some buy) b s = some b
by_kind (some sell) b s = some s

unfoldable pub status_phase_rank_for_actor : Status → Option Kind → Option ℕ
status_phase_rank_for_actor pending kind = some 0
status_phase_rank_for_actor waiting_taker_bond kind = some 0
status_phase_rank_for_actor waiting_maker_bond kind = some 0
status_phase_rank_for_actor waiting_payment kind = by_kind kind 1 2
status_phase_rank_for_actor waiting_buyer_invoice kind = by_kind kind 2 1
status_phase_rank_for_actor in_progress kind = some 3
status_phase_rank_for_actor active kind = some 3
status_phase_rank_for_actor fiat_sent kind = some 4
status_phase_rank_for_actor settled_hold_invoice kind = some 5
status_phase_rank_for_actor dispute kind = some 6
status_phase_rank_for_actor success kind = some 7
status_phase_rank_for_actor _ kind = none

-- `curRank !== null && candRank !== null` and then `candRank >= curRank`; otherwise false
abbrev pub not_behind : Option ℕ → Option ℕ → Bool
not_behind (some cur) (some cand) = leb cur cand
not_behind _ _ = false

unfoldable pub should_apply_status_transition :
    Option Status → Status → Option Kind → Option Action → Bool
should_apply_status_transition none candidate kind action = true
should_apply_status_transition (some current) candidate kind action =
    if current == candidate
    then true
    else if is_terminal_trade_status current
    then action == some Action.add_invoice
      && current == success
      && candidate == settled_hold_invoice
    else if is_terminal_trade_status candidate
    then true
    else not_behind (status_phase_rank_for_actor current kind)
        (status_phase_rank_for_actor candidate kind)

unfoldable pub should_strictly_advance_status :
    Option Status → Status → Option Kind → Option Action → Bool
should_strictly_advance_status current candidate kind action =
    if current == some candidate
    then false
    else should_apply_status_transition current candidate kind action

unfoldable pub inferred_status_from_trade_action : Action → Option Status
inferred_status_from_trade_action Action.canceled = some canceled
inferred_status_from_trade_action Action.cooperative_cancel_accepted = some cooperatively_canceled
inferred_status_from_trade_action Action.waiting_buyer_invoice = some waiting_buyer_invoice
inferred_status_from_trade_action Action.add_invoice = some waiting_buyer_invoice
inferred_status_from_trade_action Action.waiting_seller_to_pay = some waiting_payment
inferred_status_from_trade_action Action.pay_invoice = some waiting_payment
inferred_status_from_trade_action Action.pay_bond_invoice = some waiting_taker_bond
inferred_status_from_trade_action Action.admin_canceled = some canceled_by_admin
inferred_status_from_trade_action Action.fiat_sent_ok = some fiat_sent
inferred_status_from_trade_action Action.release = some settled_hold_invoice
inferred_status_from_trade_action Action.released = some settled_hold_invoice
inferred_status_from_trade_action Action.hold_invoice_payment_settled = some settled_hold_invoice
inferred_status_from_trade_action Action.purchase_completed = some success
inferred_status_from_trade_action Action.dispute_initiated_by_you = some dispute
inferred_status_from_trade_action Action.dispute_initiated_by_peer = some dispute
inferred_status_from_trade_action _ = none

-- an explicit status of the order comes first
unfoldable pub map_action_to_status : Action → SmallOrder → Option Status
map_action_to_status action order = or_else order.status (inferred_status_from_trade_action action)

-- `if (!s) return null`, for the texts of a status and of a kind
unfoldable pub parse_status : Option String → Option Status
parse_status none = none
parse_status (some s) = if s == "" then none else status_from_string s

unfoldable pub parse_kind : Option String → Option Kind
parse_kind none = none
parse_kind (some s) = if s == "" then none else kind_from_string s
