-- ===== src/Status.antt =====
-- src/protocol/status.ts and statusSets.ts: the status of an order, and the terminal sets.
use mostro_ts_client.Common.{
  String, Option, none, some, List, [], ◌∷◌, if◌then◌else◌, ◌==◌, Eq, string_eq,
}
use mostro_ts_client.Common.Text.{to_lower}

pub data Status : Type 0 where
  active canceled canceled_by_admin settled_by_admin completed_by_admin dispute expired fiat_sent
        settled_hold_invoice pending success waiting_buyer_invoice waiting_payment
        waiting_taker_bond cooperatively_canceled in_progress waiting_maker_bond :
      Status

unfoldable pub Status-discrete : Discrete Status
Status-discrete = hlevel

instance abbrev pub status_eq : Eq Status
status_eq = record { dec = Status-discrete }

-- the value on the wire
unfoldable pub status_to_string : Status → String
status_to_string active = "active"
status_to_string canceled = "canceled"
status_to_string canceled_by_admin = "canceled-by-admin"
status_to_string settled_by_admin = "settled-by-admin"
status_to_string completed_by_admin = "completed-by-admin"
status_to_string dispute = "dispute"
status_to_string expired = "expired"
status_to_string fiat_sent = "fiat-sent"
status_to_string settled_hold_invoice = "settled-hold-invoice"
status_to_string pending = "pending"
status_to_string success = "success"
status_to_string waiting_buyer_invoice = "waiting-buyer-invoice"
status_to_string waiting_payment = "waiting-payment"
status_to_string waiting_taker_bond = "waiting-taker-bond"
status_to_string cooperatively_canceled = "cooperatively-canceled"
status_to_string in_progress = "in-progress"
status_to_string waiting_maker_bond = "waiting-maker-bond"

-- the `switch` over the lower-case text
status_of_lower : String → Option Status
status_of_lower t =
    if t == "active"
    then some active
    else if t == "canceled"
    then some canceled
    else if t == "canceled-by-admin"
    then some canceled_by_admin
    else if t == "settled-by-admin"
    then some settled_by_admin
    else if t == "completed-by-admin"
    then some completed_by_admin
    else if t == "dispute"
    then some dispute
    else if t == "expired"
    then some expired
    else if t == "fiat-sent"
    then some fiat_sent
    else if t == "settled-hold-invoice"
    then some settled_hold_invoice
    else if t == "pending"
    then some pending
    else if t == "success"
    then some success
    else if t == "waiting-buyer-invoice"
    then some waiting_buyer_invoice
    else if t == "waiting-payment"
    then some waiting_payment
    else if t == "waiting-taker-bond"
    then some waiting_taker_bond
    else if t == "cooperatively-canceled"
    then some cooperatively_canceled
    else if t == "in-progress"
    then some in_progress
    else if t == "waiting-maker-bond"
    then some waiting_maker_bond
    else none

unfoldable pub status_from_string : String → Option Status
unfolding status_of_lower
status_from_string s = status_of_lower (to_lower s)

abbrev pub terminal_dm_statuses : List String
terminal_dm_statuses =
    "canceled" ∷ "canceled-by-admin" ∷ "settled-by-admin" ∷ "completed-by-admin" ∷ "expired"
    ∷ "cooperatively-canceled" ∷ []

abbrev pub terminal_order_history_statuses : List String
terminal_order_history_statuses =
    "success" ∷ "canceled" ∷ "canceled-by-admin" ∷ "settled-by-admin" ∷ "completed-by-admin"
    ∷ "expired" ∷ "cooperatively-canceled" ∷ []

abbrev pub order_history_bulk_delete_statuses : List String
order_history_bulk_delete_statuses = "success" ∷ "canceled" ∷ []
