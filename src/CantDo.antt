-- ===== src/CantDo.antt =====
-- src/protocol/cantDo.ts: the reasons of a refusal.
use mostro_ts_client.Common.{String, Option, List, [], ◌∷◌, ◌==◌, Eq, string_eq}
use mostro_ts_client.Common.Lists.{find_first}

pub data CantDoReason : Type 0 where
  invalid_signature invalid_trade_index invalid_amount invalid_invoice invalid_payment_request
        invalid_peer invalid_rating invalid_text_message invalid_order_kind invalid_order_status
        invalid_pubkey invalid_parameters invalid_payload order_already_canceled cant_create_user
        is_not_your_order not_allowed_by_status out_of_range_fiat_amount out_of_range_sats_amount
        price_too_stale is_not_your_dispute dispute_taken_by_admin not_authorized
        dispute_creation_error not_found invalid_dispute_status invalid_action pending_order_exists
        invalid_fiat_currency too_many_requests invalid_cashu_token cashu_mint_unavailable
        invalid_mint_url cashu_escrow_not_locked cashu_signature_missing :
      CantDoReason

unfoldable pub CantDoReason-discrete : Discrete CantDoReason
CantDoReason-discrete = hlevel

instance abbrev pub cant_do_reason_eq : Eq CantDoReason
cant_do_reason_eq = record { dec = CantDoReason-discrete }

-- the value on the wire
unfoldable pub cant_do_reason_to_string : CantDoReason → String
cant_do_reason_to_string invalid_signature = "invalid_signature"
cant_do_reason_to_string invalid_trade_index = "invalid_trade_index"
cant_do_reason_to_string invalid_amount = "invalid_amount"
cant_do_reason_to_string invalid_invoice = "invalid_invoice"
cant_do_reason_to_string invalid_payment_request = "invalid_payment_request"
cant_do_reason_to_string invalid_peer = "invalid_peer"
cant_do_reason_to_string invalid_rating = "invalid_rating"
cant_do_reason_to_string invalid_text_message = "invalid_text_message"
cant_do_reason_to_string invalid_order_kind = "invalid_order_kind"
cant_do_reason_to_string invalid_order_status = "invalid_order_status"
cant_do_reason_to_string invalid_pubkey = "invalid_pubkey"
cant_do_reason_to_string invalid_parameters = "invalid_parameters"
cant_do_reason_to_string invalid_payload = "invalid_payload"
cant_do_reason_to_string order_already_canceled = "order_already_canceled"
cant_do_reason_to_string cant_create_user = "cant_create_user"
cant_do_reason_to_string is_not_your_order = "is_not_your_order"
cant_do_reason_to_string not_allowed_by_status = "not_allowed_by_status"
cant_do_reason_to_string out_of_range_fiat_amount = "out_of_range_fiat_amount"
cant_do_reason_to_string out_of_range_sats_amount = "out_of_range_sats_amount"
cant_do_reason_to_string price_too_stale = "price_too_stale"
cant_do_reason_to_string is_not_your_dispute = "is_not_your_dispute"
cant_do_reason_to_string dispute_taken_by_admin = "dispute_taken_by_admin"
cant_do_reason_to_string not_authorized = "not_authorized"
cant_do_reason_to_string dispute_creation_error = "dispute_creation_error"
cant_do_reason_to_string not_found = "not_found"
cant_do_reason_to_string invalid_dispute_status = "invalid_dispute_status"
cant_do_reason_to_string invalid_action = "invalid_action"
cant_do_reason_to_string pending_order_exists = "pending_order_exists"
cant_do_reason_to_string invalid_fiat_currency = "invalid_fiat_currency"
cant_do_reason_to_string too_many_requests = "too_many_requests"
cant_do_reason_to_string invalid_cashu_token = "invalid_cashu_token"
cant_do_reason_to_string cashu_mint_unavailable = "cashu_mint_unavailable"
cant_do_reason_to_string invalid_mint_url = "invalid_mint_url"
cant_do_reason_to_string cashu_escrow_not_locked = "cashu_escrow_not_locked"
cant_do_reason_to_string cashu_signature_missing = "cashu_signature_missing"

-- `Object.values(CantDoReason)`
abbrev pub all_reasons : List CantDoReason
all_reasons =
    invalid_signature ∷ invalid_trade_index ∷ invalid_amount ∷ invalid_invoice
    ∷ invalid_payment_request ∷ invalid_peer ∷ invalid_rating ∷ invalid_text_message
    ∷ invalid_order_kind ∷ invalid_order_status ∷ invalid_pubkey ∷ invalid_parameters
    ∷ invalid_payload ∷ order_already_canceled ∷ cant_create_user ∷ is_not_your_order
    ∷ not_allowed_by_status ∷ out_of_range_fiat_amount ∷ out_of_range_sats_amount ∷ price_too_stale
    ∷ is_not_your_dispute ∷ dispute_taken_by_admin ∷ not_authorized ∷ dispute_creation_error
    ∷ not_found ∷ invalid_dispute_status ∷ invalid_action ∷ pending_order_exists
    ∷ invalid_fiat_currency ∷ too_many_requests ∷ invalid_cashu_token ∷ cashu_mint_unavailable
    ∷ invalid_mint_url ∷ cashu_escrow_not_locked ∷ cashu_signature_missing ∷ []

-- the value whose text is `s`: `includes` over the values, then the cast
unfoldable pub cant_do_reason_from_string : String → Option CantDoReason
cant_do_reason_from_string s = find_first (λ a. cant_do_reason_to_string a == s) all_reasons
