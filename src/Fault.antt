-- ===== src/Fault.antt =====
-- What the calls throw: an `Error` by its message, a `CantDoError` with its two fields.
use mostro_ts_client.Common.{String, Option}
use mostro_ts_client.Common.Int.{ℤ}
use mostro_ts_client.Action.{Action}
use mostro_ts_client.CantDo.{CantDoReason}

pub data Fault : Type 0 where
  not_next_trade rating_payload rating_value : Fault
  null_request_id mismatched_request_id : Fault
  unexpected_action : Action → Fault
  no_payload : Action → Fault
  failed_verification : Action → Fault
  cant_do_error : Option CantDoReason → Option ℤ → Fault
  minimum_expiration kind_not_specified : Fault
  rating_out_of_range : ℤ → Fault
  missing_order_id missing_dispute_payload : Fault
  invalid_invoice : Fault
  foreign_sender : String → Fault
  restore_refused : Option CantDoReason → Fault
  no_restore_data : Fault
  not_an_object not_an_array not_one_key not_a_string string_too_long : Fault
  not_a_number not_an_index not_a_boolean type_error too_many_items : Fault
  unknown_variant : String → Fault
  wrong_array_length : Fault
  not_direct_message malformed_tuple missing_signature : Fault
  bad_trade_signature bad_identity_signature : Fault
  foreign_conversation wrong_p_tag dated_in_future oversized unsigned_event : Fault
  bad_outer_signature not_decrypted not_a_party not_text_note stale_rewrap : Fault
  bad_inner_signature : Fault
  invalid_url insecure_http unsupported_scheme private_host : Fault
  not_lightning_address not_lnurl_service below_minimum above_maximum : Fault
  foreign_callback no_invoice amountless_invoice wrong_invoice_amount : Fault
  no_active_trade not_started reply_timed_out no_counterpart no_solver not_live : Fault
