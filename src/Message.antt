-- ===== src/Message.antt =====
-- src/protocol/message.ts, and the records of dispute.ts and user.ts that a message carries.
use mostro_ts_client.Common.{String, Bool, Option, none, List}
use mostro_ts_client.Common.Int.{ℤ, pos}
use mostro_ts_client.Action.{Action}
use mostro_ts_client.CantDo.{CantDoReason}
use mostro_ts_client.Order.{SmallOrder}

pub record UserInfo : Type 0 where
  pub rating : ℤ
  pub reviews : ℤ
  pub operating_days : ℤ

pub record SolverDisputeInfo : Type 0 where
  pub id : String
  pub kind : String
  pub status : String
  pub hash : Option String
  pub preimage : Option String
  pub order_previous_status : String
  pub initiator_pubkey : String
  pub buyer_pubkey : Option String
  pub seller_pubkey : Option String
  pub initiator_full_privacy : Bool
  pub counterpart_full_privacy : Bool
  pub initiator_info : Option UserInfo
  pub counterpart_info : Option UserInfo
  pub premium : ℤ
  pub payment_method : String
  pub amount : ℤ
  pub fiat_amount : ℤ
  pub fee : ℤ
  pub routing_fee : ℤ
  pub buyer_invoice : Option String
  pub invoice_held_at : ℤ
  pub taken_at : ℤ
  pub created_at : ℤ

pub record Peer : Type 0 where
  pub pubkey : String
  pub reputation : Option UserInfo

pub record PaymentFailedInfo : Type 0 where
  pub payment_attempts : ℤ
  pub payment_retries_interval : ℤ

pub record RestoredOrdersInfo : Type 0 where
  pub order_id : String
  pub trade_index : ℤ
  pub status : String

pub data DisputeInitiator : Type 0 where
  buyer seller : DisputeInitiator

pub record RestoredDisputesInfo : Type 0 where
  pub dispute_id : String
  pub order_id : String
  pub trade_index : ℤ
  pub status : String
  pub initiator : Option DisputeInitiator
  pub solver_pubkey : Option String

pub record RestoreSessionInfo : Type 0 where
  pub orders : List RestoredOrdersInfo
  pub disputes : List RestoredDisputesInfo

pub record BondResolution : Type 0 where
  pub slash_seller : Bool
  pub slash_buyer : Bool

pub record BondPayoutRequest : Type 0 where
  pub order : SmallOrder
  pub slashed_at : ℤ

pub record CashuLockProof : Type 0 where
  pub token : String
  pub mint_url : String
  pub buyer_pubkey : String
  pub seller_pubkey : String
  pub mostro_pubkey : String
  pub fee_token : Option String

pub record CashuProofSignature : Type 0 where
  pub secret : String
  pub signature : String

pub data Payload : Type 0 where
  order : SmallOrder → Payload
  payment_request : Option SmallOrder → String → Option ℤ → Payload
  text_message : String → Payload
  peer : Peer → Payload
  rating_user : ℤ → Payload
  amount : ℤ → Payload
  dispute : String → Option SolverDisputeInfo → Payload
  cant_do : Option CantDoReason → Payload
  next_trade : String → ℤ → Payload
  payment_failed : PaymentFailedInfo → Payload
  restore_data : RestoreSessionInfo → Payload
  ids : List String → Payload
  orders : List SmallOrder → Payload
  bond_resolution : BondResolution → Payload
  bond_payout_request : BondPayoutRequest → Payload
  cashu_lock_proof : CashuLockProof → Payload
  cashu_signatures : List CashuProofSignature → Payload

pub record MessageKind : Type 0 where
  pub version : ℤ
  pub request_id : Option ℤ
  pub trade_index : Option ℤ
  pub id : Option String
  pub action : Action
  pub payload : Option Payload

pub data Variant : Type 0 where
  order dispute cant_do rate dm restore : Variant

pub record Message : Type 0 where
  pub variant : Variant
  pub value : MessageKind

-- PROTOCOL_VER of constants.ts
abbrev pub protocol_ver : ℤ
protocol_ver = pos 2

abbrev pub new_message_kind :
    Option String → Option ℤ → Option ℤ → Action → Option Payload → MessageKind
new_message_kind id request_id trade_index action payload = record {
  version = protocol_ver;
  request_id = request_id;
  trade_index = trade_index;
  id = id;
  action = action;
  payload = payload;
}

abbrev pub new_order_message :
    Option String → Option ℤ → Option ℤ → Action → Option Payload → Message
new_order_message id request_id trade_index action payload = record {
  variant = Variant.order;
  value = new_message_kind id request_id trade_index action payload;
}

abbrev pub new_dispute_message :
    Option String → Option ℤ → Option ℤ → Action → Option Payload → Message
new_dispute_message id request_id trade_index action payload = record {
  variant = Variant.dispute;
  value = new_message_kind id request_id trade_index action payload;
}

abbrev pub new_restore_message : Option Payload → Message
new_restore_message payload = record {
  variant = Variant.restore;
  value = new_message_kind none none none Action.restore_session payload;
}

abbrev pub cant_do_message : Option String → Option ℤ → Option Payload → Message
cant_do_message id request_id payload = record {
  variant = Variant.cant_do;
  value = new_message_kind id request_id none Action.cant_do payload;
}

abbrev pub new_dm_message : Option String → Option ℤ → Action → Option Payload → Message
new_dm_message id request_id action payload = record {
  variant = Variant.dm;
  value = new_message_kind id request_id none action payload;
}

abbrev pub inner_action : Message → Action
inner_action message = message.value.action
