-- ===== src/Wire/Decoded.antt =====
-- What the readers of src/protocol/wire.ts return. A field that the code only casts to its type
-- holds any JSON value here, a `Value`; the other fields are checked.
use mostro_ts_client.Common.{String, Bool, Option, List}
use mostro_ts_client.Common.Int.{ℤ}
use mostro_ts_client.Message.{RestoredOrdersInfo, BondResolution, CashuProofSignature, Variant}
use mostro_ts_client.Wire.{Value, Number}

pub record DecodedOrder : Type 0 where
  pub id : Value
  pub kind : Value
  pub status : Value
  pub amount : Number
  pub fiat_code : String
  pub min_amount : Value
  pub max_amount : Value
  pub fiat_amount : Number
  pub payment_method : String
  pub premium : Number
  pub buyer_trade_pubkey : Value
  pub seller_trade_pubkey : Value
  pub buyer_invoice : Value
  pub created_at : Value
  pub expires_at : Value

pub record DecodedUserInfo : Type 0 where
  pub rating : Number
  pub reviews : Number
  pub operating_days : Number

pub record DecodedPeer : Type 0 where
  pub pubkey : String
  pub reputation : Option DecodedUserInfo

pub record DecodedDisputeInfo : Type 0 where
  pub id : String
  pub kind : String
  pub status : String
  pub hash : Value
  pub preimage : Value
  pub order_previous_status : String
  pub initiator_pubkey : String
  pub buyer_pubkey : Value
  pub seller_pubkey : Value
  pub initiator_full_privacy : Bool
  pub counterpart_full_privacy : Bool
  pub initiator_info : Option DecodedUserInfo
  pub counterpart_info : Option DecodedUserInfo
  pub premium : Number
  pub payment_method : String
  pub amount : Number
  pub fiat_amount : Number
  pub fee : Number
  pub routing_fee : Number
  pub buyer_invoice : Value
  pub invoice_held_at : Number
  pub taken_at : Number
  pub created_at : Number

pub record DecodedPaymentFailed : Type 0 where
  pub payment_attempts : Number
  pub payment_retries_interval : Number

pub record DecodedRestoredDispute : Type 0 where
  pub dispute_id : String
  pub order_id : String
  pub trade_index : ℤ
  pub status : String
  pub initiator : Value
  pub solver_pubkey : Option String

pub record DecodedRestore : Type 0 where
  pub orders : List RestoredOrdersInfo
  pub disputes : List DecodedRestoredDispute

pub record DecodedPayoutRequest : Type 0 where
  pub order : DecodedOrder
  pub slashed_at : Number

pub record DecodedLockProof : Type 0 where
  pub token : String
  pub mint_url : String
  pub buyer_pubkey : String
  pub seller_pubkey : String
  pub mostro_pubkey : String
  pub fee_token : Value

pub data DecodedPayload : Type 0 where
  order : DecodedOrder → DecodedPayload
  payment_request : Option DecodedOrder → String → Option Number → DecodedPayload
  text_message : String → DecodedPayload
  peer : DecodedPeer → DecodedPayload
  rating_user : Number → DecodedPayload
  amount : Number → DecodedPayload
  dispute : String → Option DecodedDisputeInfo → DecodedPayload
  cant_do : Option String → DecodedPayload
  next_trade : String → Number → DecodedPayload
  payment_failed : DecodedPaymentFailed → DecodedPayload
  restore_data : DecodedRestore → DecodedPayload
  ids : List String → DecodedPayload
  orders : List DecodedOrder → DecodedPayload
  bond_resolution : BondResolution → DecodedPayload
  bond_payout_request : DecodedPayoutRequest → DecodedPayload
  cashu_lock_proof : DecodedLockProof → DecodedPayload
  cashu_signatures : List CashuProofSignature → DecodedPayload

pub record DecodedKind : Type 0 where
  pub version : Number
  pub request_id : Option ℤ
  pub trade_index : Option ℤ
  pub id : Option String
  pub action : String
  pub payload : Option DecodedPayload

pub record DecodedMessage : Type 0 where
  pub variant : Variant
  pub value : DecodedKind
