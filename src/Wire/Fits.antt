-- ===== src/Wire/Fits.antt =====
-- The messages that the readers of src/protocol/wire.ts take: the texts that they check are within
-- the limit, the indices are not negative, and a restore is not longer than they allow.
use mostro_ts_client.Common.{String, Option, none, some, ◌≤◌}
use mostro_ts_client.Common.Int.{ℤ, pos, ◌≤ℤ◌}
use mostro_ts_client.Common.Lists.{All, length}
use mostro_ts_client.Order.{SmallOrder}
use mostro_ts_client.Message.{
  SolverDisputeInfo, RestoredOrdersInfo, RestoredDisputesInfo, RestoreSessionInfo, CashuLockProof,
  CashuProofSignature, Payload, Message,
}
use mostro_ts_client.Wire.{utf16_length, max_string_length, max_restore_items}

abbrev pub FitsText : String → Type 0
FitsText s = utf16_length s ≤ max_string_length

abbrev pub FitsIndex : ℤ → Type 0
FitsIndex n = pos 0 ≤ℤ n

-- a value that is missing, or satisfies P
abbrev pub Maybe : {A : Type 0} → (A → Type 0) → Option A → Type 0
Maybe P none = Unit
Maybe P (some a) = P a

abbrev pub FitsOrder : SmallOrder → Type 0
FitsOrder o = FitsText o.fiat_code × FitsText o.payment_method

pub record FitsDispute (i : SolverDisputeInfo) : Type 0 where
  pub id : FitsText i.id
  pub kind : FitsText i.kind
  pub status : FitsText i.status
  pub previous : FitsText i.order_previous_status
  pub initiator : FitsText i.initiator_pubkey
  pub method : FitsText i.payment_method

abbrev pub FitsRestoredOrder : RestoredOrdersInfo → Type 0
FitsRestoredOrder o = FitsText o.order_id × FitsIndex o.trade_index × FitsText o.status

pub record FitsRestoredDispute (d : RestoredDisputesInfo) : Type 0 where
  pub dispute : FitsText d.dispute_id
  pub order : FitsText d.order_id
  pub index : FitsIndex d.trade_index
  pub status : FitsText d.status
  pub solver : Maybe FitsText d.solver_pubkey

pub record FitsRestore (info : RestoreSessionInfo) : Type 0 where
  pub orders : All FitsRestoredOrder info.orders
  pub disputes : All FitsRestoredDispute info.disputes
  pub few_orders : length info.orders ≤ max_restore_items
  pub few_disputes : length info.disputes ≤ max_restore_items

pub record FitsProof (p : CashuLockProof) : Type 0 where
  pub token : FitsText p.token
  pub mint : FitsText p.mint_url
  pub buyer : FitsText p.buyer_pubkey
  pub seller : FitsText p.seller_pubkey
  pub mostro : FitsText p.mostro_pubkey

abbrev pub FitsSignature : CashuProofSignature → Type 0
FitsSignature s = FitsText s.secret × FitsText s.signature

abbrev pub FitsPayload : Payload → Type 0
FitsPayload (Payload.order o) = FitsOrder o
FitsPayload (Payload.payment_request o invoice sats) = Maybe FitsOrder o × FitsText invoice
FitsPayload (Payload.text_message s) = FitsText s
FitsPayload (Payload.peer p) = FitsText p.pubkey
FitsPayload (Payload.rating_user n) = Unit
FitsPayload (Payload.amount n) = Unit
FitsPayload (Payload.dispute id info) = FitsText id × Maybe FitsDispute info
FitsPayload (Payload.cant_do reason) = Unit
FitsPayload (Payload.next_trade key index) = FitsText key
FitsPayload (Payload.payment_failed i) = Unit
FitsPayload (Payload.restore_data info) = FitsRestore info
FitsPayload (Payload.ids texts) = All FitsText texts
FitsPayload (Payload.orders os) = All FitsOrder os
FitsPayload (Payload.bond_resolution b) = Unit
FitsPayload (Payload.bond_payout_request r) = FitsOrder r.order
FitsPayload (Payload.cashu_lock_proof p) = FitsProof p
FitsPayload (Payload.cashu_signatures ss) = All FitsSignature ss

pub record FitsMessage (m : Message) : Type 0 where
  pub request_id : Maybe FitsIndex m.value.request_id
  pub trade_index : Maybe FitsIndex m.value.trade_index
  pub id : Maybe FitsText m.value.id
  pub payload : Maybe FitsPayload m.value.payload
