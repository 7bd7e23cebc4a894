-- ===== src/Order.antt =====
-- src/protocol/order.ts: the order records and the checks of an order's amounts. A `number` of the
-- source is an integer here, as the Rust types that the file ports are.
pub mod Checks
use mostro_ts_client.Common.{
  String, Bool, true, false, ◌&&◌, ◌||◌, not, Option, none, some, List, [], ◌∷◌, if◌then◌else◌,
  ◌==◌, ◌!=◌, is_some, string_eq, or_default, Result, ok, err,
}
use mostro_ts_client.Common.Lists.{includes, is_nil}
use mostro_ts_client.Common.Int.{ℤ, pos, ltb_ℤ, leb_ℤ, int_eq}
use mostro_ts_client.Kind.{Kind}
use mostro_ts_client.Status.{Status}
use mostro_ts_client.CantDo.{
  CantDoReason, invalid_amount, invalid_parameters, invalid_fiat_currency,
}

-- the daemon's record
pub record Order : Type 0 where
  pub id : String
  pub kind : String
  pub event_id : String
  pub hash : Option String
  pub preimage : Option String
  pub creator_pubkey : String
  pub cancel_initiator_pubkey : Option String
  pub buyer_pubkey : Option String
  pub master_buyer_pubkey : Option String
  pub seller_pubkey : Option String
  pub master_seller_pubkey : Option String
  pub status : String
  pub price_from_api : Bool
  pub premium : ℤ
  pub payment_method : String
  pub amount : ℤ
  pub min_amount : Option ℤ
  pub max_amount : Option ℤ
  pub buyer_dispute : Bool
  pub seller_dispute : Bool
  pub buyer_cooperativecancel : Bool
  pub seller_cooperativecancel : Bool
  pub fee : ℤ
  pub routing_fee : ℤ
  pub dev_fee : ℤ
  pub dev_fee_paid : Bool
  pub dev_fee_payment_hash : Option String
  pub fiat_code : String
  pub fiat_amount : ℤ
  pub buyer_invoice : Option String
  pub range_parent_id : Option String
  pub invoice_held_at : ℤ
  pub taken_at : ℤ
  pub created_at : ℤ
  pub buyer_sent_rate : Bool
  pub seller_sent_rate : Bool
  pub failed_payment : Bool
  pub payment_attempts : ℤ
  pub expires_at : ℤ
  pub trade_index_seller : Option ℤ
  pub trade_index_buyer : Option ℤ
  pub next_trade_pubkey : Option String
  pub next_trade_index : Option ℤ
  pub cashu_mint_url : Option String
  pub cashu_escrow_token : Option String
  pub cashu_escrow_locked_at : Option ℤ

pub record MakerRating : Type 0 where
  pub total_reviews : ℤ
  pub total_rating : ℤ
  pub days : ℤ

-- the compact view of an order on the wire
pub record SmallOrder : Type 0 where
  pub id : Option String
  pub kind : Option Kind
  pub status : Option Status
  pub amount : ℤ
  pub fiat_code : String
  pub min_amount : Option ℤ
  pub max_amount : Option ℤ
  pub fiat_amount : ℤ
  pub payment_method : String
  pub premium : ℤ
  pub buyer_trade_pubkey : Option String
  pub seller_trade_pubkey : Option String
  pub buyer_invoice : Option String
  pub created_at : Option ℤ
  pub expires_at : Option ℤ
  pub rating : Option MakerRating

-- a check returns null or the reason of a refusal
unfoldable pub check_fiat_amount : SmallOrder → Option CantDoReason
check_fiat_amount order = if leb_ℤ order.fiat_amount (pos 0) then some invalid_amount else none

unfoldable pub check_amount : SmallOrder → Option CantDoReason
check_amount order = if ltb_ℤ order.amount (pos 0) then some invalid_amount else none

unfoldable pub check_zero_amount_with_premium : SmallOrder → Option CantDoReason
check_zero_amount_with_premium order =
    let has_premium = order.premium != pos 0 in
    let has_amount = order.amount != pos 0 in
    if has_premium && has_amount then some invalid_parameters else none

-- the tests on the bounds, once both are given
check_limits : ℤ → ℤ → ℤ → Result CantDoReason (Option (ℤ × ℤ))
check_limits amount min max =
    if ltb_ℤ min (pos 0) || ltb_ℤ max (pos 0)
    then err invalid_amount
    else if leb_ℤ max min
    then err invalid_amount
    else if amount != pos 0
    then err invalid_amount
    else ok (some (min, max))

range_limits : ℤ → Option ℤ → Option ℤ → Result CantDoReason (Option (ℤ × ℤ))
range_limits amount (some min) (some max) = check_limits amount min max
range_limits amount _ _ = ok none

unfoldable pub check_range_order_limits : SmallOrder → Result CantDoReason (Option (ℤ × ℤ))
unfolding range_limits check_limits
check_range_order_limits order = range_limits order.amount order.min_amount order.max_amount

unfoldable pub check_fiat_currency : SmallOrder → List String → Option CantDoReason
check_fiat_currency order accepted =
    if not (includes accepted order.fiat_code) && not (is_nil accepted)
    then some invalid_fiat_currency
    else none

unfoldable pub is_range_order : Order → Bool
is_range_order order = is_some order.min_amount && is_some order.max_amount
