-- ===== src/Wire/Orders.antt =====
-- Orders read back from their JSON form (src/protocol/wire.ts).
use mostro_ts_client.Common.{◌≡◌, refl, ap, ◌∙◌, ok, String-discrete, string_eq}
use mostro_ts_client.Order.{SmallOrder}
use mostro_ts_client.Kind.{kind_to_string}
use mostro_ts_client.Status.{status_to_string}
use mostro_ts_client.Wire.{string, int, nullable, get, cast}
use mostro_ts_client.Wire.Fits.{FitsOrder}
use mostro_ts_client.Wire.Parts.{small_order_from_json}
use mostro_ts_client.Wire.Single.{
  require_string-string, require_number-int, cast-get-optional, get-optional, cast-nullable-int,
  cast-nullable_text,
}
use mostro_ts_client.Wire.Typed.{decoded_order}
use mostro_ts_client.Wire.Write.{order_fields, small_order_to_json}

module _ (o : SmallOrder) where
  get_kind : get "kind" (order_fields o) ≡ nullable (λ k. string (kind_to_string k)) o.kind
  unfolding order_fields get String-discrete
  get_kind = get-optional _ _ _ _ refl refl

  get_status : get "status" (order_fields o) ≡ nullable (λ s. string (status_to_string s)) o.status
  unfolding order_fields get String-discrete
  get_status = get-optional _ _ _ _ refl refl

  get_amount : get "amount" (order_fields o) ≡ int o.amount
  unfolding order_fields get String-discrete
  get_amount = get-optional _ _ _ _ refl refl

  get_fiat_code : get "fiat_code" (order_fields o) ≡ string o.fiat_code
  unfolding order_fields get String-discrete
  get_fiat_code = get-optional _ _ _ _ refl refl

  get_min_amount : get "min_amount" (order_fields o) ≡ nullable int o.min_amount
  unfolding order_fields get String-discrete
  get_min_amount = get-optional _ _ _ _ refl refl

  get_max_amount : get "max_amount" (order_fields o) ≡ nullable int o.max_amount
  unfolding order_fields get String-discrete
  get_max_amount = get-optional _ _ _ _ refl refl

  get_fiat_amount : get "fiat_amount" (order_fields o) ≡ int o.fiat_amount
  unfolding order_fields get String-discrete
  get_fiat_amount = get-optional _ _ _ _ refl refl

  get_payment_method : get "payment_method" (order_fields o) ≡ string o.payment_method
  unfolding order_fields get String-discrete
  get_payment_method = get-optional _ _ _ _ refl refl

  get_premium : get "premium" (order_fields o) ≡ int o.premium
  unfolding order_fields get String-discrete
  get_premium = get-optional _ _ _ _ refl refl

  get_created_at : get "created_at" (order_fields o) ≡ nullable int o.created_at
  unfolding order_fields get String-discrete
  get_created_at =
      get-optional _ _ _ _ refl
        (get-optional _ _ _ _ refl (get-optional _ _ _ _ refl (get-optional _ _ _ _ refl refl)))

  get_expires_at : get "expires_at" (order_fields o) ≡ nullable int o.expires_at
  unfolding order_fields get String-discrete
  get_expires_at =
      get-optional _ _ _ _ refl
        (get-optional _ _ _ _ refl (get-optional _ _ _ _ refl (get-optional _ _ _ _ refl refl)))

  get_id : cast (get "id" (order_fields o)) ≡ nullable string o.id
  unfolding order_fields get String-discrete
  get_id =
      cast-get-optional _ _ _
        (get-optional _ _ _ _ refl (get-optional _ _ _ _ refl (get-optional _ _ _ _ refl refl)))

  get_buyer_trade_pubkey :
      cast (get "buyer_trade_pubkey" (order_fields o)) ≡ nullable string o.buyer_trade_pubkey
  unfolding order_fields get String-discrete
  get_buyer_trade_pubkey =
      ap cast (get-optional _ _ _ _ refl refl)
      ∙ cast-get-optional _ _ _ (get-optional _ _ _ _ refl (get-optional _ _ _ _ refl refl))

  get_seller_trade_pubkey :
      cast (get "seller_trade_pubkey" (order_fields o)) ≡ nullable string o.seller_trade_pubkey
  unfolding order_fields get String-discrete
  get_seller_trade_pubkey =
      ap cast (get-optional _ _ _ _ refl (get-optional _ _ _ _ refl refl))
      ∙ cast-get-optional _ _ _ (get-optional _ _ _ _ refl refl)

  get_buyer_invoice : cast (get "buyer_invoice" (order_fields o)) ≡ nullable string o.buyer_invoice
  unfolding order_fields get String-discrete
  get_buyer_invoice =
      ap cast
        (get-optional _ _ _ _ refl (get-optional _ _ _ _ refl (get-optional _ _ _ _ refl refl)))
      ∙ cast-get-optional _ _ _ refl

  pub order_read_back :
      FitsOrder o → small_order_from_json (small_order_to_json o) ≡ ok (decoded_order o)
  unfolding small_order_from_json small_order_to_json
  order_read_back (code, method) = rw (
    get_kind,
    get_status,
    get_amount,
    get_fiat_code,
    get_min_amount,
    get_max_amount,
    get_fiat_amount,
    get_payment_method,
    get_premium,
    get_created_at,
    get_expires_at,
    get_id,
    get_buyer_trade_pubkey,
    get_seller_trade_pubkey,
    get_buyer_invoice,
    require_number-int o.amount,
    require_string-string o.fiat_code code,
    require_number-int o.fiat_amount,
    require_string-string o.payment_method method,
    require_number-int o.premium,
    cast-nullable_text kind_to_string o.kind,
    cast-nullable_text status_to_string o.status,
    cast-nullable-int o.min_amount,
    cast-nullable-int o.max_amount,
    cast-nullable-int o.created_at,
    cast-nullable-int o.expires_at,
  )
