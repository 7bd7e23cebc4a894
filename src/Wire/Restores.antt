-- ===== src/Wire/Restores.antt =====
-- The restore payloads that the readers of src/protocol/wire.ts return.
use mostro_ts_client.Common.{◌≤◌, string_eq}
use mostro_ts_client.Common.Lists.{All, length}
use mostro_ts_client.Wire.{
  Value, get, fields_of, require_string, require_integer, optional_string, each, count,
  max_restore_items,
}
use mostro_ts_client.Wire.Decoded.{DecodedRestoredDispute, DecodedRestore}
use mostro_ts_client.Wire.Fits.{FitsText, FitsIndex, Maybe, FitsRestoredOrder}
use mostro_ts_client.Wire.Parts.{
  restored_order_from_json, restored_dispute_from_json, restore_session_info_from_json,
  array_or_empty,
}
use mostro_ts_client.Wire.Returns.{
  Returns, any, bind-Returns, ok-Returns, string-Returns, integer-Returns, or_null-Returns,
  each-Returns, throw_if-Returns,
}

restored_order-Returns : (v : Value) → Returns FitsRestoredOrder (restored_order_from_json v)
unfolding restored_order_from_json
restored_order-Returns v = bind-Returns _ _ (fields_of v) _ (any (fields_of v)) (λ r _.
    bind-Returns _ _ (require_string (get "order_id" r)) _ (string-Returns _) (λ id p.
      bind-Returns _ _ (require_integer (get "trade_index" r)) _ (integer-Returns _) (λ index q.
        bind-Returns _ _ (require_string (get "status" r)) _ (string-Returns _)
          (λ status t. ok-Returns _ _ (p, q, t)))))

-- a dispute of a restore that the readers have checked
pub record Checked (d : DecodedRestoredDispute) : Type 0 where
  pub dispute : FitsText d.dispute_id
  pub order : FitsText d.order_id
  pub index : FitsIndex d.trade_index
  pub status : FitsText d.status
  pub solver : Maybe FitsText d.solver_pubkey

restored_dispute-Returns : (v : Value) → Returns Checked (restored_dispute_from_json v)
unfolding restored_dispute_from_json optional_string
restored_dispute-Returns v = bind-Returns _ _ (fields_of v) _ (any (fields_of v)) (λ r _.
    bind-Returns _ _ (require_string (get "dispute_id" r)) _ (string-Returns _) (λ id p.
      bind-Returns _ _ (require_string (get "order_id" r)) _ (string-Returns _) (λ order q.
        bind-Returns _ _ (require_integer (get "trade_index" r)) _ (integer-Returns _) (λ index t.
          bind-Returns _ _ (require_string (get "status" r)) _ (string-Returns _) (λ status u.
            bind-Returns _ _ (optional_string (get "solver_pubkey" r)) _
              (or_null-Returns FitsText require_string string-Returns _)
              (λ solver w.
                ok-Returns _ _
                  (record { dispute = p; order = q; index = t; status = u; solver = w })))))))

pub record Bounded (r : DecodedRestore) : Type 0 where
  pub orders : All FitsRestoredOrder r.orders
  pub disputes : All Checked r.disputes
  pub few_orders : length r.orders ≤ max_restore_items
  pub few_disputes : length r.disputes ≤ max_restore_items

pub restore-Returns : (v : Value) → Returns Bounded (restore_session_info_from_json v)
unfolding restore_session_info_from_json
restore-Returns v = bind-Returns _ _ (fields_of v) _ (any (fields_of v)) (λ o _.
    bind-Returns _ _ (array_or_empty (get "orders" o)) _ (any _) (λ xs _.
      bind-Returns _ _ (array_or_empty (get "disputes" o)) _ (any _) (λ ys _.
        bind-Returns _ _ _ _ (throw_if-Returns (count xs) max_restore_items _) (λ _ few.
          bind-Returns _ _ _ _ (throw_if-Returns (count ys) max_restore_items _) (λ _ few'.
            bind-Returns _ _ (each restored_order_from_json xs) _
              (each-Returns _ _ restored_order-Returns xs)
              (λ orders p.
                bind-Returns _ _ (each restored_dispute_from_json ys) _
                  (each-Returns _ _ restored_dispute-Returns ys)
                  (λ disputes q. ok-Returns _ _ (record {
                    orders = p.0;
                    disputes = q.0;
                    few_orders = rw p.1 few;
                    few_disputes = rw q.1 few';
                  }))))))))
