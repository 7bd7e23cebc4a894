-- ===== src/OrderBook/Listing.antt =====
-- The listings of the order book: what they hold, and in which order.
use mostro_ts_client.Common.{
  String, Bool, ◌≡◌, refl, sym, ap, Option, none, some, List, [], ◌∷◌, string_eq, option_eq,
}
use mostro_ts_client.Common.Lists.{keep}
use mostro_ts_client.Common.Sort.{sort_by}
use mostro_ts_client.Status.{Status, status_eq}
use mostro_ts_client.Order.{SmallOrder, MakerRating}
use mostro_ts_client.OrderBook.{
  OrderEvent, listed_before, values, matches, is_pending, aggregate_latest_orders_by_id,
  pending_orders_for_book, parse_orders_events,
}

keep_ext :
    {A : Type 0} (p q : A → Bool) (xs : List A) → ((a : A) → p a ≡ q a) → keep p xs ≡ keep q xs
keep_ext p q [] h = refl
keep_ext p q (x ∷ xs) h = rw (h x, keep_ext p q xs h)

pending_matches :
    (currencies : Option (List String)) (order : SmallOrder)
    → matches (record { currencies = currencies; status = some Status.pending; kind = none }) order
      ≡ is_pending currencies order
pending_matches currencies order = refl

-- The pending listing of a book is the filtered listing for the pending status and the same currencies.
pub pending_orders_are_parsed :
    (rating : String → Option MakerRating) (events : List OrderEvent)
    (currencies : Option (List String))
    → pending_orders_for_book (aggregate_latest_orders_by_id rating events) currencies
      ≡ parse_orders_events rating events
          (record { currencies = currencies; status = some Status.pending; kind = none })
unfolding pending_orders_for_book parse_orders_events
pending_orders_are_parsed rating events currencies = ap (sort_by listed_before) (
    sym (
      keep_ext
        (matches (record { currencies = currencies; status = some Status.pending; kind = none }))
        (is_pending currencies) (values (aggregate_latest_orders_by_id rating events))
        (pending_matches currencies)))
