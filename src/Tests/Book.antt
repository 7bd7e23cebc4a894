-- ===== src/Tests/Book.antt =====
-- Examples for the order book.
use mostro_ts_client.Common.{String, ◌≡◌, refl, Option, none, some, List, [], ◌∷◌, String-discrete}
use mathlib.Core.List.{Memᴰ}
use mostro_ts_client.Common.Text.{to_lower}
use mostro_ts_client.Common.Int.{ℤ, pos, ◌≤ℤ◌}
use mostro_ts_client.Kind.{buy, kind_from_string}
use mostro_ts_client.Status.{Status, status_from_string}
use mostro_ts_client.Order.{SmallOrder, MakerRating}
use mostro_ts_client.OrderBook.{
  OrderEvent, OrdersFilter, empty_order, snapshot, lookup, created, aggregate_latest_orders_by_id,
  order_from_tags, add_event, set,
}
use mostro_ts_client.OrderBook.Latest.{aggregate_newest, aggregate_complete}
use mostro_ts_client.Tests.{event_at}

abbrev unrated : String → Option MakerRating
unrated raw = none

abbrev seen : List OrderEvent
seen = event_at "o1" (pos 5) ∷ event_at "o1" (pos 9) ∷ event_at "o2" (pos 7) ∷ []

abbrev listed_at : ℤ → SmallOrder
listed_at at = record empty_order {
  id = some "o1";
  kind = some buy;
  status = some Status.pending;
  created_at = some at;
}

aggregate_newest_example :
    ((event : OrderEvent) × Memᴰ event seen
      × (snapshot unrated event ≡ some ("o1", listed_at (pos 9))))
    × ((event : OrderEvent) (o' : SmallOrder)
        → Memᴰ event seen
        → snapshot unrated event ≡ some ("o1", o')
        → created o' ≤ℤ created (listed_at (pos 9)))
unfolding aggregate_latest_orders_by_id lookup add_event set snapshot order_from_tags
    kind_from_string status_from_string to_lower String-discrete
aggregate_newest_example = aggregate_newest unrated "o1" seen (listed_at (pos 9)) refl

aggregate_complete_example :
    (kept : SmallOrder) × (lookup "o1" (aggregate_latest_orders_by_id unrated seen) ≡ some kept)
    × (created (listed_at (pos 5)) ≤ℤ created kept)
unfolding snapshot order_from_tags kind_from_string status_from_string to_lower String-discrete
aggregate_complete_example =
    aggregate_complete unrated "o1" seen (event_at "o1" (pos 5)) (listed_at (pos 5))
      (Memᴰ.head refl) refl

abbrev dollars : OrdersFilter
dollars = record { currencies = some ("USD" ∷ []); status = none; kind = none }
