-- ===== src/OrderBook.antt =====
-- src/protocol/orderbook.ts: the public order book, from the events on the relays to the listing.
-- `parse_maker_rating` stands for parseMakerRating, which reads JSON.
pub mod Parsing
pub mod Latest
pub mod Listing
use mostro_ts_client.Common.{
  String, Bool, true, false, ◌&&◌, not, Option, none, some, List, [], ◌∷◌, map, if◌then◌else◌, ◌==◌,
  string_eq, option_eq, or_default, or_else,
}
use mathlib.Core.Option
use mostro_ts_client.Common.Lists.{keep, includes}
use mostro_ts_client.Common.Sort.{sort_by}
use mostro_ts_client.Common.Int.{ℤ, pos, ltb_ℤ}
use mostro_ts_client.Kind.{Kind, kind_from_string, kind_eq}
use mostro_ts_client.Status.{Status, status_from_string, status_eq}
use mostro_ts_client.Order.{SmallOrder, MakerRating}
use Parsing.{parse_int_safe, has_dot, join}

abbrev pub empty_order : SmallOrder
empty_order = record {
  id = none;
  kind = none;
  status = none;
  amount = pos 0;
  fiat_code = "";
  min_amount = none;
  max_amount = none;
  fiat_amount = pos 0;
  payment_method = "";
  premium = pos 0;
  buyer_trade_pubkey = none;
  seller_trade_pubkey = none;
  buyer_invoice = none;
  created_at = none;
  expires_at = none;
  rating = none;
}

pub record OrderEvent : Type 0 where
  pub id : String
  pub pubkey : String
  pub created_at : ℤ
  pub tags : List (List String)

-- `values[0] ?? ""`
abbrev first_value : List String → String
first_value [] = ""
first_value (v ∷ values) = v

-- the amounts of the tag `fa`: two values are a range, one is an amount, and a decimal is skipped
fiat_amounts : List String → SmallOrder → SmallOrder
fiat_amounts values order = if has_dot (first_value values) then order else amounts values order
  where
    amounts : List String → SmallOrder → SmallOrder
    amounts (least ∷ most ∷ rest) order = record order {
      min_amount = parse_int_safe least;
      max_amount = parse_int_safe most;
    }
    amounts values order = record order {
      fiat_amount = or_default (parse_int_safe (first_value values)) (pos 0);
    }

abbrev pub created : SmallOrder → ℤ
created order = or_default order.created_at (pos 0)

-- the map of orders by id, in the order of their first event
abbrev pub Book : Type 0
Book = List (String × SmallOrder)

unfoldable pub lookup : String → Book → Option SmallOrder
lookup id [] = none
lookup id ((key, order) ∷ book) =
    let rest = lookup id book in if key == id then some order else rest

-- `latest.set(id, order)`
unfoldable pub set : String → SmallOrder → Book → Book
set id order [] = (id, order) ∷ []
set id order ((key, old) ∷ book) =
    let rest = set id order book in if key == id then (key, order) ∷ book else (key, old) ∷ rest

module _ (parse_maker_rating : String → Option MakerRating) where
  apply_tag : SmallOrder → List String → SmallOrder
  apply_tag order [] = order
  apply_tag order (key ∷ values) =
      let v = first_value values in
      if key == "d"
      then record order { id = if v == "" then none else some v }
      else if key == "k"
      then record order { kind = kind_from_string v }
      else if key == "f"
      then record order { fiat_code = v }
      else if key == "s"
      then record order { status = or_else (status_from_string v) (some Status.pending) }
      else if key == "amt"
      then record order { amount = or_default (parse_int_safe v) (pos 0) }
      else if key == "fa"
      then fiat_amounts values order
      else if key == "pm"
      then record order { payment_method = join values }
      else if key == "premium"
      then record order { premium = or_default (parse_int_safe v) (pos 0) }
      else if key == "rating"
      then record order { rating = or_else (parse_maker_rating v) order.rating }
      else order

  apply_tags : SmallOrder → List (List String) → SmallOrder
  apply_tags order [] = order
  apply_tags order (tag ∷ tags) = apply_tags (apply_tag order tag) tags

  unfoldable pub order_from_tags : List (List String) → SmallOrder
  unfolding apply_tags apply_tag fiat_amounts kind_from_string status_from_string parse_int_safe
      has_dot join
  order_from_tags tags = apply_tags empty_order tags

  -- the order of an event with its id, unless the event has no id or no kind
  unfoldable pub snapshot : OrderEvent → Option (String × SmallOrder)
  unfolding order_from_tags
  snapshot event =
      let order = order_from_tags event.tags in
      elim order.id [
        | none ↦ none
        | some id ↦ elim order.kind [
          | none ↦ none
          | some kind ↦ some (id, record order { created_at = some event.created_at })
        ]
      ]

  unfoldable pub add_event : Book → OrderEvent → Book
  unfolding snapshot lookup set
  add_event book event = elim (snapshot event) [
    | none ↦ book
    | some (id, order) ↦ elim (lookup id book) [
      | none ↦ set id order book
      | some existing ↦
          if ltb_ℤ (created existing) event.created_at then set id order book else book
    ]
  ]

  add_events : Book → List OrderEvent → Book
  add_events book [] = book
  add_events book (event ∷ events) = add_events (add_event book event) events

  unfoldable pub aggregate_latest_orders_by_id : List OrderEvent → Book
  unfolding add_events add_event
  aggregate_latest_orders_by_id events = add_events [] events

pub record OrdersFilter : Type 0 where
  pub currencies : Option (List String)
  pub status : Option Status
  pub kind : Option Kind

-- no list of currencies, an empty one, or one with the order's
abbrev pub accepts_currency : Option (List String) → SmallOrder → Bool
accepts_currency none order = true
accepts_currency (some []) order = true
accepts_currency (some (c ∷ cs)) order = includes (c ∷ cs) order.fiat_code

-- newest first
abbrev pub listed_before : SmallOrder → SmallOrder → Bool
listed_before x y = ltb_ℤ (created y) (created x)

abbrev pub values : Book → List SmallOrder
values [] = []
values ((id, order) ∷ book) = order ∷ values book

abbrev pub matches : OrdersFilter → SmallOrder → Bool
matches filter order =
    if or_default (Option.map (λ st. not (order.status == some st)) filter.status) false
    then false
    else if not (accepts_currency filter.currencies order)
    then false
    else if or_default (Option.map (λ k. not (order.kind == some k)) filter.kind) false
    then false
    else true

abbrev pub is_pending : Option (List String) → SmallOrder → Bool
is_pending currencies order =
    if not (order.status == some Status.pending)
    then false
    else if not (accepts_currency currencies order)
    then false
    else true

unfoldable pub pending_orders_for_book : Book → Option (List String) → List SmallOrder
unfolding sort_by
pending_orders_for_book latest currencies =
    sort_by listed_before (keep (is_pending currencies) (values latest))

module _ (parse_maker_rating : String → Option MakerRating) where
  unfoldable pub parse_orders_events : List OrderEvent → OrdersFilter → List SmallOrder
  unfolding aggregate_latest_orders_by_id sort_by
  parse_orders_events events filter =
      let latest = aggregate_latest_orders_by_id parse_maker_rating events in
      sort_by listed_before (keep (matches filter) (values latest))

  -- of the events that the relays returned, those of the instance
  unfoldable pub fetch_public_order_book :
      String → Option (List String) → List OrderEvent → List SmallOrder
  unfolding aggregate_latest_orders_by_id pending_orders_for_book
  fetch_public_order_book mostro_pubkey currencies returned =
      let events = keep (λ e. e.pubkey == mostro_pubkey) returned in
      pending_orders_for_book (aggregate_latest_orders_by_id parse_maker_rating events) currencies
