-- ===== src/OrderBook/Latest.antt =====
-- The newest snapshot of an order, and the book that the events make (`aggregateLatestOrdersById`).
use mostro_ts_client.Common.{
  String, ◌≡◌, refl, sym, ◌∙◌, ap, ◌⊎◌, ◌↔◌, Option, none, some, List, [], ◌∷◌, if◌then◌else◌, ◌==◌,
  string_eq, String-discrete, Option-cases, Bool-cases, inl, inr, arith, ==_of_eq, ==_of_ne,
}
use mathlib.Core.List.{Memᴰ}
use mostro_ts_client.Common.Int.{ℤ, ltb_ℤ, ◌≤ℤ◌}
use mostro_ts_client.Order.{SmallOrder, MakerRating}
use mostro_ts_client.OrderBook.{
  OrderEvent, Book, order_from_tags, snapshot, created, lookup, set, add_event, add_events,
  aggregate_latest_orders_by_id,
}

-- the later of two snapshots, the first of two of the same time
newer : Option SmallOrder → Option SmallOrder → Option SmallOrder
newer old none = old
newer none (some o) = some o
newer (some a) (some b) = if ltb_ℤ (created a) (created b) then some b else some a

nothing_newer : (o : Option SmallOrder) → o ≡ newer o none
unfolding newer
nothing_newer none = refl
nothing_newer (some o) = refl

-- the time in a snapshot, or the one given
abbrev created_in : ℤ → Option (String × SmallOrder) → ℤ
created_in t none = t
created_in t (some (key, o)) = created o

module _ (rating : String → Option MakerRating) (id : String) where
  -- the snapshot of the order with the id, in an event
  own_of : Option (String × SmallOrder) → Option SmallOrder
  own_of none = none
  own_of (some (key, order)) = if key == id then some order else none

  own : OrderEvent → Option SmallOrder
  unfolding own_of
  own event = own_of (snapshot rating event)

  newest : Option SmallOrder → List OrderEvent → Option SmallOrder
  newest old [] = old
  newest old (e ∷ es) = newest (newer old (own e)) es

  lookup-set :
      (key : String) (o : SmallOrder) (book : Book)
      → lookup id (set key o book) ≡ (if key == id then some o else lookup id book)
  unfolding lookup set
  lookup-set key o [] = ground arith
  lookup-set key o ((k, old) ∷ book) = ground (arith, lookup-set key o book)

  created-snapshot :
      (event : OrderEvent) (key : String) (o : SmallOrder)
      → snapshot rating event ≡ some (key, o)
      → created o ≡ event.created_at
  unfolding snapshot
  created-snapshot event key o e =
      let order = order_from_tags rating event.tags in
      elim (Option-cases order.id) [
        | inl n ↦ let skipped = rw (n, snapshot) at e in cc
        | inr (i, n) ↦ elim (Option-cases order.kind) [
          | inl m ↦ let skipped = rw (n, m, snapshot) at e in cc
          | inr (k, m) ↦
              let taken : ◌≡◌ {A = Option (String × SmallOrder)}
                  (some (i, record order { created_at = some event.created_at })) (some (key, o)) =
                rw (n, m, snapshot) at e in
              ap (created_in event.created_at) (sym taken)
        ]
      ]

  -- an entry written over an older one or none
  write_newer : String → SmallOrder → ℤ → Book → Book
  write_newer key o at book = elim (lookup key book) [
    | none ↦ set key o book
    | some existing ↦ if ltb_ℤ (created existing) at then set key o book else book
  ]

  lookup-write :
      (key : String) (o : SmallOrder) (at : ℤ) (book : Book)
      → created o ≡ at
      → lookup id (write_newer key o at book) ≡ newer (lookup id book) (own_of (some (key, o)))
  unfolding write_newer newer own_of
  lookup-write key o at book c = elim (Option-cases (lookup key book)) [
    | inl m ↦ elim (String-discrete key id) [
      | yes p ↦ rw (m, write_newer, lookup-set key o book, ==_of_eq key id p) (rw (rw p at m))
      | no n ↦ rw (m, write_newer, lookup-set key o book, ==_of_ne key id n)
    ]
    | inr (x, m) ↦ elim (Bool-cases (ltb_ℤ (created x) at)) [
      | inl l ↦ elim (String-discrete key id) [
        | yes p ↦
            rw (m, write_newer, l, lookup-set key o book, ==_of_eq key id p) (rw (rw p at m, c, l))
        | no n ↦ rw (m, write_newer, l, lookup-set key o book, ==_of_ne key id n)
      ]
      | inr l ↦ elim (String-discrete key id) [
        | yes p ↦ rw (m, write_newer, l, ==_of_eq key id p) (rw (rw p at m, c, l))
        | no n ↦ rw (m, write_newer, l, ==_of_ne key id n)
      ]
    ]
  ]

  lookup-add :
      (book : Book) (event : OrderEvent)
      → lookup id (add_event rating book event) ≡ newer (lookup id book) (own event)
  unfolding add_event own write_newer
  lookup-add book event = elim (Option-cases (snapshot rating event)) [
    | inl e ↦ rw (e, add_event, own) (nothing_newer (lookup id book))
    | inr ((key, o), e) ↦
        rw (e, add_event, own)
          (lookup-write key o event.created_at book (created-snapshot event key o e))
  ]

  lookup-adds :
      (events : List OrderEvent) (book : Book)
      → lookup id (add_events rating book events) ≡ newest (lookup id book) events
  unfolding add_events newest
  lookup-adds [] book = refl
  lookup-adds (e ∷ es) book = rw (lookup-adds es (add_event rating book e), lookup-add book e)

  -- what `newer` keeps is not older than what it is given
  newer_old :
      (a : SmallOrder) (given : Option SmallOrder)
      → (b : SmallOrder) × (newer (some a) given ≡ some b) × (created a ≤ℤ created b)
  unfolding newer
  newer_old a none = (a, refl, ground arith)
  newer_old a (some o) = elim (Bool-cases (ltb_ℤ (created a) (created o))) [
    | inl l ↦ (o, rw l, ground arith)
    | inr l ↦ (a, rw l, ground arith)
  ]

  newer_given :
      (old : Option SmallOrder) (o : SmallOrder)
      → (b : SmallOrder) × (newer old (some o) ≡ some b) × (created o ≤ℤ created b)
  unfolding newer
  newer_given none o = (o, refl, ground arith)
  newer_given (some a) o = elim (Bool-cases (ltb_ℤ (created a) (created o))) [
    | inl l ↦ (o, rw l, ground arith)
    | inr l ↦ (a, rw l, ground arith)
  ]

  newest_old :
      (a : SmallOrder) (events : List OrderEvent)
      → (b : SmallOrder) × (newest (some a) events ≡ some b) × (created a ≤ℤ created b)
  unfolding newest
  newest_old a [] = (a, refl, ground arith)
  newest_old a (e ∷ es) =
      let (b, same, le) = newer_old a (own e) in
      let (c, last, le') = newest_old b es in (c, rw same last, ground arith)

  newer_source :
      (old given : Option SmallOrder) → (newer old given ≡ old) ⊎ (newer old given ≡ given)
  unfolding newer
  newer_source old none = inl (sym (nothing_newer old) ∙ refl)
  newer_source none (some o) = inr refl
  newer_source (some a) (some o) = elim (Bool-cases (ltb_ℤ (created a) (created o))) [
    | inl l ↦ inr (rw l)
    | inr l ↦ inl (rw l)
  ]

  newest_source :
      (old : Option SmallOrder) (events : List OrderEvent) (o : SmallOrder)
      → newest old events ≡ some o
      → (old ≡ some o) ⊎ ((event : OrderEvent) × Memᴰ event events × (own event ≡ some o))
  unfolding newest
  newest_source old [] o e = inl e
  newest_source old (x ∷ es) o e = elim (newest_source (newer old (own x)) es o e) [
    | inl kept ↦ elim (newer_source old (own x)) [
      | inl stays ↦ inl (sym stays ∙ kept)
      | inr replaced ↦ inr (x, Memᴰ.head refl, sym replaced ∙ kept)
    ]
    | inr (event, m, taken) ↦ inr (event, Memᴰ.tail m, taken)
  ]

  own-snapshot :
      (event : OrderEvent) (o : SmallOrder)
      → (own event ≡ some o) ↔ (snapshot rating event ≡ some (id, o))
  unfolding own own_of
  own-snapshot event o = (to, from)
    where
      to : own event ≡ some o → snapshot rating event ≡ some (id, o)
      to h = elim (Option-cases (snapshot rating event)) [
        | inl e ↦ let nothing = rw (e, own) at h in cc
        | inr ((key, o'), e) ↦ elim (String-discrete key id) [
          | yes p ↦ let same = rw (e, own, ==_of_eq key id p) at h in cc
          | no n ↦ let nothing = rw (e, own, ==_of_ne key id n) at h in cc
        ]
      ]

      from : snapshot rating event ≡ some (id, o) → own event ≡ some o
      from h = rw (h, own, ==_of_eq id id refl)

  newest_found :
      (old : Option SmallOrder) (events : List OrderEvent) (event : OrderEvent) (o : SmallOrder)
      → Memᴰ event events
      → own event ≡ some o
      → (b : SmallOrder) × (newest old events ≡ some b) × (created o ≤ℤ created b)
  unfolding newest
  newest_found old [] event o m h = elim m [ ]
  newest_found old (x ∷ es) event o (Memᴰ.head p) h =
      let (b, same, le) = newer_given old o in
      let (c, last, le') = newest_old b es in (c, rw (sym p, h, same) last, ground arith)
  newest_found old (x ∷ es) event o (Memᴰ.tail m) h =
      newest_found (newer old (own x)) es event o m h

  -- The order that the book holds under an id is the snapshot in one of the events, and no event has a
  -- newer snapshot of that id.
  pub aggregate_newest :
      (events : List OrderEvent) (o : SmallOrder)
      → lookup id (aggregate_latest_orders_by_id rating events) ≡ some o
      → ((event : OrderEvent) × Memᴰ event events × (snapshot rating event ≡ some (id, o)))
        × ((event : OrderEvent) (o' : SmallOrder)
            → Memᴰ event events
            → snapshot rating event ≡ some (id, o')
            → created o' ≤ℤ created o)
  unfolding aggregate_latest_orders_by_id lookup
  aggregate_newest events o e =
      let held : newest none events ≡ some o = sym (lookup-adds events []) ∙ e in
      elim (newest_source none events o held) [
        | inl empty ↦ absurd (cc)
        | inr (event, m, taken) ↦ (
          (event, m, (own-snapshot event o).0 taken),
          λ other o' m' e'.
              let (b, found, le) =
                newest_found none events other o' m' ((own-snapshot other o').1 e') in
              let same : o ≡ b = cc in rw same le,
        )
      ]

  -- Every id that an event has a snapshot of is in the book.
  pub aggregate_complete :
      (events : List OrderEvent) (event : OrderEvent) (o : SmallOrder)
      → Memᴰ event events
      → snapshot rating event ≡ some (id, o)
      → (kept : SmallOrder) × (lookup id (aggregate_latest_orders_by_id rating events) ≡ some kept)
        × (created o ≤ℤ created kept)
  unfolding aggregate_latest_orders_by_id lookup
  aggregate_complete events event o m e =
      let (b, found, le) = newest_found none events event o m ((own-snapshot event o).1 e) in
      (b, lookup-adds events [] ∙ found, le)
