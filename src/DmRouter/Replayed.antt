-- ===== src/DmRouter/Replayed.antt =====
-- What `replayTradeDms` of src/protocol/dmRouter.ts returns.
use mostro_ts_client.Common.{
  String, Bool, true, false, ◌≡◌, refl, ap, Option, some, List, [], ◌∷◌, ◌!=◌, nat_eq, string_eq,
  inl, inr, Bool-cases, Option-cases, arith, eq_of_!=, !=_of_eq,
}
use mathlib.Core.List.{Memᴰ}
use mostro_ts_client.Common.Int.{ℤ}
use mostro_ts_client.Common.Lists.{All}
use mostro_ts_client.Common.Sort.{IsSorted, sort-IsSorted, All-sort, Memᴰ-sort}
use mostro_ts_client.Message.{Message}
use mostro_ts_client.DmRouter.{Transport, transport_event_kind, NostrEvent}
use mostro_ts_client.DmRouter.Replay.{
  Filter, ReplayedDm, older, replayed, skipped, replay_events, replay_trades, replay_trade_dms,
  with_since, filter_protocol_dm_from_mostro,
}

older_asymmetric : (x y : ReplayedDm) → older x y ≡ true → older y x ≡ false
older_asymmetric x y h = ground arith

older_transitive : (x y z : ReplayedDm) → older x y ≡ false → older y z ≡ false → older x z ≡ false
older_transitive x y z h k = ground arith

not_skipped :
    (transport : Transport) (mostro_pubkey : String) (verify : NostrEvent → Bool)
    (event : NostrEvent)
    → skipped transport mostro_pubkey verify event ≡ false
    → (event.kind ≡ transport_event_kind transport)
      × (verify event ≡ true)
      × (event.pubkey ≡ mostro_pubkey)
not_skipped transport mostro_pubkey verify event h =
    elim (Bool-cases (event.kind != transport_event_kind transport)) [
      | inl e ↦ let h' = rw e at h in cc
      | inr k ↦ elim (Bool-cases (verify event)) [
        | inr e ↦ let h' = rw (k, e) at h in cc
        | inl v ↦ let h' = rw (k, v) at h in (eq_of_!= _ _ k, v, eq_of_!= _ _ h')
      ]
    ]

module _ (transport : Transport) (mostro_pubkey : String) (verify : NostrEvent → Bool)
    (try_unwrap : NostrEvent → String → Option Message) where
  -- the events that are replayed for a secret
  pub record Genuine (secret : String) (event : NostrEvent) (message : Message) : Type 0 where
    pub kind : event.kind ≡ transport_event_kind transport
    pub signed : verify event ≡ true
    pub author : event.pubkey ≡ mostro_pubkey
    pub opened : try_unwrap event secret ≡ some message

  abbrev from_events : String → String → List NostrEvent → List ReplayedDm → List ReplayedDm
  from_events = replay_events transport mostro_pubkey verify try_unwrap

  Genuine-kept :
      (secret : String) (e : NostrEvent) (m : Message)
      → Genuine secret e m
      → skipped transport mostro_pubkey verify e ≡ false
  Genuine-kept secret e m g = rw (!=_of_eq e.kind _ g.kind, g.signed, !=_of_eq e.pubkey _ g.author)

  events_sound :
      (P : ReplayedDm → Type 0) (order_id secret : String) (events : List NostrEvent)
      (rest : List ReplayedDm)
      → ((e : NostrEvent) (m : Message)
          → Memᴰ e events
          → Genuine secret e m
          → P (replayed order_id secret e m))
      → All P rest
      → All P (from_events order_id secret events rest)
  unfolding replay_events
  events_sound P order_id secret [] rest h all = all
  events_sound P order_id secret (event ∷ events) rest h all =
      let more = events_sound P order_id secret events rest (λ e m k. h e m (Memᴰ.tail k)) all in
      elim (Bool-cases (skipped transport mostro_pubkey verify event)) [
        | inl s ↦ rw s more
        | inr s ↦ elim (Option-cases (try_unwrap event secret)) [
          | inl o ↦ rw (s, o) more
          | inr (m, o) ↦
              let g = not_skipped transport mostro_pubkey verify event s in
              rw (s, o)
                (
                  h event m (Memᴰ.head refl)
                      (record { kind = g.0; signed = g.1; author = g.2; opened = o }),
                  more,
                )
        ]
      ]

  -- what is found earlier stays
  kept_later :
      (order_id secret : String) (events : List NostrEvent) (rest : List ReplayedDm)
      (r : ReplayedDm)
      → Memᴰ r rest
      → Memᴰ r (from_events order_id secret events rest)
  unfolding replay_events
  kept_later order_id secret [] rest r k = k
  kept_later order_id secret (event ∷ events) rest r k =
      let more = kept_later order_id secret events rest r k in
      elim (Bool-cases (skipped transport mostro_pubkey verify event)) [
        | inl s ↦ rw s more
        | inr s ↦ elim (Option-cases (try_unwrap event secret)) [
          | inl o ↦ rw (s, o) more
          | inr (m, o) ↦ rw (s, o) (Memᴰ.tail more)
        ]
      ]

  events_complete :
      (order_id secret : String) (events : List NostrEvent) (rest : List ReplayedDm)
      (e : NostrEvent) (m : Message)
      → Memᴰ e events
      → Genuine secret e m
      → Memᴰ (replayed order_id secret e m) (from_events order_id secret events rest)
  unfolding replay_events
  events_complete order_id secret [] rest e m k g = elim k [ ]
  events_complete order_id secret (event ∷ events) rest e m (Memᴰ.head p) g =
      rw (← p, Genuine-kept secret e m g, g.opened) (Memᴰ.head refl)
  events_complete order_id secret (event ∷ events) rest e m (Memᴰ.tail k) g =
      let more = events_complete order_id secret events rest e m k g in
      elim (Bool-cases (skipped transport mostro_pubkey verify event)) [
        | inl s ↦ rw s more
        | inr s ↦ elim (Option-cases (try_unwrap event secret)) [
          | inl o ↦ rw (s, o) more
          | inr (n, o) ↦ rw (s, o) (Memᴰ.tail more)
        ]
      ]

  module _ (query : String → List NostrEvent) where
    -- where a replayed message comes from: a stored trade, and a genuine event for its key
    abbrev pub FromTrade : List (String × String) → ReplayedDm → Type 0
    FromTrade trades r =
        Memᴰ (r.order_id, r.secret) trades
        × ((event : NostrEvent) × Memᴰ event (query r.secret)
            × (r.created_at ≡ event.created_at)
            × Genuine r.secret event r.message)

    abbrev from_trades : List (String × String) → List ReplayedDm
    from_trades = replay_trades transport mostro_pubkey verify try_unwrap query

    All-later :
        (o s : String) (trades : List (String × String)) (rs : List ReplayedDm)
        → All (FromTrade trades) rs
        → All (FromTrade ((o, s) ∷ trades)) rs
    All-later o s trades [] all = tt
    All-later o s trades (r ∷ rs) ((m, e), all) = ((Memᴰ.tail m, e), All-later o s trades rs all)

    trades_sound : (trades : List (String × String)) → All (FromTrade trades) (from_trades trades)
    unfolding replay_trades
    trades_sound [] = tt
    trades_sound ((o, s) ∷ trades) =
        events_sound (FromTrade ((o, s) ∷ trades)) o s (query s) (from_trades trades)
          (λ e m k g. (Memᴰ.head refl, (e, k, refl, g)))
          (All-later o s trades (from_trades trades) (trades_sound trades))

    trades_complete :
        (trades : List (String × String)) (o s : String) (e : NostrEvent) (m : Message)
        → Memᴰ (o, s) trades
        → Memᴰ e (query s)
        → Genuine s e m
        → Memᴰ (replayed o s e m) (from_trades trades)
    unfolding replay_trades
    trades_complete [] o s e m k q g = elim k [ ]
    trades_complete ((o', s') ∷ trades) o s e m (Memᴰ.head p) q g =
        let po = ap (λ (x : String × String). x.0) p in
        let ps = ap (λ (x : String × String). x.1) p in
        rw (← po, ← ps) (events_complete o s (query s) (from_trades trades) e m q g)
    trades_complete ((o', s') ∷ trades) o s e m (Memᴰ.tail k) q g =
        kept_later o' s' (query s') (from_trades trades) _ (trades_complete trades o s e m k q g)

  -- The messages read again from the relays are in order of time. Each belongs to a stored trade and was
  -- opened with that trade's key from an event of the daemon, with a valid signature, which the relays
  -- returned for that trade. Every such event of every stored trade is among them.
  pub replay_trade_dms-Genuine :
      (relays : Filter → List NostrEvent) (pubkey_from_secret : String → String) (since : Option ℤ)
      (trades : List (String × String))
      → let query = λ (secret : String). relays (
          with_since since
            (filter_protocol_dm_from_mostro transport mostro_pubkey (pubkey_from_secret secret))) in
        let results =
          replay_trade_dms transport mostro_pubkey verify try_unwrap relays pubkey_from_secret since
            trades in
        IsSorted older results
        × All (FromTrade query trades) results
        × ((o s : String) (e : NostrEvent) (m : Message)
            → Memᴰ (o, s) trades
            → Memᴰ e (query s)
            → Genuine s e m
            → Memᴰ (replayed o s e m) results)
  unfolding replay_trade_dms
  replay_trade_dms-Genuine relays pubkey_from_secret since trades =
      let query = λ (secret : String). relays (
        with_since since
          (filter_protocol_dm_from_mostro transport mostro_pubkey (pubkey_from_secret secret))) in
      (
        sort-IsSorted older older_asymmetric older_transitive (from_trades query trades),
        All-sort older (FromTrade query trades) (from_trades query trades)
            (trades_sound query trades),
        λ o s e m k q g.
            Memᴰ-sort older _ (from_trades query trades)
              (trades_complete query trades o s e m k q g),
      )
