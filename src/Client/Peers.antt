-- ===== src/Client/Peers.antt =====
-- The counterpart that `peerTradeKeys` of src/protocol/client.ts finds.
use mostro_ts_client.Common.{
  String, true, ◌≡◌, refl, sym, ◌≢◌, ◌⊎◌, inl, inr, Option, none, some, List, [], ◌∷◌, ◌!=◌,
  string_eq, or_else, Bool-cases, Option-cases, ap, !=_of_eq, ◌∙◌,
}
use mathlib.Core.List.{Memᴰ}
use mostro_ts_client.Message.{Payload, Message}
use mostro_ts_client.Order.{SmallOrder}
use mostro_ts_client.Store.{Store}
use mostro_ts_client.Client.{
  Dm, Client, foreign, peer_in, peer_of_history, counterparty, trade_secret, get_messages,
  peer_trade_keys, peer_known,
}

-- an order of a message that names a key on one of its sides
abbrev pub Names : String → Message → Type 0
Names pubkey m =
    (o : SmallOrder) × (m.value.payload ≡ some (Payload.order o))
    × ((o.buyer_trade_pubkey ≡ some pubkey) ⊎ (o.seller_trade_pubkey ≡ some pubkey))

differs : (q mine : String) → (q != mine) ≡ true → q ≢ mine
differs q mine k e = cc (!=_of_eq q mine e)

some_injective : {A : Type 0} (a b : A) → some a ≡ some b → a ≡ b
some_injective a b h = cc

foreign_sound :
    (mine : String) (o : Option String) (p : String)
    → foreign mine o ≡ some p
    → (o ≡ some p) × (p ≢ mine)
foreign_sound mine none p h = cc
foreign_sound mine (some q) p h = elim (Bool-cases (q != "")) [
  | inr e ↦ let h' = rw e at h in cc
  | inl e ↦ elim (Bool-cases (q != mine)) [
    | inr k ↦ let h' = rw (e, k) at h in cc
    | inl k ↦ let h' = rw (e, k) at h in (h', λ i. differs q mine k (some_injective q p h' ∙ i))
  ]
]

-- a side of an order, or the other
or_else_sound :
    (a b : Option String) (p : String) → or_else a b ≡ some p → (a ≡ some p) ⊎ (b ≡ some p)
or_else_sound none b p h = inr h
or_else_sound (some q) b p h = inl h

in_payload :
    (mine p : String) (m : Message) (o : Option Payload)
    → m.value.payload ≡ o
    → peer_in mine o ≡ some p
    → (p ≢ mine) × Names p m
unfolding peer_in
in_payload mine p m (some (Payload.order o)) e h = elim (or_else_sound _ _ p h) [
  | inl k ↦ let (a, n) = foreign_sound mine o.buyer_trade_pubkey p k in (n, (o, e, inl a))
  | inr k ↦ let (a, n) = foreign_sound mine o.seller_trade_pubkey p k in (n, (o, e, inr a))
]
in_payload mine p m _ e h = cc

peer_in_sound :
    (mine p : String) (m : Message) → peer_in mine m.value.payload ≡ some p → (p ≢ mine) × Names p m
unfolding peer_in
peer_in_sound mine p m h = in_payload mine p m m.value.payload refl h

known_sound :
    (a b : Option String) (p : String) → peer_known a b ≡ some p → (a ≡ some p) ⊎ (b ≡ some p)
known_sound none b p h = inr h
known_sound (some q) b p h = inl h

history_sound :
    (mine p : String) (dms : List Dm)
    → peer_of_history mine dms ≡ some p
    → (p ≢ mine) × ((dm : Dm) × Memᴰ dm dms × Names p dm.message)
unfolding peer_of_history
history_sound mine p [] h = cc
history_sound mine p (dm ∷ dms) h = elim (or_else_sound _ _ p h) [
  | inl e ↦ let (n, k) = peer_in_sound mine p dm.message e in (n, (dm, Memᴰ.head refl, k))
  | inr e ↦ let (n, (dm', k, names)) = history_sound mine p dms e in (n, (dm', Memᴰ.tail k, names))
]

module _ (store : Store) (pubkey_from_secret : String → String)
    (derive_conv_secret derive_conv_pubkey : String → String → String) where
  open store use {S, get_order}

  peer_found :
      (order_id secret p : String) (c : Client S)
      → peer_known
          (counterparty (get_order order_id c.db))
          (peer_of_history (pubkey_from_secret secret) (get_messages order_id c))
        ≡ some p
      → (counterparty (get_order order_id c.db) ≡ some p)
        ⊎ ((p ≢ pubkey_from_secret secret)
            × ((dm : Dm) × Memᴰ dm (get_messages order_id c) × Names p dm.message))
  peer_found order_id secret p c h = elim (known_sound _ _ p h) [
    | inl e ↦ inl e
    | inr e ↦ inr (history_sound (pubkey_from_secret secret) p (get_messages order_id c) e)
  ]

  -- The peer that a chat is opened with is either the counterparty stored with the order, or a key that
  -- an order in one of the messages for that order names as its buyer or seller, and then it is
  -- never this client's own trade key; the secret is that of the order's trade.
  pub peer_trade_keys_sound :
      (order_id secret p : String) (c : Client S)
      → peer_trade_keys store pubkey_from_secret derive_conv_secret derive_conv_pubkey order_id c
        ≡ some (secret, p)
      → (trade_secret order_id c ≡ some secret)
        × ((counterparty (get_order order_id c.db) ≡ some p)
            ⊎ ((p ≢ pubkey_from_secret secret)
                × ((dm : Dm) × Memᴰ dm (get_messages order_id c) × Names p dm.message)))
  unfolding peer_trade_keys
  peer_trade_keys_sound order_id secret p c h = elim (Option-cases (trade_secret order_id c)) [
    | inl e ↦ let h' = rw (peer_trade_keys, e) at h in cc
    | inr (s, e) ↦
        elim (Option-cases (
          peer_known (counterparty (get_order order_id c.db))
            (peer_of_history (pubkey_from_secret s) (get_messages order_id c)))) [
              | inl k ↦ let h' = rw (peer_trade_keys, e, k) at h in cc
              | inr (q, k) ↦
                  let h' = rw (peer_trade_keys, e, k) at h in
                  let i : s ≡ secret = ap (λ x. x.0) (some_injective (s, q) (secret, p) h') in
                  let j : q ≡ p = ap (λ x. x.1) (some_injective (s, q) (secret, p) h') in
                  (e ∙ ap some i, peer_found order_id secret p c (rw (sym i, sym j) k))
            ]
  ]
