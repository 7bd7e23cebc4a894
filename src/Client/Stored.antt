-- ===== src/Client/Stored.antt =====
-- What `createOrder` and `takeOrder` of src/protocol/client.ts leave behind.
use mostro_ts_client.Common.{String, ◌≡◌, ◌⊎◌, Option, none, some, List, string_eq, Result, ok, err}
use mostro_ts_client.Common.Dict.{lookup}
use mostro_ts_client.Common.Int.{ℤ, pos}
use mostro_ts_client.Order.{SmallOrder}
use mostro_ts_client.Message.{Message}
use mostro_ts_client.Store.{UserRow, OrderRow, Store, IsStore}
use mostro_ts_client.DmRouter.{NostrEvent, Router}
use mostro_ts_client.Fault.{Fault}
use mostro_ts_client.Flow.{NewOrderInput}
use mostro_ts_client.Client.{Client}
use mostro_ts_client.Client.Routing.{Routed}
use mostro_ts_client.Client.Requests.{
  NextStep, submit_invoice_step, OrderResult, Keys, create_order, take_order,
}

module _ (store : Store) (reserve : ℤ → store.S → (ℤ × Keys) × store.S) where
  open store use {S, get_order}

  -- the trade is routed, and its row has what a restart needs
  pub record Stored (id secret : String) (index mine : ℤ) (old : Option Router) (c : Client S)
      : Type 0 where
    pub routed : Routed id secret old c.router
    pub trade : lookup id c.trades ≡ some secret
    pub row : OrderRow
    pub found : get_order id c.db ≡ some row
    pub secret_kept : row.trade_keys ≡ some secret
    pub index_kept : row.trade_index ≡ some index
    pub mine_kept : row.is_mine ≡ mine
    pub status_kept : (row.status ≡ some "pending") ⊎ (row.status ≡ none)

  -- a request that throws leaves the reservation of the trade index alone
  abbrev pub Failed : Client S → Client S × Result Fault OrderResult → Type 0
  Failed c (c', result) =
      ((f : Fault) × (result ≡ err f)) × (c' ≡ record c { db = (reserve (pos 1) c.db).1 })

  abbrev pub Created : (ℤ × Keys) → Option Router → Client S × Result Fault OrderResult → Type 0
  Created (index, keys) old (c', result) =
      (o : OrderResult) × (result ≡ ok o) × Stored o.order_id keys.secret index (pos 1) old c'

  -- the row is there only where the next step is to submit an invoice
  abbrev pub StoredTake : NextStep → String → String → ℤ → S → Option Router → Client S → Type 0
  StoredTake (submit_invoice_step amount) id secret index db old c' =
      Stored id secret index (pos 0) old c'
  StoredTake _ id secret index db old c' =
      (lookup id c'.trades ≡ some secret) × (c'.db ≡ db) × Routed id secret old c'.router

  abbrev pub Taken : (ℤ × Keys) → S → Option Router → Client S × Result Fault OrderResult → Type 0
  Taken (index, keys) db old (c', result) =
      (o : OrderResult) × (result ≡ ok o) × StoredTake o.next o.order_id keys.secret index db old c'

module _ (store : Store) (laws : IsStore store) (pubkey_from_secret : String → String)
    (reserve : ℤ → store.S → (ℤ × Keys) × store.S) (upsert_user : UserRow → store.S → store.S)
    (unwrap : String → NostrEvent → Result Fault (Option Message))
    (network : Message → List NostrEvent) (now request_id : ℤ) (identity null_id : String) where
  open store use {S, get_order, save_order}

  abbrev create : NewOrderInput → Client S → Client S × Result Fault OrderResult
  create =
      create_order store pubkey_from_secret reserve upsert_user unwrap network now request_id
        identity null_id

  abbrev take :
      SmallOrder → Option String → Option ℤ → Client S → Client S × Result Fault OrderResult
  take =
      take_order store pubkey_from_secret reserve upsert_user unwrap network now request_id identity
        null_id
