-- ===== src/Tests/Restoring.antt =====
-- Examples for the restore of a session.
use mostro_ts_client.Common.{String, true, false, ◌≡◌, none, some, [], ◌∷◌, is_some}
use mostro_ts_client.Common.Lists.{All}
use mostro_ts_client.Common.Int.{ℤ, pos, ◌≤ℤ◌}
use mostro_ts_client.Message.{RestoreSessionInfo}
use mostro_ts_client.Store.{UserRow}
use mostro_ts_client.Sqlite
use mostro_ts_client.Sqlite.Orders.{sqlite_store, sqlite_store-IsStore}
use mostro_ts_client.Sqlite.Users.{stored_user, store_user, sqlite_store-IsUserStore}
use mostro_ts_client.Restore.{LastTradeIndexInfo, rebuild}
use mostro_ts_client.Restore.Rebuilt.{IsUserStore, index_of, rebuild_index_safe}
use mostro_ts_client.Restore.Rows.{rebuild_orders_present}
use mostro_ts_client.Tests.{empty_db}

abbrev account : RestoreSessionInfo
account = record {
  orders = record { order_id = "o1"; trade_index = pos 3; status = "active" } ∷ [];
  disputes =
      record {
        dispute_id = "d1";
        order_id = "o1";
        trade_index = pos 3;
        status = "initiated";
        initiator = none;
        solver_pubkey = some "solver";
      }
      ∷ [];
}

abbrev last_index : LastTradeIndexInfo
last_index = record { last_used_index = pos 5; no_history = false }

abbrev secret_at : ℤ → String
secret_at index = "secret"

abbrev conv_secret : String → String → String
conv_secret secret pubkey = pubkey

fresh : (sqlite_store none).S
unfolding sqlite_store
fresh = empty_db

no_identity : (u : UserRow) → stored_user none fresh ≡ some u → u.i0_pubkey ≡ "me"
unfolding sqlite_store fresh stored_user Sqlite.get_user
no_identity u e = cc

rebuild_index_safe_example :
    let k = index_of (
      stored_user none
        (rebuild
          (sqlite_store none)
          (stored_user none)
          (store_user none)
          secret_at
          conv_secret
          "me"
          (pos 9)
          account
          last_index
          fresh).0) in
    All (λ o. o.trade_index ≤ℤ k) account.orders
    × All (λ d. d.trade_index ≤ℤ k) account.disputes
    × (last_index.last_used_index ≤ℤ k)
rebuild_index_safe_example =
    rebuild_index_safe (sqlite_store none) (stored_user none) (store_user none) secret_at
      conv_secret (sqlite_store-IsUserStore none) "me" (pos 9) account last_index fresh no_identity

rebuild_orders_present_example :
    let s' =
      (rebuild
        (sqlite_store none)
        (stored_user none)
        (store_user none)
        secret_at
        conv_secret
        "me"
        (pos 9)
        account
        last_index
        fresh).0 in
    All (λ o. is_some ((sqlite_store none).get_order o.order_id s') ≡ true) account.orders
rebuild_orders_present_example =
    rebuild_orders_present (sqlite_store none) (sqlite_store-IsStore none) (stored_user none)
      (store_user none) secret_at conv_secret "me" (pos 9) account last_index fresh

sqlite_store-IsUserStore_example :
    IsUserStore (sqlite_store none) (stored_user none) (store_user none)
sqlite_store-IsUserStore_example = sqlite_store-IsUserStore none
