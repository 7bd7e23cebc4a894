-- ===== src/Idb/Orders.antt =====
-- The orders of idb.ts as an implementation of the database interface.
use mostro_ts_client.Common.{
  String, Bool, not, ◌≡◌, refl, Option, none, some, if◌then◌else◌, ◌==◌, string_eq, String-discrete,
  is_some, Option-cases, inl, inr, ==_of_eq, ==_of_ne, ap, sym, ◌∙◌,
}
use mathlib.Core.Option
use mostro_ts_client.Encryption.{
  FieldEncryptor, encrypt_string, encrypt_string_or_null, decrypt_or_null-encrypt,
  decrypt_or_null-encrypt_or_null,
}
use mostro_ts_client.Store.{
  OrderRow, SaveOrderInput, Store, IsStore, saved_row, with_status, with_last_seen, with_dispute,
  with_solver, later,
}
use mostro_ts_client.Common.Int.{ℤ}
use mostro_ts_client.Sqlite.{order_decrypt}
use mostro_ts_client.Idb.{
  Db, order_key, update_order, get_order, save_order, update_order_status, update_last_seen_dm_ts,
  update_dispute_id, update_solver_chat, put_row, put_status, put_last_seen, put_dispute,
  put_solver, seen,
}
use mostro_ts_client.Idb.Table.{get, get-put, key-get}

decrypt-put :
    (enc : Option FieldEncryptor) (order : SaveOrderInput) (existing : Option OrderRow)
    → order_decrypt enc (put_row order (encrypt_string enc order.trade_keys) existing)
      ≡ saved_row order order.trade_keys (Option.map (order_decrypt enc) existing)
unfolding order_decrypt
decrypt-put enc order none = rw (decrypt_or_null-encrypt enc order.trade_keys)
decrypt-put enc order (some r) = rw (decrypt_or_null-encrypt enc order.trade_keys)

newest : (last : Option ℤ) (ts : ℤ) → seen last ts ≡ later last ts
newest none ts = refl
newest (some last) ts = refl

decrypt-last_seen :
    (enc : Option FieldEncryptor) (ts : ℤ) (r : OrderRow)
    → order_decrypt enc (put_last_seen ts r) ≡ with_last_seen ts (order_decrypt enc r)
unfolding order_decrypt
decrypt-last_seen enc ts r =
    ap (λ x. record (order_decrypt enc r) { last_seen_dm_ts = some x })
      (newest r.last_seen_dm_ts ts)

decrypt-solver :
    (enc : Option FieldEncryptor) (solver shared : String) (r : OrderRow)
    → order_decrypt enc (put_solver solver (encrypt_string_or_null enc (some shared)) r)
      ≡ with_solver solver (some shared) (order_decrypt enc r)
unfolding order_decrypt
decrypt-solver enc solver shared r = rw (decrypt_or_null-encrypt_or_null enc shared)

module _ (before : String → String → Bool) (enc : Option FieldEncryptor) where
  -- an update of one row, read: `g` on what is read, for `f` on what is stored
  module _ (key id : String) (f g : OrderRow → OrderRow) (db : Db)
      (keeps_id : (r : OrderRow) → (f r).id ≡ r.id)
      (viewed : (r : OrderRow) → order_decrypt enc (f r) ≡ g (order_decrypt enc r)) where
    get-update :
        get_order enc id (update_order before key f db)
        ≡ (if key == id then Option.map g (get_order enc id db) else get_order enc id db)
    unfolding get_order update_order
    get-update = elim (Option-cases (get order_key key db.orders)) [
      | inl missing ↦ elim (String-discrete key id) [
        | yes e ↦ rw (missing, update_order, ==_of_eq key id e) (rw (rw e at missing) refl)
        | no n ↦ rw (missing, update_order, ==_of_ne key id n)
      ]
      | inr (r, found) ↦
          let same : (f r).id ≡ key = keeps_id r ∙ key-get order_key key db.orders r found in
          rw (found, update_order, get-put order_key before (f r) id db.orders)
            (elim (String-discrete key id) [
              | yes e ↦
                  rw (==_of_eq key id e, ==_of_eq (f r).id id (same ∙ e))
                    (rw (rw e at found) (ap some (viewed r)))
              | no n ↦ rw (==_of_ne key id n, ==_of_ne (f r).id id (λ e. n (sym same ∙ e)))
            ])
    ]

  get-save :
      (order : SaveOrderInput) (id : String) (db : Db)
      → get_order enc id (save_order before enc order db).0 ≡ (
          if order.id == id
          then some (saved_row order order.trade_keys (get_order enc order.id db))
          else get_order enc id db)
  unfolding get_order save_order
  get-save order id db =
      let row =
        put_row order (encrypt_string enc order.trade_keys) (get order_key order.id db.orders) in
      rw (get-put order_key before row id db.orders) (elim (String-discrete order.id id) [
        | yes e ↦
            rw (==_of_eq order.id id e)
              (ap some (decrypt-put enc order (get order_key order.id db.orders)))
        | no n ↦ rw (==_of_ne order.id id n)
      ])

  save_inserted :
      (order : SaveOrderInput) (db : Db)
      → (save_order before enc order db).1 ≡ not (is_some (get_order enc order.id db))
  unfolding get_order save_order
  save_inserted order db = elim (Option-cases (get order_key order.id db.orders)) [
    | inl e ↦ rw e
    | inr (r, e) ↦ rw e
  ]

  unfoldable pub idb_store : Store
  unfolding get_order save_order update_order_status update_last_seen_dm_ts update_dispute_id
      update_solver_chat
  idb_store = record {
    S = Db;
    get_order = get_order enc;
    save_order = save_order before enc;
    update_order_status = update_order_status before;
    update_last_seen_dm_ts = update_last_seen_dm_ts before;
    update_dispute_id = update_dispute_id before;
    update_solver_chat = update_solver_chat before enc;
  }

  -- The IndexedDB backend keeps the promises of a backend on its orders, whatever order the browser has on
  -- its keys and with an encryptor or without one: an order reads after a save, an update of its
  -- status, last message, dispute or solver as the operation promises, every other order as before,
  -- and a save reports whether the order was new.
  pub idb_store-IsStore : IsStore idb_store
  unfolding idb_store update_order_status update_last_seen_dm_ts update_dispute_id
      update_solver_chat order_decrypt
  idb_store-IsStore = record {
    get-save = get-save;
    save_inserted = save_inserted;
    get-update_status = λ key status id db.
        get-update key id (put_status status) (with_status status) db (λ r. refl) (λ r. refl);
    get-update_last_seen = λ key ts id db.
        get-update key id (put_last_seen ts) (with_last_seen ts) db (λ r. refl)
          (decrypt-last_seen enc ts);
    get-update_dispute = λ key dispute id db.
        get-update key id (put_dispute dispute) (with_dispute dispute) db (λ r. refl) (λ r. refl);
    get-update_solver = λ key solver shared id db.
        get-update key id (put_solver solver (encrypt_string_or_null enc (some shared)))
          (with_solver solver (some shared)) db (λ r. refl) (decrypt-solver enc solver shared);
  }
