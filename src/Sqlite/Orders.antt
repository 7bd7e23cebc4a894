-- ===== src/Sqlite/Orders.antt =====
-- The orders table of sqlite.ts as an implementation of the database interface.
use mostro_ts_client.Common.{
  String, not, ◌≡◌, refl, Option, none, some, List, [], ◌∷◌, if◌then◌else◌, ◌==◌, string_eq,
  String-discrete, is_some, Option-cases, inl, inr, arith, ==_of_eq, ==_of_ne, ap,
}
use mathlib.Core.Option
use mostro_ts_client.Common.Int.{ℤ}
use mostro_ts_client.Encryption.{
  FieldEncryptor, encrypt_string, encrypt_string_or_null, decrypt_or_null-encrypt,
  decrypt_or_null-encrypt_or_null,
}
use mostro_ts_client.Store.{
  OrderRow, SaveOrderInput, Store, IsStore, saved_row, with_status, with_last_seen, with_dispute,
  with_solver, later,
}
use mostro_ts_client.Sqlite.{
  Db, find_order, update_orders, insert_order, order_decrypt, get_order, save_order,
  update_order_status, update_last_seen_dm_ts, update_dispute_id, update_solver_chat, upserted_row,
  set_status, set_last_seen, set_dispute, set_solver, newer_seen,
}

find-update :
    (key id : String) (f : OrderRow → OrderRow) (rows : List OrderRow)
    → ((r : OrderRow) → (f r).id ≡ r.id)
    → find_order id (update_orders key f rows)
      ≡ (if key == id then Option.map f (find_order id rows) else find_order id rows)
unfolding find_order update_orders
find-update key id f [] h = ground arith
find-update key id f (r ∷ rows) h = ground (arith, h r, find-update key id f rows h)

find-insert :
    (key id : String) (row : Option OrderRow → OrderRow) (rows : List OrderRow)
    → ((o : Option OrderRow) → (row o).id ≡ key)
    → find_order id (insert_order key row rows)
      ≡ (if key == id then some (row (find_order key rows)) else find_order id rows)
unfolding find_order insert_order
find-insert key id row [] h = ground (arith, h none)
find-insert key id row (r ∷ rows) h = ground (arith, h (some r), find-insert key id row rows h)

-- the view of an update: `g` on what is read, for `f` on what is stored
module _ (enc : Option FieldEncryptor) (key id : String) (f g : OrderRow → OrderRow)
    (rows : List OrderRow) (keeps_id : (r : OrderRow) → (f r).id ≡ r.id)
    (viewed : (r : OrderRow) → order_decrypt enc (f r) ≡ g (order_decrypt enc r)) where
  map_viewed :
      (o : Option OrderRow)
      → Option.map (order_decrypt enc) (Option.map f o)
        ≡ Option.map g (Option.map (order_decrypt enc) o)
  map_viewed none = refl
  map_viewed (some r) = ap some (viewed r)

  get-update : Option.map (order_decrypt enc) (find_order id (update_orders key f rows)) ≡ (
      if key == id
      then Option.map g (Option.map (order_decrypt enc) (find_order id rows))
      else Option.map (order_decrypt enc) (find_order id rows))
  get-update = rw (find-update key id f rows keeps_id) (elim (String-discrete key id) [
    | yes e ↦ rw (==_of_eq key id e) (map_viewed (find_order id rows))
    | no n ↦ rw (==_of_ne key id n)
  ])

-- a saved row, read
decrypt-upserted :
    (enc : Option FieldEncryptor) (order : SaveOrderInput) (existing : Option OrderRow)
    → order_decrypt enc (upserted_row order (encrypt_string enc order.trade_keys) existing)
      ≡ saved_row order order.trade_keys (Option.map (order_decrypt enc) existing)
unfolding order_decrypt
decrypt-upserted enc order none = rw (decrypt_or_null-encrypt enc order.trade_keys)
decrypt-upserted enc order (some r) = rw (decrypt_or_null-encrypt enc order.trade_keys)

upserted_id :
    (order : SaveOrderInput) (trade_keys : String) (o : Option OrderRow)
    → (upserted_row order trade_keys o).id ≡ order.id
upserted_id order trade_keys none = refl
upserted_id order trade_keys (some r) = refl

get-save :
    (enc : Option FieldEncryptor) (order : SaveOrderInput) (id : String) (db : Db)
    → get_order enc id (save_order enc order db).0 ≡ (
        if order.id == id
        then some (saved_row order order.trade_keys (get_order enc order.id db))
        else get_order enc id db)
unfolding get_order save_order
get-save enc order id db =
    rw
      (find-insert order.id id (upserted_row order (encrypt_string enc order.trade_keys)) db.orders
        (upserted_id order (encrypt_string enc order.trade_keys)))
      (elim (String-discrete order.id id) [
        | yes e ↦
            rw (==_of_eq order.id id e)
              (ap some (decrypt-upserted enc order (find_order order.id db.orders)))
        | no n ↦ rw (==_of_ne order.id id n)
      ])

save_inserted :
    (enc : Option FieldEncryptor) (order : SaveOrderInput) (db : Db)
    → (save_order enc order db).1 ≡ not (is_some (get_order enc order.id db))
unfolding get_order save_order
save_inserted enc order db = elim (Option-cases (find_order order.id db.orders)) [
  | inl e ↦ rw e
  | inr (r, e) ↦ rw e
]

-- the CASE gives the later time
newest : (last : Option ℤ) (ts : ℤ) → newer_seen last ts ≡ later last ts
newest none ts = refl
newest (some last) ts = refl

record_seen :
    {a b : ℤ}
    → a ≡ b
    → (r : OrderRow)
    → ◌≡◌ {A = OrderRow}
        (record r { last_seen_dm_ts = some a })
        (record r { last_seen_dm_ts = some b })
record_seen e r = ap (λ x. record r { last_seen_dm_ts = some x }) e

decrypt-solver :
    (enc : Option FieldEncryptor) (solver shared : String) (r : OrderRow)
    → order_decrypt enc (set_solver solver (encrypt_string_or_null enc (some shared)) r)
      ≡ with_solver solver (some shared) (order_decrypt enc r)
unfolding order_decrypt
decrypt-solver enc solver shared r = rw (decrypt_or_null-encrypt_or_null enc shared)

unfoldable pub sqlite_store : Option FieldEncryptor → Store
unfolding get_order save_order update_order_status update_last_seen_dm_ts update_dispute_id
    update_solver_chat
sqlite_store enc = record {
  S = Db;
  get_order = get_order enc;
  save_order = save_order enc;
  update_order_status = update_order_status;
  update_last_seen_dm_ts = update_last_seen_dm_ts;
  update_dispute_id = update_dispute_id;
  update_solver_chat = update_solver_chat enc;
}

-- The SQLite backend keeps the promises of a backend on its orders, with an encryptor or without one:
-- an order reads after a save, an update of its status, last message, dispute or solver as the
-- operation promises, every other order as before, and a save reports whether the order was new.
pub sqlite_store-IsStore : (enc : Option FieldEncryptor) → IsStore (sqlite_store enc)
unfolding sqlite_store order_decrypt
sqlite_store-IsStore enc = record {
  get-save = get-save enc;
  save_inserted = save_inserted enc;
  get-update_status = λ key status id db.
      get-update enc key id (set_status status) (with_status status) db.orders (λ r. refl)
        (λ r. refl);
  get-update_last_seen = λ key ts id db.
      get-update enc key id (set_last_seen ts) (with_last_seen ts) db.orders (λ r. refl)
        (λ r. record_seen (newest r.last_seen_dm_ts ts) (order_decrypt enc r));
  get-update_dispute = λ key dispute id db.
      get-update enc key id (set_dispute dispute) (with_dispute dispute) db.orders (λ r. refl)
        (λ r. refl);
  get-update_solver = λ key solver shared id db.
      get-update enc key id (set_solver solver (encrypt_string_or_null enc (some shared)))
        (with_solver solver (some shared)) db.orders (λ r. refl) (decrypt-solver enc solver shared);
}
