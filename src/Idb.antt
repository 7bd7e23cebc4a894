-- ===== src/Idb.antt =====
-- src/protocol/idb.ts: the IndexedDB backend. An object store is the list of its rows in the order of
-- their keys; `before` is the browser's order of keys, and every key is put by the same order.
pub mod Table
pub mod Orders
pub mod Users
use mostro_ts_client.Common.{
  String, Bool, true, false, ◌&&◌, not, Option, none, some, List, [], ◌∷◌, map, if◌then◌else◌, ◌==◌,
  string_eq, or_default, or_else, is_some,
}
use mathlib.Core.Option
use mostro_ts_client.Common.Text.{to_lower}
use mostro_ts_client.Common.Lists.{keep, includes}
use mostro_ts_client.Common.Sort.{sort_by}
use mostro_ts_client.Common.Int.{ℤ, pos, ◌+ℤ◌, max_ℤ, ltb_ℤ}
use mostro_ts_client.Encryption.{FieldEncryptor, encrypt_string, encrypt_string_or_null}
use mostro_ts_client.Store.{UserRow, OrderRow, SaveOrderInput, ChatMessageRow, kept}
use mostro_ts_client.Sqlite.{order_decrypt, sent_before}
use Table.{get, put}

pub record Db : Type 0 where
  pub users : List UserRow
  pub orders : List OrderRow
  pub chat : List ChatMessageRow

abbrev pub order_key : OrderRow → String
order_key r = r.id

abbrev pub user_key : UserRow → String
user_key u = u.i0_pubkey

abbrev pub chat_key : ChatMessageRow → String
chat_key m = m.outer_event_id

-- `all && all.length > 0 ? all[0] : null`
abbrev pub first_user : List UserRow → Option UserRow
first_user [] = none
first_user (u ∷ us) = some u

unfoldable pub get_user : Db → Option UserRow
get_user db = first_user db.users

-- both indices given: the larger one; otherwise the new row as it is
abbrev pub merged_user : Option UserRow → UserRow → UserRow
merged_user none user = user
merged_user (some existing) user = elim existing.last_trade_index [
  | none ↦ user
  | some old ↦ elim user.last_trade_index [
    | none ↦ user
    | some new ↦ record user { last_trade_index = some (max_ℤ old new) }
  ]
]

-- the row that is put, over the one that was got
abbrev pub put_row : SaveOrderInput → String → Option OrderRow → OrderRow
put_row order trade_keys existing = record {
  id = order.id;
  kind = order.kind;
  status = order.status;
  amount = order.amount;
  fiat_code = order.fiat_code;
  min_amount = order.min_amount;
  max_amount = order.max_amount;
  fiat_amount = order.fiat_amount;
  payment_method = order.payment_method;
  premium = order.premium;
  trade_keys = some trade_keys;
  counterparty_pubkey = order.counterparty_pubkey;
  is_mine = if order.is_mine then pos 1 else pos 0;
  buyer_invoice = order.buyer_invoice;
  request_id = order.request_id;
  trade_index = some order.trade_index;
  created_at = or_else (kept (λ r. r.created_at) existing) order.created_at;
  expires_at = order.expires_at;
  last_seen_dm_ts = kept (λ r. r.last_seen_dm_ts) existing;
  dispute_id = kept (λ r. r.dispute_id) existing;
  solver_pubkey = kept (λ r. r.solver_pubkey) existing;
  dispute_chat_shared_key_hex = kept (λ r. r.dispute_chat_shared_key_hex) existing;
}

-- `last === null || ts > last ? ts : last`
abbrev pub seen : Option ℤ → ℤ → ℤ
seen none ts = ts
seen (some last) ts = if ltb_ℤ last ts then ts else last

-- `{ ...existing, … }` of the four updates
abbrev pub put_status : String → OrderRow → OrderRow
put_status status existing = record existing { status = some status }

abbrev pub put_last_seen : ℤ → OrderRow → OrderRow
put_last_seen ts existing = record existing {
  last_seen_dm_ts = some (seen existing.last_seen_dm_ts ts);
}

abbrev pub put_dispute : String → OrderRow → OrderRow
put_dispute dispute existing = record existing { dispute_id = some dispute }

abbrev pub put_solver : String → Option String → OrderRow → OrderRow
put_solver solver shared existing = record existing {
  solver_pubkey = some solver;
  dispute_chat_shared_key_hex = shared;
}

module _ (before : String → String → Bool) where
  unfoldable pub upsert_user : UserRow → Db → Db
  unfolding get_user put
  upsert_user user db = record db {
    users = put user_key before (merged_user (get_user db) user) db.users;
  }

  -- `identity` is the public key at index 0 of the seed, and `now` the clock.
  unfoldable pub reserve_next_trade_index : (identity : String) (now none_base : ℤ) → Db → Db × ℤ
  unfolding get_user upsert_user
  reserve_next_trade_index identity now none_base db = elim (get_user db) [
    | some user ↦
        let next_index = or_default user.last_trade_index none_base +ℤ pos 1 in
        (upsert_user (record user { last_trade_index = some next_index }) db, next_index)
    | none ↦
        let next_index = none_base +ℤ pos 1 in
        (
          upsert_user
              (record {
                i0_pubkey = identity;
                last_trade_index = some next_index;
                created_at = now;
              })
              db,
          next_index,
        )
  ]

  -- a `get`, and a `put` of what `f` makes of the row, if there is one
  unfoldable pub update_order : String → (OrderRow → OrderRow) → Db → Db
  unfolding get put
  update_order id f db = elim (get order_key id db.orders) [
    | none ↦ db
    | some existing ↦ record db { orders = put order_key before (f existing) db.orders }
  ]

  unfoldable pub update_order_status : String → String → Db → Db
  unfolding update_order
  update_order_status order_id status db = update_order order_id (put_status status) db

  unfoldable pub update_last_seen_dm_ts : String → ℤ → Db → Db
  unfolding update_order
  update_last_seen_dm_ts order_id ts db = update_order order_id (put_last_seen ts) db

  unfoldable pub update_dispute_id : String → String → Db → Db
  unfolding update_order
  update_dispute_id order_id dispute_id db = update_order order_id (put_dispute dispute_id) db

  unfoldable pub save_chat_message : ChatMessageRow → Db → Db
  unfolding put
  save_chat_message row db = record db { chat = put chat_key before row db.chat }

  module _ (enc : Option FieldEncryptor) where
    unfoldable pub save_order : SaveOrderInput → Db → Db × Bool
    unfolding get put encrypt_string
    save_order order db =
        let existing = get order_key order.id db.orders in
        let row = put_row order (encrypt_string enc order.trade_keys) existing in
        (record db { orders = put order_key before row db.orders }, not (is_some existing))

    unfoldable pub update_solver_chat : String → String → String → Db → Db
    unfolding update_order encrypt_string_or_null
    update_solver_chat order_id solver shared db =
        update_order order_id (put_solver solver (encrypt_string_or_null enc (some shared))) db

module _ (enc : Option FieldEncryptor) where
  -- `decryptOrder` is the text of `orderDecrypt` of sqlite.ts.
  unfoldable pub get_order : String → Db → Option OrderRow
  unfolding get
  get_order order_id db = Option.map (order_decrypt enc) (get order_key order_id db.orders)

  is_active : List String → OrderRow → Bool
  is_active terminal row =
      or_default (Option.map (λ keys. not (keys == "")) row.trade_keys) false
      && or_default (Option.map (λ st. not (includes terminal (to_lower st))) row.status) true

  unfoldable pub get_active_orders : List String → Db → List OrderRow
  unfolding is_active
  get_active_orders terminal db = map (order_decrypt enc) (keep (is_active terminal) db.orders)

unfoldable pub get_chat_messages : String → String → Db → List ChatMessageRow
unfolding sort_by
get_chat_messages order_id scope db =
    sort_by sent_before (keep (λ m. m.order_id == order_id && m.scope == scope) db.chat)

unfoldable pub wipe : Db → Db
wipe db = record { users = []; orders = []; chat = [] }
