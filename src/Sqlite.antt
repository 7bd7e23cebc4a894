-- ===== src/Sqlite.antt =====
-- src/protocol/sqlite.ts: the SQLite backend. A table is the list of its rows in the order of
-- insertion; a statement is a function on the tables.
pub mod Orders
pub mod Users
use mostro_ts_client.Common.{
  ℕ, String, Bool, true, false, ◌&&◌, ◌||◌, not, ◌≡◌, Option, none, some, List, [], ◌∷◌, ◌++◌, map,
  if◌then◌else◌, ◌==◌, string_eq, or_default, or_else, is_some,
}
use mathlib.Core.Option
use mostro_ts_client.Common.Text.{lower_ascii}
use mostro_ts_client.Common.Lists.{find_first, keep, includes}
use mostro_ts_client.Common.Sort.{sort_by}
use mostro_ts_client.Common.Int.{ℤ, pos, ◌+ℤ◌, ltb_ℤ, max_ℤ}
use mostro_ts_client.Encryption.{
  FieldEncryptor, encrypt_string, decrypt_string, encrypt_string_or_null, decrypt_string_or_null,
}
use mostro_ts_client.Store.{UserRow, OrderRow, SaveOrderInput, ChatMessageRow}

pub record Db : Type 0 where
  pub users : List UserRow
  pub orders : List OrderRow
  pub chat_messages : List ChatMessageRow

-- `SELECT … WHERE id = ? LIMIT 1`
pub find_order : String → List OrderRow → Option OrderRow
find_order id rows = find_first (λ r. r.id == id) rows

-- `UPDATE orders SET … WHERE id = ?`
pub update_orders : String → (OrderRow → OrderRow) → List OrderRow → List OrderRow
update_orders id f [] = []
update_orders id f (r ∷ rows) = (if r.id == id then f r else r) ∷ update_orders id f rows

-- `INSERT … ON CONFLICT(id) DO UPDATE SET …`: `row` of what was there
pub insert_order : String → (Option OrderRow → OrderRow) → List OrderRow → List OrderRow
insert_order id row [] = row none ∷ []
insert_order id row (r ∷ rows) =
    if r.id == id then row (some r) ∷ rows else r ∷ insert_order id row rows

-- `VALUES (…)`: the time of the last message and the columns that are not listed are null
abbrev pub inserted_row : SaveOrderInput → String → OrderRow
inserted_row order trade_keys = record {
  id = order.id;
  kind = order.kind;
  status = order.status;
  amount = order.amount;
  fiat_code = order.fiat_code;
  min_amount = order.min_amount;
  max_amount = order.max_amount;
  fiat_amount = order.fiat_amount;
  payment_method = order.payment_method;
  premium = order.premium;
  trade_keys = some trade_keys;
  counterparty_pubkey = order.counterparty_pubkey;
  is_mine = if order.is_mine then pos 1 else pos 0;
  buyer_invoice = order.buyer_invoice;
  request_id = order.request_id;
  trade_index = some order.trade_index;
  created_at = order.created_at;
  expires_at = order.expires_at;
  last_seen_dm_ts = none;
  dispute_id = none;
  solver_pubkey = none;
  dispute_chat_shared_key_hex = none;
}

-- `DO UPDATE SET …`, on the row with the same id
abbrev pub updated_row : SaveOrderInput → String → OrderRow → OrderRow
updated_row order trade_keys r = record r {
  id = order.id;
  kind = order.kind;
  status = order.status;
  amount = order.amount;
  fiat_code = order.fiat_code;
  min_amount = order.min_amount;
  max_amount = order.max_amount;
  fiat_amount = order.fiat_amount;
  payment_method = order.payment_method;
  premium = order.premium;
  trade_keys = some trade_keys;
  counterparty_pubkey = order.counterparty_pubkey;
  is_mine = if order.is_mine then pos 1 else pos 0;
  buyer_invoice = order.buyer_invoice;
  request_id = order.request_id;
  trade_index = some order.trade_index;
  created_at = or_else r.created_at order.created_at;
  expires_at = order.expires_at;
}

abbrev pub upserted_row : SaveOrderInput → String → Option OrderRow → OrderRow
upserted_row order trade_keys none = inserted_row order trade_keys
upserted_row order trade_keys (some r) = updated_row order trade_keys r

-- `CASE WHEN last_seen_dm_ts IS NULL OR ? > last_seen_dm_ts THEN ? ELSE last_seen_dm_ts END`
abbrev pub newer_seen : Option ℤ → ℤ → ℤ
newer_seen none ts = ts
newer_seen (some last) ts = if ltb_ℤ last ts then ts else last

-- the SET parts of the four updates
abbrev pub set_status : String → OrderRow → OrderRow
set_status status r = record r { status = some status }

abbrev pub set_last_seen : ℤ → OrderRow → OrderRow
set_last_seen ts r = record r { last_seen_dm_ts = some (newer_seen r.last_seen_dm_ts ts) }

abbrev pub set_dispute : String → OrderRow → OrderRow
set_dispute dispute r = record r { dispute_id = some dispute }

abbrev pub set_solver : String → Option String → OrderRow → OrderRow
set_solver solver shared r = record r {
  solver_pubkey = some solver;
  dispute_chat_shared_key_hex = shared;
}

module _ (enc : Option FieldEncryptor) where
  -- `row.trade_keys ? decrypt(…) : row.trade_keys`, for the two columns
  unfoldable pub order_decrypt : OrderRow → OrderRow
  unfolding decrypt_string_or_null
  order_decrypt row = record row {
    trade_keys = decrypt_string_or_null enc row.trade_keys;
    dispute_chat_shared_key_hex = decrypt_string_or_null enc row.dispute_chat_shared_key_hex;
  }

  unfoldable pub get_order : String → Db → Option OrderRow
  unfolding order_decrypt find_order
  get_order id db = Option.map order_decrypt (find_order id db.orders)

  unfoldable pub save_order : SaveOrderInput → Db → Db × Bool
  unfolding find_order insert_order encrypt_string
  save_order order db =
      let existing = find_order order.id db.orders in
      let trade_keys = encrypt_string enc order.trade_keys in
      (
        record db { orders = insert_order order.id (upserted_row order trade_keys) db.orders },
        not (is_some existing),
      )

  unfoldable pub update_solver_chat : String → String → String → Db → Db
  unfolding update_orders encrypt_string_or_null
  update_solver_chat order_id solver shared db =
      let encrypted = encrypt_string_or_null enc (some shared) in
      record db { orders = update_orders order_id (set_solver solver encrypted) db.orders }

  -- trade_keys given and not empty, and a status that is null or not among the terminal ones
  is_active : List String → OrderRow → Bool
  is_active terminal row =
      or_default (Option.map (λ keys. not (keys == "")) row.trade_keys) false
      && or_default (Option.map (λ st. not (includes terminal (lower_ascii st))) row.status) true

  unfoldable pub get_active_orders : List String → Db → List OrderRow
  unfolding is_active order_decrypt
  get_active_orders terminal db = map order_decrypt (keep (is_active terminal) db.orders)

unfoldable pub update_order_status : String → String → Db → Db
unfolding update_orders
update_order_status order_id status db = record db {
  orders = update_orders order_id (set_status status) db.orders;
}

unfoldable pub update_last_seen_dm_ts : String → ℤ → Db → Db
unfolding update_orders
update_last_seen_dm_ts order_id ts db = record db {
  orders = update_orders order_id (set_last_seen ts) db.orders;
}

unfoldable pub update_dispute_id : String → String → Db → Db
unfolding update_orders
update_dispute_id order_id dispute_id db = record db {
  orders = update_orders order_id (set_dispute dispute_id) db.orders;
}

-- `MAX(COALESCE(old, 0), COALESCE(new, 0))`
abbrev pub newer_index : Option ℤ → Option ℤ → ℤ
newer_index old new = max_ℤ (or_default old (pos 0)) (or_default new (pos 0))

insert_user : UserRow → List UserRow → List UserRow
insert_user user [] = user ∷ []
insert_user user (u ∷ us) =
    if u.i0_pubkey == user.i0_pubkey
    then record u {
      last_trade_index = some (newer_index u.last_trade_index user.last_trade_index);
      created_at = user.created_at;
    }
      ∷ us
    else u ∷ insert_user user us

unfoldable pub upsert_user : UserRow → Db → Db
unfolding insert_user
upsert_user user db = record db { users = insert_user user db.users }

-- `SELECT … FROM users LIMIT 1`
abbrev first : List UserRow → Option UserRow
first [] = none
first (u ∷ us) = some u

unfoldable pub get_user : Db → Option UserRow
get_user db = first db.users

-- `UPDATE users SET last_trade_index = ? WHERE i0_pubkey = ?`
set_index : String → ℤ → List UserRow → List UserRow
set_index pubkey index [] = []
set_index pubkey index (u ∷ us) =
    (if u.i0_pubkey == pubkey then record u { last_trade_index = some index } else u)
    ∷ set_index pubkey index us

abbrev last_index : Option UserRow → Option ℤ
last_index none = none
last_index (some u) = u.last_trade_index

-- the reserved index; its keys are derived from the seed outside the database
unfoldable pub reserve_next_trade_index : ℤ → Db → Db × ℤ
unfolding get_user set_index
reserve_next_trade_index none_base db =
    let user = get_user db in
    let pubkey = or_default (Option.map (λ u. u.i0_pubkey) user) "" in
    let next_index = or_default (last_index user) none_base +ℤ pos 1 in
    (record db { users = set_index pubkey next_index db.users }, next_index)

-- `INSERT OR IGNORE`
unfoldable pub save_chat_message : ChatMessageRow → Db → Db
save_chat_message row db =
    elim (find_first (λ m. m.outer_event_id == row.outer_event_id) db.chat_messages) [
      | none ↦ record db { chat_messages = db.chat_messages ++ row ∷ [] }
      | some _ ↦ db
    ]

abbrev pub sent_before : ChatMessageRow → ChatMessageRow → Bool
sent_before x y = ltb_ℤ x.created_at y.created_at

-- `ORDER BY created_at ASC`
unfoldable pub get_chat_messages : String → String → Db → List ChatMessageRow
unfolding sort_by
get_chat_messages order_id scope db =
    sort_by sent_before (keep (λ m. m.order_id == order_id && m.scope == scope) db.chat_messages)

unfoldable pub wipe : Db → Db
wipe db = record { users = []; orders = []; chat_messages = [] }
