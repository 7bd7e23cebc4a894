-- ===== src/Store.antt =====
-- src/protocol/store.ts: the rows of the client's database, and what the rest of the client expects
-- of a backend, as operations with laws.
use mostro_ts_client.Common.{
  String, Bool, ◌≡◌, Option, none, some, if◌then◌else◌, ◌==◌, string_eq, or_else, is_some, not,
}
use mostro_ts_client.Common.Int.{ℤ, pos, max_ℤ}
use mathlib.Core.Option

pub record UserRow : Type 0 where
  pub i0_pubkey : String
  pub last_trade_index : Option ℤ
  pub created_at : ℤ

pub record OrderRow : Type 0 where
  pub id : String
  pub kind : Option String
  pub status : Option String
  pub amount : ℤ
  pub fiat_code : String
  pub min_amount : Option ℤ
  pub max_amount : Option ℤ
  pub fiat_amount : ℤ
  pub payment_method : String
  pub premium : ℤ
  pub trade_keys : Option String
  pub counterparty_pubkey : Option String
  pub is_mine : ℤ
  pub buyer_invoice : Option String
  pub request_id : Option ℤ
  pub trade_index : Option ℤ
  pub created_at : Option ℤ
  pub expires_at : Option ℤ
  pub last_seen_dm_ts : Option ℤ
  pub dispute_id : Option String
  pub solver_pubkey : Option String
  pub dispute_chat_shared_key_hex : Option String

-- the input of `saveOrder`
pub record SaveOrderInput : Type 0 where
  pub id : String
  pub kind : Option String
  pub status : Option String
  pub amount : ℤ
  pub fiat_code : String
  pub min_amount : Option ℤ
  pub max_amount : Option ℤ
  pub fiat_amount : ℤ
  pub payment_method : String
  pub premium : ℤ
  pub trade_keys : String
  pub counterparty_pubkey : Option String
  pub is_mine : Bool
  pub buyer_invoice : Option String
  pub request_id : Option ℤ
  pub trade_index : ℤ
  pub created_at : Option ℤ
  pub expires_at : Option ℤ

pub record ChatMessageRow : Type 0 where
  pub outer_event_id : String
  pub order_id : String
  pub scope : String
  pub sender : String
  pub content : String
  pub created_at : ℤ
  pub inner_event_id : String

-- A column that an existing row keeps through a save, null for a new row.
abbrev pub kept : {A : Type 0} → (OrderRow → Option A) → Option OrderRow → Option A
kept column none = none
kept column (some row) = column row

-- The rows that the operations promise, which each backend makes in its own way. The row after a
-- save, over the row that was there: the save gives every column but the creation
-- time, which is the first one known, and the four that other operations write.
abbrev pub saved_row : SaveOrderInput → (trade_keys : String) → Option OrderRow → OrderRow
saved_row order trade_keys existing = record {
  id = order.id;
  kind = order.kind;
  status = order.status;
  amount = order.amount;
  fiat_code = order.fiat_code;
  min_amount = order.min_amount;
  max_amount = order.max_amount;
  fiat_amount = order.fiat_amount;
  payment_method = order.payment_method;
  premium = order.premium;
  trade_keys = some trade_keys;
  counterparty_pubkey = order.counterparty_pubkey;
  is_mine = if order.is_mine then pos 1 else pos 0;
  buyer_invoice = order.buyer_invoice;
  request_id = order.request_id;
  trade_index = some order.trade_index;
  created_at = or_else (kept (λ r. r.created_at) existing) order.created_at;
  expires_at = order.expires_at;
  last_seen_dm_ts = kept (λ r. r.last_seen_dm_ts) existing;
  dispute_id = kept (λ r. r.dispute_id) existing;
  solver_pubkey = kept (λ r. r.solver_pubkey) existing;
  dispute_chat_shared_key_hex = kept (λ r. r.dispute_chat_shared_key_hex) existing;
}

-- the later of two times, where there may be no first one
abbrev pub later : Option ℤ → ℤ → ℤ
later none ts = ts
later (some last) ts = max_ℤ last ts

abbrev pub with_status : String → OrderRow → OrderRow
with_status status r = record r { status = some status }

abbrev pub with_last_seen : ℤ → OrderRow → OrderRow
with_last_seen ts r = record r { last_seen_dm_ts = some (later r.last_seen_dm_ts ts) }

abbrev pub with_dispute : String → OrderRow → OrderRow
with_dispute dispute r = record r { dispute_id = some dispute }

abbrev pub with_solver : String → Option String → OrderRow → OrderRow
with_solver solver shared r = record r {
  solver_pubkey = some solver;
  dispute_chat_shared_key_hex = shared;
}

-- A backend: `S` is the state of its database, and `get_order` shows a row as a client reads it.
pub record Store : Type 1 where
  pub S : Type 0
  pub get_order : String → S → Option OrderRow
  pub save_order : SaveOrderInput → S → S × Bool
  pub update_order_status : String → String → S → S
  pub update_last_seen_dm_ts : String → ℤ → S → S
  pub update_dispute_id : String → String → S → S
  pub update_solver_chat : String → String → String → S → S

module _ (store : Store) where
  open store use {
    S, get_order, save_order, update_order_status, update_last_seen_dm_ts, update_dispute_id,
    update_solver_chat,
  }

  -- What a backend promises: each operation writes its columns of the row with its key, if there is
  -- one, and a save writes a whole row; every other row reads as before.
  pub record IsStore : Type 0 where
    pub get-save :
        (order : SaveOrderInput) (id : String) (s : S)
        → get_order id (save_order order s).0 ≡ (
            if order.id == id
            then some (saved_row order order.trade_keys (get_order order.id s))
            else get_order id s)
    pub save_inserted :
        (order : SaveOrderInput) (s : S)
        → (save_order order s).1 ≡ not (is_some (get_order order.id s))
    pub get-update_status :
        (key status id : String) (s : S)
        → get_order id (update_order_status key status s)
          ≡ (if key == id then Option.map (with_status status) (get_order id s) else get_order id s)
    pub get-update_last_seen :
        (key : String) (ts : ℤ) (id : String) (s : S)
        → get_order id (update_last_seen_dm_ts key ts s)
          ≡ (if key == id then Option.map (with_last_seen ts) (get_order id s) else get_order id s)
    pub get-update_dispute :
        (key dispute id : String) (s : S)
        → get_order id (update_dispute_id key dispute s) ≡ (
            if key == id
            then Option.map (with_dispute dispute) (get_order id s)
            else get_order id s)
    pub get-update_solver :
        (key solver shared id : String) (s : S)
        → get_order id (update_solver_chat key solver shared s) ≡ (
            if key == id
            then Option.map (with_solver solver (some shared)) (get_order id s)
            else get_order id s)
