-- ===== src/Tests.antt =====
-- Concrete data for the examples of the theorems.
mod Machine
mod Messages
mod Database
mod Book
mod Routing
mod Instance
mod Restoring
mod Wiring
mod Channel
mod Invoices
mod Interface
mod Clients
mod Chatting
mod Payments
use mostro_ts_client.Common.{String, Option, none, some, List, [], ◌∷◌}
use mostro_ts_client.Common.Int.{ℤ, pos}
use mostro_ts_client.Kind.{buy}
use mostro_ts_client.Status.{Status}
use mostro_ts_client.Action.{Action}
use mostro_ts_client.Order.{SmallOrder}
use mostro_ts_client.OrderBook.{OrderEvent, empty_order}
use mostro_ts_client.Message.{Payload, MessageKind, Message, new_message_kind, new_order_message}
use mostro_ts_client.Store.{OrderRow, UserRow}
use mostro_ts_client.Sqlite
use mostro_ts_client.Idb

abbrev pub sample_order : SmallOrder
sample_order = record empty_order {
  id = some "o1";
  kind = some buy;
  fiat_code = "USD";
  fiat_amount = pos 30;
  min_amount = some (pos 10);
  max_amount = some (pos 100);
}

abbrev pub sample_row : OrderRow
sample_row = record {
  id = "o1";
  kind = some "buy";
  status = some "success";
  amount = pos 0;
  fiat_code = "USD";
  min_amount = none;
  max_amount = none;
  fiat_amount = pos 30;
  payment_method = "cash";
  premium = pos 0;
  trade_keys = some "secret";
  counterparty_pubkey = none;
  is_mine = pos 1;
  buyer_invoice = none;
  request_id = some (pos 7);
  trade_index = some (pos 2);
  created_at = some (pos 100);
  expires_at = none;
  last_seen_dm_ts = none;
  dispute_id = none;
  solver_pubkey = none;
  dispute_chat_shared_key_hex = none;
}

abbrev pub sample_user : UserRow
sample_user = record { i0_pubkey = "me"; last_trade_index = some (pos 4); created_at = pos 1 }

abbrev pub sample_db : Sqlite.Db
sample_db = record { users = sample_user ∷ []; orders = sample_row ∷ []; chat_messages = [] }

abbrev pub empty_db : Sqlite.Db
empty_db = record { users = []; orders = []; chat_messages = [] }

abbrev pub idb_db : Idb.Db
idb_db = record { users = sample_user ∷ []; orders = []; chat = [] }

abbrev pub message_of : Action → Option Payload → Message
message_of action payload = new_order_message (some "o1") (some (pos 7)) none action payload

abbrev pub event_at : String → ℤ → OrderEvent
event_at id at = record {
  id = "e";
  pubkey = "mostro";
  created_at = at;
  tags = ("d" ∷ id ∷ []) ∷ ("k" ∷ "buy" ∷ []) ∷ ("s" ∷ "pending" ∷ []) ∷ [];
}
