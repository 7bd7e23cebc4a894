-- ===== src/UiStore.antt =====
-- src/react/store.ts: the state of the user interface and the updates of it. zustand keeps the state and
-- merges what `setState` is given into it; an update here returns the new state.
pub mod Updates
use mostro_ts_client.Common.{
  String, Option, none, some, List, [], ◌∷◌, ◌++◌, if◌then◌else◌, ◌==◌, string_eq, or_default,
}
use mostro_ts_client.Common.Dict.{lookup, insert}
use mostro_ts_client.Common.Int.{ℤ}
use mostro_ts_client.Order.{SmallOrder}

-- a chat message of chat.ts
pub record ChatMessage : Type 0 where
  pub content : String
  pub sender : String
  pub created_at : ℤ
  pub inner_event_id : String
  pub outer_event_id : String

pub data ClientStatus : Type 0 where
  idle connecting ready error : ClientStatus

pub record MyTradeRow : Type 0 where
  pub id : String
  pub status : Option String
  pub last_action : Option String
  pub dispute_id : Option String

-- a Partial<MyTradeRow>: `none` for a field that is not given
pub record TradeUpdate : Type 0 where
  pub id : Option String
  pub status : Option (Option String)
  pub last_action : Option (Option String)
  pub dispute_id : Option (Option String)

pub record OrderChats : Type 0 where
  pub order : List ChatMessage
  pub dispute : List ChatMessage

pub data Scope : Type 0 where
  order dispute : Scope

pub record UiUser : Type 0 where
  pub pubkey : String
  pub last_trade_index : ℤ

-- Info is the type of an instance's information
pub record MostroUiState (Info : Type 0) : Type 0 where
  pub status : ClientStatus
  pub orders : List SmallOrder
  pub trades : List (String × MyTradeRow)
  pub chats : List (String × OrderChats)
  pub user : Option UiUser
  pub instance_info : Option Info
  pub last_error : Option String

abbrev pub fresh_trade : String → MyTradeRow
fresh_trade order_id = record {
  id = order_id;
  status = none;
  last_action = none;
  dispute_id = none;
}

abbrev pub no_chats : OrderChats
no_chats = record { order = []; dispute = [] }

-- `{ ...existing, ...row }`
abbrev pub merged_trade : MyTradeRow → TradeUpdate → MyTradeRow
merged_trade existing row = record {
  id = or_default row.id existing.id;
  status = or_default row.status existing.status;
  last_action = or_default row.last_action existing.last_action;
  dispute_id = or_default row.dispute_id existing.dispute_id;
}

-- `{ ...existing, [scope]: [...existing[scope], msg] }`
abbrev pub with_message : Scope → ChatMessage → OrderChats → OrderChats
with_message order msg chats = record chats { order = chats.order ++ msg ∷ [] }
with_message dispute msg chats = record chats { dispute = chats.dispute ++ msg ∷ [] }

module _ {Info : Type 0} where
  unfoldable pub initial_state : MostroUiState Info
  initial_state = record {
    status = idle;
    orders = [];
    trades = [];
    chats = [];
    user = none;
    instance_info = none;
    last_error = none;
  }

  unfoldable pub connect : MostroUiState Info → MostroUiState Info
  connect s = record s { status = connecting }

  unfoldable pub disconnect : MostroUiState Info → MostroUiState Info
  disconnect s = record s { status = idle }

  unfoldable pub set_instance_info : Option Info → MostroUiState Info → MostroUiState Info
  set_instance_info info s = record s { instance_info = info }

  unfoldable pub set_status : ClientStatus → Option String → MostroUiState Info → MostroUiState Info
  set_status status message s = record s { status = status; last_error = message }

  unfoldable pub set_orders : List SmallOrder → MostroUiState Info → MostroUiState Info
  set_orders orders s = record s { orders = orders }

  unfoldable pub upsert_trade : String → TradeUpdate → MostroUiState Info → MostroUiState Info
  upsert_trade order_id row s =
      let existing = or_default (lookup order_id s.trades) (fresh_trade order_id) in
      record s { trades = insert order_id (merged_trade existing row) s.trades }

  unfoldable pub upsert_chat_message :
      String → Scope → ChatMessage → MostroUiState Info → MostroUiState Info
  upsert_chat_message order_id scope msg s =
      let existing = or_default (lookup order_id s.chats) no_chats in
      record s { chats = insert order_id (with_message scope msg existing) s.chats }

  -- the identity that the client reports, and the one that the page sets
  unfoldable pub bound_set_user : UiUser → MostroUiState Info → MostroUiState Info
  bound_set_user user s = record s { user = some user; status = ready }

  unfoldable pub set_user : UiUser → MostroUiState Info → MostroUiState Info
  set_user user s = record s { user = some user }

  unfoldable pub reset : MostroUiState Info → MostroUiState Info
  unfolding initial_state
  reset s = initial_state
