-- ===== src/Client.antt =====
-- src/protocol/client.ts: what MostroClient keeps, and the parts of it that no request makes: the
-- routed messages, the chats and the orders taken up again from the database. A `Map` is the list of its
-- entries, a `Set` the list of what was added. The callbacks of a page are left out.
pub mod Exchange
pub mod Requests
pub mod Chats
pub mod Peers
pub mod Answers
pub mod Cancel
pub mod Stored
pub mod Sending
pub mod Routing
use mostro_ts_client.Common.{
  String, Bool, true, false, ◌&&◌, not, Option, none, some, List, [], ◌∷◌, ◌++◌, map, if◌then◌else◌,
  ◌==◌, ◌!=◌, string_eq, or_default, or_else, is_some, Result, ok, err,
}
use mathlib.Core.Option
use mostro_ts_client.Common.Dict.{lookup, insert}
use mostro_ts_client.Common.Lists.{includes}
use mostro_ts_client.Common.Int.{ℤ}
use mostro_ts_client.Message.{Payload, Message}
use mostro_ts_client.Store.{OrderRow, ChatMessageRow, Store}
use mostro_ts_client.Applicator.{AppliedDmResult, apply_trade_dm}
use mostro_ts_client.DmRouter.{Router, ensure_subscription}
use mostro_ts_client.Flow.{nonempty}
use mostro_ts_client.Fault.{Fault, no_active_trade}
use mostro_ts_client.UiStore.{ChatMessage, Scope, order, dispute}

pub record Dm : Type 0 where
  pub timestamp : ℤ
  pub message : Message

-- S is the state of the database
pub record Client (S : Type 0) : Type 0 where
  pub db : S
  pub router : Option Router
  pub trades : List (String × String)
  pub message_history : List (String × List Dm)
  pub order_chat_history : List (String × List ChatMessage)
  pub dispute_chat_history : List (String × List ChatMessage)
  pub chat_subscribed : List String
  pub chat_seen : List String

abbrev pub scope_name : Scope → String
scope_name order = "order"
scope_name dispute = "dispute"

abbrev pub chat_row : String → Scope → ChatMessage → ChatMessageRow
chat_row order_id scope msg = record {
  outer_event_id = msg.outer_event_id;
  order_id = order_id;
  scope = scope_name scope;
  sender = msg.sender;
  content = msg.content;
  created_at = msg.created_at;
  inner_event_id = msg.inner_event_id;
}

abbrev pub to_message : ChatMessageRow → ChatMessage
to_message r = record {
  content = r.content;
  sender = r.sender;
  created_at = r.created_at;
  inner_event_id = r.inner_event_id;
  outer_event_id = r.outer_event_id;
}

-- `map.get(id) ?? []` with an element pushed
abbrev pub appended : {A : Type 0} → String → A → List (String × List A) → List (String × List A)
appended id a histories = insert id (or_default (lookup id histories) [] ++ a ∷ []) histories

-- `if (msg.outerEventId) this.chatSeen.add(msg.outerEventId)`
abbrev pub mark_seen : String → List String → List String
mark_seen id seen = if id != "" then id ∷ seen else seen

-- `o.buyer_trade_pubkey && o.buyer_trade_pubkey !== myPub`
abbrev pub foreign : String → Option String → Option String
foreign mine none = none
foreign mine (some pubkey) = if pubkey != "" && pubkey != mine then some pubkey else none

unfoldable pub peer_in : String → Option Payload → Option String
peer_in mine (some (Payload.order o)) =
    or_else (foreign mine o.buyer_trade_pubkey) (foreign mine o.seller_trade_pubkey)
peer_in mine _ = none

unfoldable pub peer_of_history : String → List Dm → Option String
peer_of_history mine [] = none
peer_of_history mine (dm ∷ dms) =
    or_else (peer_in mine dm.message.value.payload) (peer_of_history mine dms)

-- `order?.counterparty_pubkey`
abbrev pub counterparty : Option OrderRow → Option String
counterparty none = none
counterparty (some row) = nonempty row.counterparty_pubkey

-- the peer's key: that of the row, or the first in the messages
abbrev pub peer_known : Option String → Option String → Option String
peer_known none other = other
peer_known (some pubkey) other = some pubkey

-- `!order?.solver_pubkey || !order.dispute_chat_shared_key_hex`
abbrev pub solver_of : Option OrderRow → Option String
solver_of none = none
solver_of (some row) =
    if is_some (nonempty row.dispute_chat_shared_key_hex) then nonempty row.solver_pubkey else none

-- `if (order.trade_keys && order.trade_index !== null)`
abbrev pub secret_of : OrderRow → Option String
secret_of row = if is_some row.trade_index then nonempty row.trade_keys else none

abbrev pub track_order :
    (pubkey_from_secret : String → String) → String → String → Option Router → Option Router
track_order pubkey_from_secret order_id secret router =
    Option.map (ensure_subscription pubkey_from_secret order_id secret) router

module _ {S : Type 0} where
  abbrev pub is_seen : String → Client S → Bool
  is_seen id c = id != "" && includes c.chat_seen id

  -- `this.trades.get(orderId)`, where an empty secret counts as none
  abbrev pub trade_secret : String → Client S → Option String
  trade_secret order_id c = nonempty (lookup order_id c.trades)

  unfoldable pub record_message : Option String → Message → ℤ → Client S → Client S
  record_message order_id message timestamp c = elim (nonempty order_id) [
    | none ↦ c
    | some id ↦ record c {
      message_history =
          appended id (record { timestamp = timestamp; message = message }) c.message_history;
    }
  ]

  unfoldable pub get_messages : String → Client S → List Dm
  get_messages order_id c = or_default (lookup order_id c.message_history) []

  unfoldable pub require_trade_secret : String → Client S → Result Fault String
  require_trade_secret order_id c = elim (trade_secret order_id c) [
    | none ↦ err no_active_trade
    | some secret ↦ ok secret
  ]

  -- `save` is the backend's saveChatMessage
  module _ (save : ChatMessageRow → S → S) where
    unfoldable pub record_order_chat : String → ChatMessage → Client S → Client S
    record_order_chat order_id msg c = if is_seen msg.outer_event_id c then c else record c {
      db = save (chat_row order_id order msg) c.db;
      order_chat_history = appended order_id msg c.order_chat_history;
      chat_seen = mark_seen msg.outer_event_id c.chat_seen;
    }

    unfoldable pub record_dispute_chat : String → ChatMessage → Client S → Client S
    record_dispute_chat order_id msg c = if is_seen msg.outer_event_id c then c else record c {
      db = save (chat_row order_id dispute msg) c.db;
      dispute_chat_history = appended order_id msg c.dispute_chat_history;
      chat_seen = mark_seen msg.outer_event_id c.chat_seen;
    }

  -- `stored` is the backend's getChatMessages
  module _ (stored : String → Scope → S → List ChatMessageRow) where
    abbrev pub loaded : String → Client S → Client S
    loaded order_id c =
        let orders = stored order_id order c.db in
        let disputes = stored order_id dispute c.db in
        record c {
          order_chat_history = insert order_id (map to_message orders) c.order_chat_history;
          dispute_chat_history = insert order_id (map to_message disputes) c.dispute_chat_history;
          chat_seen = map (λ r. r.outer_event_id) (orders ++ disputes) ++ c.chat_seen;
        }

    unfoldable pub hydrate_chat : String → Client S → Client S
    hydrate_chat order_id c =
        if is_some (lookup order_id c.order_chat_history) then c else loaded order_id c

-- the key derivations: a secret's public key, the chat's convSecretHex and its convPubkeyHex
module _ (store : Store) (pubkey_from_secret : String → String)
    (derive_conv_secret derive_conv_pubkey : String → String → String) where
  open store use {S, get_order}

  unfoldable pub peer_trade_keys : String → Client S → Option (String × String)
  peer_trade_keys order_id c = elim (trade_secret order_id c) [
    | none ↦ none
    | some secret ↦
        Option.map (λ pubkey. (secret, pubkey))
          (peer_known (counterparty (get_order order_id c.db))
            (peer_of_history (pubkey_from_secret secret) (get_messages order_id c)))
  ]

  unfoldable pub can_order_chat : String → Client S → Bool
  can_order_chat order_id c = is_some (peer_trade_keys order_id c)

  abbrev pub subscribe_chat : String → Client S → Client S
  subscribe_chat conv c =
      if includes c.chat_subscribed conv
      then c
      else record c { chat_subscribed = conv ∷ c.chat_subscribed }

  unfoldable pub track_order_chat : String → Client S → Client S
  track_order_chat order_id c = elim (peer_trade_keys order_id c) [
    | none ↦ c
    | some (secret, pubkey) ↦ subscribe_chat (derive_conv_pubkey secret pubkey) c
  ]

  abbrev pub dispute_tracked : Option String → Option String → Client S → Client S
  dispute_tracked (some secret) (some solver) c =
      subscribe_chat (derive_conv_pubkey secret solver) c
  dispute_tracked _ _ c = c

  unfoldable pub track_dispute_chat : String → Client S → Client S
  track_dispute_chat order_id c =
      dispute_tracked (trade_secret order_id c) (solver_of (get_order order_id c.db)) c

  -- what the router hands on for an order, and what the page is told
  unfoldable pub handle_inbound_dm : String → Message → Client S → Client S × Option AppliedDmResult
  handle_inbound_dm order_id message c = elim (trade_secret order_id c) [
    | none ↦ (c, none)
    | some secret ↦
        let (db, result) =
          apply_trade_dm store pubkey_from_secret derive_conv_secret order_id secret message c.db in
        let c' = record c { db = db } in
        (if is_some result.solver then track_dispute_chat order_id c' else c', some result)
  ]

  abbrev pub retracked : String → Option String → Client S → Client S
  retracked id none c = c
  retracked id (some secret) c = record c {
    trades = insert id secret c.trades;
    router = track_order pubkey_from_secret id secret c.router;
  }

  -- the orders that `start` and `restore` take up again, `active` being those of getActiveOrders
  unfoldable pub resume_orders :
      (String → Scope → S → List ChatMessageRow) → List OrderRow → Client S → Client S
  resume_orders stored [] c = c
  resume_orders stored (row ∷ active) c =
      let c1 = retracked row.id (secret_of row) c in
      let c2 = if is_some (nonempty row.solver_pubkey) then track_dispute_chat row.id c1 else c1 in
      resume_orders stored active (hydrate_chat stored row.id c2)
