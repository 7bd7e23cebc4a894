-- ===== src/Client/Sending.antt =====
-- Sending chat messages, and waiting for an order to be listed (src/protocol/client.ts). `sent` gives
-- the id and the time of the event that is published for a secret, a peer and a text.
use mostro_ts_client.Common.{
  String, Bool, false, ◌≡◌, ◌≢◌, Option, none, some, List, [], ◌∷◌, if◌then◌else◌, ◌==◌, ◌||◌,
  string_eq, option_eq, Result, ok, err, ◌>>=◌,
}
use mostro_ts_client.Common.Int.{ℤ}
use mostro_ts_client.Order.{SmallOrder}
use mostro_ts_client.Store.{ChatMessageRow, Store}
use mostro_ts_client.UiStore.{ChatMessage, Scope, order}
use mostro_ts_client.Fault.{Fault, no_counterpart, no_solver, not_live}
use mostro_ts_client.Client.{
  Client, peer_trade_keys, require_trade_secret, solver_of, record_order_chat, record_dispute_chat,
}
use mostro_ts_client.Client.Chats.{duplicate_inert}

-- the message as the sender keeps it
abbrev pub own_message : String → String → String × ℤ → ChatMessage
own_message sender text (id, at) = record {
  content = text;
  sender = sender;
  created_at = at;
  inner_event_id = "";
  outer_event_id = id;
}

module _ (store : Store) (pubkey_from_secret : String → String)
    (derive_conv_secret derive_conv_pubkey : String → String → String)
    (save : ChatMessageRow → store.S → store.S) (sent : String → String → String → String × ℤ) where
  open store use {S, get_order}

  abbrev pub sent_to_peer :
      String → String → Option (String × String) → Client S → Result Fault (Client S)
  sent_to_peer order_id text none c = err no_counterpart
  sent_to_peer order_id text (some (secret, peer)) c = ok (
      record_order_chat save order_id
        (own_message (pubkey_from_secret secret) text (sent secret peer text)) c)

  unfoldable pub send_order_chat : String → String → Client S → Result Fault (Client S)
  send_order_chat order_id text c =
      sent_to_peer order_id text
        (peer_trade_keys store pubkey_from_secret derive_conv_secret derive_conv_pubkey order_id c)
        c

  abbrev pub sent_to_solver :
      String → String → String → Option String → Client S → Result Fault (Client S)
  sent_to_solver order_id text secret none c = err no_solver
  sent_to_solver order_id text secret (some solver) c = ok (
      record_dispute_chat save order_id
        (own_message (pubkey_from_secret secret) text (sent secret solver text)) c)

  unfoldable pub send_dispute_chat : String → String → Client S → Result Fault (Client S)
  send_dispute_chat order_id text c = do
    secret ← require_trade_secret order_id c
    sent_to_solver order_id text secret (solver_of (get_order order_id c.db)) c

  -- When the relays deliver a message that this client sent to the peer, it is not recorded again.
  pub echo_inert :
      (stored : String → Scope → S → List ChatMessageRow) (order_id text secret peer : String)
      (echo : ChatMessage) (c : Client S)
      → peer_trade_keys store pubkey_from_secret derive_conv_secret derive_conv_pubkey order_id c
        ≡ some (secret, peer)
      → (sent secret peer text).0 ≢ ""
      → echo.outer_event_id ≡ (sent secret peer text).0
      → (c' : Client S) × (send_order_chat order_id text c ≡ ok c')
        × (record_order_chat save order_id echo c' ≡ c')
  unfolding send_order_chat
  echo_inert stored order_id text secret peer echo c e n k =
      let msg = own_message (pubkey_from_secret secret) text (sent secret peer text) in
      (
        record_order_chat save order_id msg c,
        rw e,
        duplicate_inert save stored order order_id msg [] order order_id echo c n k,
      )

-- `book.some((o) => o.id === orderId)`
abbrev pub listed : String → List SmallOrder → Bool
listed order_id [] = false
listed order_id (o ∷ os) = o.id == some order_id || listed order_id os

-- `books` are the order books of the polls until the deadline, the last one after it
unfoldable pub wait_for_order_live : String → List (List SmallOrder) → Result Fault (Unit {0})
wait_for_order_live order_id [] = err not_live
wait_for_order_live order_id (book ∷ books) =
    let rest = wait_for_order_live order_id books in if listed order_id book then ok tt else rest
