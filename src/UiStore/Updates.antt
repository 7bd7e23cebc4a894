-- ===== src/UiStore/Updates.antt =====
-- What the updates of src/react/store.ts do to trades and chats.
use mostro_ts_client.Common.{
  String, Bool, true, false, ◌≡◌, refl, ◌∙◌, some, List, [], ◌∷◌, ◌++◌, if◌then◌else◌, ◌==◌,
  string_eq, or_default, sym, ◌&&◌, Bool-cases, inl, inr, String-discrete, ==_of_eq, ==_of_ne,
}
use mathlib.Core.List.{append_assoc, append-nil}
use mostro_ts_client.Common.Dict.{lookup, lookup-insert}
use mostro_ts_client.UiStore.{
  ChatMessage, MyTradeRow, TradeUpdate, OrderChats, Scope, order, dispute, MostroUiState,
  fresh_trade, no_chats, merged_trade, with_message, upsert_trade, upsert_chat_message,
}

-- the messages of one conversation
abbrev pub conversation : Scope → OrderChats → List ChatMessage
conversation order chats = chats.order
conversation dispute chats = chats.dispute

-- messages in the order of their arrival, each with its order and conversation
abbrev pub Arrival : Type 0
Arrival = String × Scope × ChatMessage

abbrev pub same_scope : Scope → Scope → Bool
same_scope order order = true
same_scope dispute dispute = true
same_scope _ _ = false

-- those of one conversation
abbrev pub received : String → Scope → List Arrival → List ChatMessage
received id scope [] = []
received id scope ((i, c, msg) ∷ rest) =
    let more = received id scope rest in if i == id && same_scope c scope then msg ∷ more else more

conversation_lem :
    (c scope : Scope) (msg : ChatMessage) (chats : OrderChats)
    → conversation scope (with_message c msg chats) ≡ (
        if same_scope c scope
        then conversation scope chats ++ msg ∷ []
        else conversation scope chats)
conversation_lem order order msg chats = refl
conversation_lem order dispute msg chats = refl
conversation_lem dispute order msg chats = refl
conversation_lem dispute dispute msg chats = refl

module _ {Info : Type 0} where
  -- a trade's row, as the code reads it
  abbrev pub trade_of : String → MostroUiState Info → MyTradeRow
  trade_of id s = or_default (lookup id s.trades) (fresh_trade id)

  abbrev pub history : String → Scope → MostroUiState Info → List ChatMessage
  history id scope s = conversation scope (or_default (lookup id s.chats) no_chats)

  -- A trade update merges the given fields into that trade's row, or into a fresh row, and leaves every
  -- other trade, the chats, the order book and the user as they were.
  pub upsert_trade_merges :
      (id other : String) (row : TradeUpdate) (s : MostroUiState Info)
      → (lookup other (upsert_trade id row s).trades ≡ (
          if id == other then some (merged_trade (trade_of id s) row) else lookup other s.trades))
        × ((upsert_trade id row s).chats ≡ s.chats)
        × ((upsert_trade id row s).orders ≡ s.orders)
        × ((upsert_trade id row s).user ≡ s.user)
  unfolding upsert_trade
  upsert_trade_merges id other row s =
      (lookup-insert other id (merged_trade (trade_of id s) row) s.trades, refl, refl, refl)

  abbrev pub arrive : List Arrival → MostroUiState Info → MostroUiState Info
  arrive [] s = s
  arrive ((id, scope, msg) ∷ rest) s = arrive rest (upsert_chat_message id scope msg s)

  history-upsert :
      (i id : String) (c scope : Scope) (msg : ChatMessage) (s : MostroUiState Info)
      → history id scope (upsert_chat_message i c msg s) ≡ (
          if i == id && same_scope c scope
          then history id scope s ++ msg ∷ []
          else history id scope s)
  unfolding upsert_chat_message
  history-upsert i id c scope msg s =
      let existing = or_default (lookup i s.chats) no_chats in
      rw (lookup-insert id i (with_message c msg existing) s.chats) (elim (String-discrete i id) [
        | yes e ↦ rw (==_of_eq i id e, e) (conversation_lem c scope msg _)
        | no n ↦ rw (==_of_ne i id n)
      ])

  -- After any messages the history of a conversation is what it was, followed by the messages of that
  -- order and conversation in the order of their arrival: none is lost, doubled or put elsewhere.
  pub history-arrive :
      (id : String) (scope : Scope) (arrivals : List Arrival) (s : MostroUiState Info)
      → history id scope (arrive arrivals s) ≡ history id scope s ++ received id scope arrivals
  history-arrive id scope [] s = sym (append-nil (history id scope s))
  history-arrive id scope ((i, c, msg) ∷ rest) s =
      elim (Bool-cases (i == id && same_scope c scope)) [
        | inl e ↦
            history-arrive id scope rest (upsert_chat_message i c msg s)
            ∙ rw (history-upsert i id c scope msg s, e)
                (append_assoc (history id scope s) (msg ∷ []) (received id scope rest))
        | inr e ↦
            history-arrive id scope rest (upsert_chat_message i c msg s)
            ∙ rw (history-upsert i id c scope msg s, e)
      ]
