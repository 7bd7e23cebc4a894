-- ===== src/Applicator/History.antt =====
-- The messages of several orders, applied one after another.
use mostro_ts_client.Common.{String, ◌≡◌, ◌≢◌, true, some, List, [], ◌∷◌, String-discrete, ◌∙◌, sym}
use mathlib.Core.Path.{subst}
use mostro_ts_client.Common.Lists.{All}
use mostro_ts_client.Status.{Status}
use mostro_ts_client.Action.{Action}
use mostro_ts_client.StateMachine.{is_terminal_trade_status, parse_status}
use mostro_ts_client.Message.{Message}
use mostro_ts_client.Store.{OrderRow, Store, IsStore}
use mostro_ts_client.Applicator.{apply_trade_dm}
use mostro_ts_client.Applicator.Reads.{apply_frame}
use mostro_ts_client.Applicator.Guarded.{apply_terminal_sticky}

-- a message for an order, with the order's trade secret
pub record Arrival : Type 0 where
  pub order_id : String
  pub secret : String
  pub message : Message

module _ (store : Store) (pubkey_from_secret : String → String)
    (derive_conv_secret : String → String → String) where
  open store use {S, get_order}

  unfoldable pub apply_history : List Arrival → S → S
  unfolding apply_trade_dm
  apply_history [] s = s
  apply_history (a ∷ arrivals) s =
      apply_history arrivals
        (apply_trade_dm store pubkey_from_secret derive_conv_secret a.order_id a.secret a.message
          s).0

  module _ (laws : IsStore store) (c : Status) where
    -- the row is there, with the status
    Settled : String → S → Type 0
    Settled id s =
        (row : OrderRow) × (get_order id s ≡ some row) × (parse_status row.status ≡ some c)

    Settled-own :
        (a : Arrival) (s : S)
        → is_terminal_trade_status c ≡ true
        → a.message.value.action ≢ Action.add_invoice
        → Settled a.order_id s
        → Settled a.order_id
            (apply_trade_dm store pubkey_from_secret derive_conv_secret a.order_id a.secret
              a.message s).0
    unfolding Settled
    Settled-own a s terminal quiet (row, read, parsed) =
        apply_terminal_sticky store laws pubkey_from_secret derive_conv_secret a.order_id a.secret
          a.message s row c read parsed terminal quiet

    Settled-step :
        (id : String) (a : Arrival) (s : S)
        → is_terminal_trade_status c ≡ true
        → a.message.value.action ≢ Action.add_invoice
        → Settled id s
        → Settled id
            (apply_trade_dm store pubkey_from_secret derive_conv_secret a.order_id a.secret
              a.message s).0
    unfolding Settled
    Settled-step id a s terminal quiet (row, read, parsed) =
        let s' =
          (apply_trade_dm store pubkey_from_secret derive_conv_secret a.order_id a.secret a.message
            s).0 in
        elim (String-discrete a.order_id id) [
          | yes e ↦
              subst (λ key. Settled key s') e
                (Settled-own a s terminal quiet
                  (subst (λ key. Settled key s) (sym e) (row, read, parsed)))
          | no n ↦ (
            row,
            apply_frame store laws pubkey_from_secret derive_conv_secret a.order_id a.secret id n
                  a.message s
                ∙ read,
            parsed,
          )
        ]

    -- Once the stored status of an order is terminal, no sequence of messages changes it, for this order or for
    -- others and whatever they carry, unless one of them is an add-invoice.
    pub history_terminal :
        (id : String) (arrivals : List Arrival) (s : S) (row : OrderRow)
        → get_order id s ≡ some row
        → parse_status row.status ≡ some c
        → is_terminal_trade_status c ≡ true
        → All (λ a. a.message.value.action ≢ Action.add_invoice) arrivals
        → (row' : OrderRow) × (get_order id (apply_history arrivals s) ≡ some row')
          × (parse_status row'.status ≡ some c)
    unfolding apply_history Settled
    history_terminal id [] s row read parsed terminal quiet = (row, read, parsed)
    history_terminal id (a ∷ arrivals) s row read parsed terminal (quiet, rest) =
        let (row', read', parsed') = Settled-step id a s terminal quiet (row, read, parsed) in
        history_terminal id arrivals
          (apply_trade_dm store pubkey_from_secret derive_conv_secret a.order_id a.secret a.message
            s).0
          row' read' parsed' terminal rest
