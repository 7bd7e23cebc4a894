-- ===== src/Applicator/Refusal.antt =====
-- A cant-do message applied to the database.
use mostro_ts_client.Common.{String, false, ◌≡◌, refl, Option, none, ==_of_eq, string_eq}
use mostro_ts_client.Action.{Action, action_eq}
use mostro_ts_client.Message.{Payload, MessageKind, Message}
use mostro_ts_client.Store.{OrderRow, Store}
use mostro_ts_client.Applicator.{
  small_order_from_payload, applied_status, identified, persist, announced, persist_dispute,
  assigned, persist_solver, apply_trade_dm,
}

no_status_of_cant_do :
    (existing : Option OrderRow) (kind : MessageKind)
    → kind.action ≡ Action.cant_do
    → applied_status existing kind ≡ none
unfolding applied_status
no_status_of_cant_do existing kind e = rw (==_of_eq kind.action Action.cant_do e)

silent_cant_do :
    (a : Action) (p : Option Payload)
    → a ≡ Action.cant_do
    → (identified (small_order_from_payload a p) ≡ none) × (announced a p ≡ none)
unfolding small_order_from_payload announced identified
silent_cant_do a p e = rw (e, small_order_from_payload, announced) (refl, refl)

module _ (store : Store) (pubkey_from_secret : String → String)
    (derive_conv_secret : String → String → String) (order_id secret : String) (message : Message)
    (s : store.S) where
  open store use {S, get_order}

  no_solver_of_cant_do :
      (a : Action) (p : Option Payload)
      → a ≡ Action.cant_do
      → assigned store pubkey_from_secret derive_conv_secret secret a p ≡ none
  unfolding assigned
  no_solver_of_cant_do a p e = rw (e, assigned)

  persist_nothing :
      (existing : Option OrderRow)
      → identified (small_order_from_payload message.value.action message.value.payload) ≡ none
      → persist store pubkey_from_secret derive_conv_secret order_id secret message.value existing
          none s
        ≡ s
  unfolding persist
  persist_nothing existing e = rw (e, persist)

  -- A refusal of the daemon (cant-do) changes nothing and reports no status, dispute or solver.
  pub apply_cant_do_inert :
      message.value.action ≡ Action.cant_do
      → let (s', result) =
          apply_trade_dm store pubkey_from_secret derive_conv_secret order_id secret message s in
        (s' ≡ s)
        × (result.status ≡ none)
        × (result.dispute_id ≡ none)
        × (result.solver ≡ none)
        × (result.order_upserted ≡ false)
  unfolding apply_trade_dm persist_dispute persist_solver
  apply_cant_do_inert e =
      let kind = message.value in
      let none_applied = no_status_of_cant_do (get_order order_id s) kind e in
      let (no_order, no_dispute) = silent_cant_do kind.action kind.payload e in
      let no_solver = no_solver_of_cant_do kind.action kind.payload e in
      rw
        (
          none_applied,
          no_dispute,
          no_solver,
          persist_nothing (get_order order_id s) no_order,
          no_order,
        )
        (refl, refl, refl, refl, refl)
