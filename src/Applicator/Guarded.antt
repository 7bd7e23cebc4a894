-- ===== src/Applicator/Guarded.antt =====
-- What applying a message does to the row of its order, over any backend that keeps its promises.
use mostro_ts_client.Common.{
  String, true, ◌≡◌, ◌↔◌, refl, ◌≢◌, ◌⊎◌, Option, none, some, is_some, or_else, Option-cases, inl,
  inr, arith, string_eq,
}
use mathlib.Core.Option
use mostro_ts_client.Kind.{Kind}
use mostro_ts_client.Status.{Status, status_to_string}
use mostro_ts_client.Action.{Action, action_eq}
use mostro_ts_client.Order.{SmallOrder}
use mostro_ts_client.Message.{Message}
use mostro_ts_client.StateMachine.{
  is_terminal_trade_status, should_apply_status_transition, parse_status, parse_kind,
}
use mostro_ts_client.StateMachine.Guard.{terminal_sticky}
use mostro_ts_client.Store.{OrderRow, Store, IsStore, kept}
use mostro_ts_client.Applicator.{
  small_order_from_payload, applied_status, identified, apply_trade_dm,
}
use mostro_ts_client.Applicator.Carried.{Brought, identified-Brought}
use mostro_ts_client.Applicator.Candidate.{proposed, applied_status_guarded, parse_status_text}
use mostro_ts_client.Applicator.Reads.{disputed, solved, moved, persisted, read-apply}

some_of_is_some : (o : Option OrderRow) → is_some o ≡ true → (r : OrderRow) × (o ≡ some r)
some_of_is_some none h = cc
some_of_is_some (some r) h = (r, refl)

stays_terminal :
    (kind : Option Kind) (a : Action) (c d : Status)
    → is_terminal_trade_status c ≡ true
    → a ≢ Action.add_invoice
    → should_apply_status_transition (some c) d kind (some a) ≡ true
    → d ≡ c
stays_terminal kind a c d terminal n h = elim (terminal_sticky kind (some a) c d terminal h) [
  | inl same ↦ same
  | inr (reopening, was, becomes) ↦ absurd (n (cc))
]

module _ (d : Option String) (a : Option (String × String)) where
  -- the two later writes leave the status
  status-written :
      (o : Option OrderRow)
      → kept (λ r. r.status) (Option.map (solved a) (Option.map (disputed d) o))
        ≡ kept (λ r. r.status) o
  unfolding disputed solved
  status-written none = refl
  status-written (some r) = ground arith

  is_some-written :
      (o : Option OrderRow)
      → is_some (Option.map (solved a) (Option.map (disputed d) o)) ≡ is_some o
  is_some-written none = refl
  is_some-written (some r) = refl

module _ (store : Store) (laws : IsStore store) (pubkey_from_secret : String → String)
    (derive_conv_secret : String → String → String) (order_id secret : String) (message : Message)
    (s : store.S) where
  open store use {S, get_order}

  status-persisted :
      (applied : Option String) (row : OrderRow) (o : Option SmallOrder)
      → kept
          (λ r. r.status)
          (persisted store laws pubkey_from_secret derive_conv_secret order_id secret message.value
            applied
            (some row)
            o)
        ≡ or_else applied row.status
  unfolding persisted moved
  status-persisted none row none = refl
  status-persisted (some t) row none = refl
  status-persisted applied row (some order) = refl

  is_some-persisted :
      (applied : Option String) (row : OrderRow) (o : Option SmallOrder)
      → is_some (
          persisted store laws pubkey_from_secret derive_conv_secret order_id secret message.value
            applied
            (some row)
            o)
        ≡ true
  unfolding persisted
  is_some-persisted applied row none = refl
  is_some-persisted applied row (some order) = refl

  inserted_persisted :
      (applied : Option String) (o : Option SmallOrder)
      → is_some (
          persisted store laws pubkey_from_secret derive_conv_secret order_id secret message.value
            applied none o)
        ≡ is_some o
  unfolding persisted
  inserted_persisted applied none = refl
  inserted_persisted applied (some order) = refl

  -- the row of the order after the message
  abbrev pub row_after : Option OrderRow
  row_after =
      get_order order_id
        (apply_trade_dm store pubkey_from_secret derive_conv_secret order_id secret message s).0

  status_after :
      (row : OrderRow)
      → get_order order_id s ≡ some row
      → kept (λ r. r.status) row_after
        ≡ or_else (applied_status (some row) message.value) row.status
  status_after row e =
      rw (read-apply store laws pubkey_from_secret derive_conv_secret order_id secret message s) (
        rw (status-written) (
          rw e (
            status-persisted (applied_status (some row) message.value) row
              (identified (small_order_from_payload message.value.action message.value.payload)))))

  row_stays : (row : OrderRow) → get_order order_id s ≡ some row → is_some row_after ≡ true
  row_stays row e =
      let kind = message.value in
      let order = identified (small_order_from_payload kind.action kind.payload) in
      rw
        (
          read-apply store laws pubkey_from_secret derive_conv_secret order_id secret message s,
          is_some-written,
        )
        (rw e (is_some-persisted (applied_status (some row) kind) row order))

  -- Where the order has a row, a message leaves it in place, and its status is what it was or the text of
  -- a status that the message proposes and that the guard accepts over the stored one.
  pub apply_guarded :
      (row : OrderRow)
      → get_order order_id s ≡ some row
      → (row' : OrderRow) × (row_after ≡ some row')
        × ((row'.status ≡ row.status)
            ⊎ ((d : Status) × (row'.status ≡ some (status_to_string d))
                × (proposed message.value.action message.value.payload ≡ some d)
                × (should_apply_status_transition
                      (parse_status row.status)
                      d
                      (parse_kind row.kind)
                      (some message.value.action)
                    ≡ true)))
  apply_guarded row e =
      let (row', read) = some_of_is_some row_after (row_stays row e) in
      let status : kept (λ r. r.status) row_after
          ≡ or_else (applied_status (some row) message.value) row.status =
        status_after row e in
      let changed : row'.status ≡ or_else (applied_status (some row) message.value) row.status =
        rw read at status in
      elim (Option-cases (applied_status (some row) message.value)) [
        | inl none_applied ↦ (row', read, inl (rw none_applied at changed))
        | inr (text, applied) ↦
            let (n, d, same, of_p, accepted) =
              applied_status_guarded (some row) message.value text applied in
            let written : row'.status ≡ some text = rw applied at changed in
            (row', read, inr (d, rw same at written, of_p, accepted))
      ]

  -- The terminal status of a stored order stays under every message but an add-invoice, whatever else
  -- the message writes.
  pub apply_terminal_sticky :
      (row : OrderRow) (c : Status)
      → get_order order_id s ≡ some row
      → parse_status row.status ≡ some c
      → is_terminal_trade_status c ≡ true
      → message.value.action ≢ Action.add_invoice
      → (row' : OrderRow) × (row_after ≡ some row') × (parse_status row'.status ≡ some c)
  apply_terminal_sticky row c e parsed terminal n =
      let (row', read, either) = apply_guarded row e in
      elim either [
        | inl same ↦ (row', read, rw same parsed)
        | inr (d, written, of_p, accepted) ↦
            let kept_back : d ≡ c =
              stays_terminal (parse_kind row.kind) message.value.action c d terminal n
                (rw parsed at accepted) in
            (row', read, rw (written, kept_back) (parse_status_text (some c)))
      ]

  -- Where the order has no row, a row appears exactly when the message carries an order with an id that
  -- is not empty: in the payload of an add-invoice, a buyer-took-order, a hold-invoice-payment-accepted
  -- or a new-order, beside the invoice of a pay-invoice or a pay-bond-invoice, or in the payout request
  -- of an add-bond-invoice. No other message stores a row, whatever its payload is.
  pub apply_inserts_iff :
      get_order order_id s ≡ none
      → (is_some row_after ≡ true) ↔ Brought message.value.action message.value.payload
  apply_inserts_iff e =
      let kind = message.value in
      let order = identified (small_order_from_payload kind.action kind.payload) in
      let same : is_some row_after ≡ is_some order =
        rw
          (
            read-apply store laws pubkey_from_secret derive_conv_secret order_id secret message s,
            is_some-written,
          )
          (rw e (inserted_persisted (applied_status none kind) order)) in
      rw same (identified-Brought kind.action kind.payload)
