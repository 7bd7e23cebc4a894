-- ===== src/Flow/Replies.antt =====
-- The replies that flow.ts accepts.
use mostro_ts_client.Common.{
  String, Bool, true, false, ◌≡◌, refl, ◌≢◌, ◌↔◌, ◌⊎◌, inl, inr, Option, none, some, Result, ok,
  err, arith, ◌!=◌, ◌==◌, ◌&&◌, if◌then◌else◌, bind_of_ok, ok_injective, throw_if,
}
use mostro_ts_client.Common.Int.{ℤ, int_eq}
use mostro_ts_client.Action.{Action, Action-discrete, action_eq}
use mostro_ts_client.CantDo.{CantDoReason}
use mostro_ts_client.Message.{Payload, MessageKind, SolverDisputeInfo}
use mostro_ts_client.Fault.{Fault, cant_do_error}
use mostro_ts_client.Flow.{
  echoed, NewOrderResponse, handle_new_order_response, TakeOrderResponse, hold_invoice, add_invoice,
  take_order_reply, handle_take_order_response, handle_rate_user_response, DisputeNotification,
  handle_dispute_notification, notified,
}

echoed_of_ok : (id : Option ℤ) (e i : ℤ) → echoed id e ≡ ok i → (id ≡ some e) × (i ≡ e)
echoed_of_ok id e i h = ground arith

ok_of_echoed : (e : ℤ) → echoed (some e) e ≡ ok e
ok_of_echoed e = ground arith

received :
    (a : Action)
    → throw_if (a != Action.rate_received) (Fault.unexpected_action a) ≡ ok tt
    → a ≡ Action.rate_received
received a h = ground arith

-- No reply is taken for the answer to another request: each of the three handlers that correlate
-- returns only if the reply echoes the expected request id.
pub replies_correlated :
    (kind : MessageKind) (expected : ℤ)
    → ((r : NewOrderResponse)
        → handle_new_order_response kind expected ≡ ok r
        → kind.request_id ≡ some expected)
      × ((r : TakeOrderResponse)
          → handle_take_order_response kind expected ≡ ok r
          → kind.request_id ≡ some expected)
      × (handle_rate_user_response kind expected ≡ ok tt
          → (kind.request_id ≡ some expected) × (kind.action ≡ Action.rate_received))
unfolding handle_new_order_response handle_take_order_response handle_rate_user_response
replies_correlated kind expected = (
  λ r h.
      let (id, e, _) = bind_of_ok (echoed kind.request_id expected) _ r h in
      (echoed_of_ok kind.request_id expected id e).0,
  λ r h.
      let (id, e, _) = bind_of_ok (echoed kind.request_id expected) _ r h in
      (echoed_of_ok kind.request_id expected id e).0,
  λ h.
      let (id, e, rated) = bind_of_ok (echoed kind.request_id expected) _ tt h in
      ((echoed_of_ok kind.request_id expected id e).0, received kind.action rated),
)

-- What a reply to a take message must hold for each of the three outcomes.
abbrev pub TakeReply : Action → Option Payload → ℤ → TakeOrderResponse → Type 0
TakeReply action payload id (hold_invoice o invoice amount i) =
    (action ≡ Action.pay_invoice)
    × (payload ≡ some (Payload.payment_request o invoice amount))
    × (id ≡ i)
TakeReply action payload id (TakeOrderResponse.bond_invoice o invoice amount i) =
    (action ≡ Action.pay_bond_invoice)
    × (payload ≡ some (Payload.payment_request o invoice amount))
    × (id ≡ i)
TakeReply action payload id (add_invoice o i) =
    (action ≡ Action.add_invoice) × (payload ≡ some (Payload.order o)) × (id ≡ i)

TakeReply-of_ok :
    (action : Action) (payload : Option Payload) (id : ℤ) (r : TakeOrderResponse)
    → take_order_reply action payload id ≡ ok r
    → TakeReply action payload id r
unfolding take_order_reply
TakeReply-of_ok Action.pay_invoice (some (Payload.payment_request o invoice amount)) id r h =
    rw (← ok_injective _ r h) (refl, refl, refl)
TakeReply-of_ok Action.pay_bond_invoice (some (Payload.payment_request o invoice amount)) id r h =
    rw (← ok_injective _ r h) (refl, refl, refl)
TakeReply-of_ok Action.add_invoice (some (Payload.order o)) id r h =
    rw (← ok_injective _ r h) (refl, refl, refl)
TakeReply-of_ok Action.pay_invoice p id r h = cc
TakeReply-of_ok Action.pay_bond_invoice p id r h = cc
TakeReply-of_ok Action.add_invoice p id r h = cc
TakeReply-of_ok _ p id r h = cc

ok_of_TakeReply :
    (action : Action) (payload : Option Payload) (id : ℤ) (r : TakeOrderResponse)
    → TakeReply action payload id r
    → take_order_reply action payload id ≡ ok r
unfolding take_order_reply
ok_of_TakeReply action p id (hold_invoice o invoice amount i) (a, e, j) = rw (a, e, j)
ok_of_TakeReply action p id (TakeOrderResponse.bond_invoice o invoice amount i) (a, e, j) =
    rw (a, e, j)
ok_of_TakeReply action p id (add_invoice o i) (a, e, j) = rw (a, e, j)

-- `handleTakeOrderResponse` returns exactly for a reply that echoes the request id and is a
-- pay-invoice with a payment request (a hold invoice), a pay-bond-invoice with one (a bond invoice),
-- or an add-invoice with an order; what it returns is read from that payload.
pub handle_take_order_response_iff :
    (kind : MessageKind) (expected : ℤ) (r : TakeOrderResponse)
    → (handle_take_order_response kind expected ≡ ok r)
      ↔ ((kind.request_id ≡ some expected) × TakeReply kind.action kind.payload expected r)
unfolding handle_take_order_response
handle_take_order_response_iff kind expected r = (
  λ h.
      let (id, e, replied) = bind_of_ok (echoed kind.request_id expected) _ r h in
      let (echo, same) = echoed_of_ok kind.request_id expected id e in
      (echo, TakeReply-of_ok kind.action kind.payload expected r (rw same at replied)),
  λ (echo, t). rw (echo, ok_of_echoed) (ok_of_TakeReply kind.action kind.payload expected r t),
)

-- A correlated refusal always surfaces as a `CantDoError` with the daemon's reason, if it gave one,
-- and the request id.
pub take_refusal_surfaces :
    (kind : MessageKind) (expected : ℤ) (reason : Option CantDoReason)
    → kind.request_id ≡ some expected
    → kind.action ≡ Action.cant_do
    → (kind.payload ≡ some (Payload.cant_do reason)) ⊎ ((kind.payload ≡ none) × (reason ≡ none))
    → handle_take_order_response kind expected ≡ err (cant_do_error reason (some expected))
unfolding handle_take_order_response take_order_reply
take_refusal_surfaces kind expected reason e a (inl p) = rw (e, ok_of_echoed, a, p)
take_refusal_surfaces kind expected reason e a (inr (p, r)) = rw (e, ok_of_echoed, a, p, r)

-- What a dispute notification says of the message that it was read from.
pub record IsNotified (kind : MessageKind) (n : DisputeNotification) : Type 0 where
  pub order : kind.id ≡ some n.order_id
  pub info : Option SolverDisputeInfo
  pub payload : kind.payload ≡ some (Payload.dispute n.dispute_id info)
  pub by_you :
      ((kind.action ≡ Action.dispute_initiated_by_you) × (n.initiated_by_you ≡ true))
      ⊎ ((kind.action ≡ Action.dispute_initiated_by_peer) × (n.initiated_by_you ≡ false))

notified_of_ok :
    (id : Option String) (p : Option Payload) (you : Bool) (n : DisputeNotification)
    → notified id p you ≡ ok n
    → (info : Option SolverDisputeInfo) × (id ≡ some n.order_id)
      × (p ≡ some (Payload.dispute n.dispute_id info))
      × (n.initiated_by_you ≡ you)
unfolding notified
notified_of_ok (some id) (some (Payload.dispute d info)) you n h =
    let e = ok_injective _ n h in rw (← e) (info, refl, refl, refl)
notified_of_ok none p you n h = cc
notified_of_ok (some id) p you n h = cc

neither :
    {A : Type 0} (a : Action) (f : Fault) (g : Bool → Result Fault A) (r : A)
    → a ≢ Action.dispute_initiated_by_you
    → a ≢ Action.dispute_initiated_by_peer
    → (if a != Action.dispute_initiated_by_you && a != Action.dispute_initiated_by_peer
        then err f
        else g (a == Action.dispute_initiated_by_you))
      ≡ ok r
    → ⊥
neither a f g r n m h = ground arith

-- the guard on the two actions
initiator :
    {A : Type 0} (a : Action) (f : Fault) (g : Bool → Result Fault A) (r : A)
    → (if a != Action.dispute_initiated_by_you && a != Action.dispute_initiated_by_peer
        then err f
        else g (a == Action.dispute_initiated_by_you))
      ≡ ok r
    → ((a ≡ Action.dispute_initiated_by_you) × (g true ≡ ok r))
      ⊎ ((a ≡ Action.dispute_initiated_by_peer) × (g false ≡ ok r))
unfolding Action-discrete
initiator a f g r h = elim (Action-discrete a Action.dispute_initiated_by_you) [
  | yes e ↦ inl (e, rw e at h)
  | no n ↦ elim (Action-discrete a Action.dispute_initiated_by_peer) [
    | yes e ↦ inr (e, rw e at h)
    | no m ↦ absurd (neither a f g r n m h)
  ]
]

-- A dispute notification is returned only for one of the two dispute actions, with the order id of the
-- message and the dispute id of its payload; it says "by you" exactly for the initiator's action.
pub dispute_notification_sound :
    (kind : MessageKind) (n : DisputeNotification)
    → handle_dispute_notification kind ≡ ok n
    → IsNotified kind n
unfolding handle_dispute_notification
dispute_notification_sound kind n h =
    elim (initiator kind.action _ (notified kind.id kind.payload) n h) [
      | inl (a, e) ↦
          let (info, i, p, y) = notified_of_ok kind.id kind.payload true n e in
          record { order = i; info = info; payload = p; by_you = inl (a, y) }
      | inr (a, e) ↦
          let (info, i, p, y) = notified_of_ok kind.id kind.payload false n e in
          record { order = i; info = info; payload = p; by_you = inr (a, y) }
    ]
