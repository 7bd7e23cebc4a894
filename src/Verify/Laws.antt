-- ===== src/Verify/Laws.antt =====
-- The messages that `verifyMessageKind` accepts.
use mostro_ts_client.Common.{
  String, true, ◌≡◌, refl, ◌≢◌, ◌↔◌, ◌⊎◌, inl, inr, Option, none, some, List, [], ◌∷◌, ok, err,
  arith,
}
use mostro_ts_client.Common.Lists.{includes}
use mostro_ts_client.Common.Int.{ℤ, pos, ◌≤ℤ◌}
use mostro_ts_client.Action.{Action, Action-discrete, action_eq}
use mostro_ts_client.Message.{
  Payload, MessageKind, BondResolution, BondPayoutRequest, new_message_kind,
}
use mostro_ts_client.Order.{SmallOrder}
use mostro_ts_client.Fault.{rating_payload}
use mostro_ts_client.Verify.{
  verify_action, rating_of, order_of, verify_message_kind, get_order, get_rating,
}

-- the actions that may come with no id
abbrev pub id_free_actions : List Action
id_free_actions =
    Action.new_order ∷ Action.last_trade_index ∷ Action.restore_session ∷ Action.rate_user
    ∷ Action.cant_do ∷ Action.orders ∷ []

id_of_action :
    (a : Action) (p : Option Payload)
    → verify_action a none p ≡ true
    → includes id_free_actions a ≡ true
unfolding verify_action Action-discrete
id_of_action Action.new_order p h = refl
id_of_action _ p h = ground arith

-- A message that is accepted without an id has one of six actions: new-order, last-trade-index,
-- restore-session, rate-user, cant-do and orders.
pub verify_needs_id :
    (kind : MessageKind)
    → verify_message_kind kind ≡ true
    → kind.id ≡ none
    → includes id_free_actions kind.action ≡ true
unfolding verify_message_kind
verify_needs_id kind h e = id_of_action kind.action kind.payload (rw e at h)

resolution_action :
    (a : Action) (id : Option String) (b : BondResolution)
    → verify_action a id (some (Payload.bond_resolution b)) ≡ true
    → (a ≡ Action.admin_settle) ⊎ (a ≡ Action.admin_cancel)
unfolding verify_action
resolution_action Action.admin_settle id b h = inl refl
resolution_action Action.admin_cancel id b h = inr refl
resolution_action _ id b h = ground arith

payout_action :
    (a : Action) (id : Option String) (b : BondPayoutRequest)
    → verify_action a id (some (Payload.bond_payout_request b)) ≡ true
    → a ≡ Action.add_bond_invoice
unfolding verify_action
payout_action Action.add_bond_invoice id b h = refl
payout_action _ id b h = ground arith

-- The two bond payloads are confined: an accepted message carries a bond resolution only with
-- admin-settle or admin-cancel, and a bond payout request only with add-bond-invoice.
pub verify_bond_payloads :
    (kind : MessageKind)
    → verify_message_kind kind ≡ true
    → ((b : BondResolution)
        → kind.payload ≡ some (Payload.bond_resolution b)
        → (kind.action ≡ Action.admin_settle) ⊎ (kind.action ≡ Action.admin_cancel))
      × ((b : BondPayoutRequest)
          → kind.payload ≡ some (Payload.bond_payout_request b)
          → kind.action ≡ Action.add_bond_invoice)
unfolding verify_message_kind
verify_bond_payloads kind h = (
  λ b e. resolution_action kind.action kind.id b (rw e at h),
  λ b e. payout_action kind.action kind.id b (rw e at h),
)

rating_of_ok :
    (p : Option Payload) (v : ℤ)
    → rating_of p ≡ ok v
    → (p ≡ some (Payload.rating_user v)) × (pos 1 ≤ℤ v) × (v ≤ℤ pos 5)
unfolding rating_of
rating_of_ok p v h = ground arith

ok_of_rating : (v : ℤ) → pos 1 ≤ℤ v → v ≤ℤ pos 5 → rating_of (some (Payload.rating_user v)) ≡ ok v
unfolding rating_of
ok_of_rating v p q = ground arith

-- `getRating` returns `v` exactly when the payload is a rating of `v` and `v` is from 1 to 5.
pub get_rating_iff :
    (kind : MessageKind) (v : ℤ)
    → (get_rating kind ≡ ok v)
      ↔ ((kind.payload ≡ some (Payload.rating_user v)) × (pos 1 ≤ℤ v) × (v ≤ℤ pos 5))
unfolding get_rating
get_rating_iff kind v = (rating_of_ok kind.payload v, λ (e, p, q). rw e (ok_of_rating v p q))

order_of_new :
    (id : Option String) (p : Option Payload)
    → verify_action Action.new_order id p ≡ true
    → (o : SmallOrder) × (p ≡ some (Payload.order o)) × (order_of Action.new_order p ≡ some o)
unfolding verify_action order_of
order_of_new id (some (Payload.order o)) h = (o, refl, refl)
order_of_new id none h = cc
order_of_new id (some _) h = cc

rating_read :
    (id : Option String) (p : Option Payload)
    → verify_action Action.rate_user id p ≡ true
    → rating_of p ≢ err rating_payload
unfolding verify_action rating_of
rating_read id (some (Payload.rating_user v)) h = ground arith
rating_read id none h = cc
rating_read id (some _) h = cc

-- An accepted new-order message yields its order, and an accepted rate-user message has a rating
-- payload, so `getRating` refuses it only for its value.
pub verified_payload_read :
    (kind : MessageKind)
    → verify_message_kind kind ≡ true
    → (kind.action ≡ Action.new_order
        → (o : SmallOrder) × (kind.payload ≡ some (Payload.order o)) × (get_order kind ≡ some o))
      × (kind.action ≡ Action.rate_user → get_rating kind ≢ err rating_payload)
unfolding verify_message_kind get_order get_rating
verified_payload_read kind h = (
  λ e. rw e (order_of_new kind.id kind.payload (rw e at h)),
  λ e. rating_read kind.id kind.payload (rw e at h),
)

-- Every action of the protocol has a message that is accepted: the cases of the `switch` and the
-- list for its default leave no action out.
pub every_action_accepted :
    (a : Action) (id : String) (o : SmallOrder)
    → (p : Option Payload) × (verify_message_kind (new_message_kind (some id) none none a p) ≡ true)
unfolding verify_message_kind Action-discrete
every_action_accepted Action.new_order id o = (some (Payload.order o), refl)
every_action_accepted Action.pay_invoice id o = (some (Payload.payment_request none "" none), refl)
every_action_accepted Action.pay_bond_invoice id o =
    (some (Payload.payment_request none "" none), refl)
every_action_accepted Action.add_invoice id o = (some (Payload.payment_request none "" none), refl)
every_action_accepted Action.add_bond_invoice id o =
    (some (Payload.payment_request none "" none), refl)
every_action_accepted Action.add_cashu_escrow id o = (
  some (
      Payload.cashu_lock_proof (record {
        token = "";
        mint_url = "";
        buyer_pubkey = "";
        seller_pubkey = "";
        mostro_pubkey = "";
        fee_token = none;
      })),
  refl,
)
every_action_accepted Action.cashu_pm_signature id o =
    (some (Payload.cashu_signatures (record { secret = ""; signature = "" } ∷ [])), refl)
every_action_accepted Action.payment_failed id o = (
  some (
      Payload.payment_failed
        (record { payment_attempts = pos 0; payment_retries_interval = pos 0 })),
  refl,
)
every_action_accepted Action.rate_user id o = (some (Payload.rating_user (pos 1)), refl)
every_action_accepted Action.cant_do id o = (some (Payload.cant_do none), refl)
every_action_accepted Action.orders id o = (some (Payload.ids []), refl)
every_action_accepted _ id o = (none, refl)
