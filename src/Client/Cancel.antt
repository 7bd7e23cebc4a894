-- ===== src/Client/Cancel.antt =====
-- When `cancelOrder` of src/protocol/client.ts resolves.
use mostro_ts_client.Common.{
  String, true, ◌≡◌, refl, ◌⊎◌, inl, inr, ◌∷◌, ◌++◌, Bool-cases, sym, ◌==◌, eq_of_==, ◌↔◌, Option,
  none, some, List, Result, ok, bind_of_ok,
}
use mostro_ts_client.Common.Lists.{All, map-All}
use mostro_ts_client.Common.Int.{ℤ}
use mostro_ts_client.Action.{Action, Action-discrete, action_eq}
use mostro_ts_client.Message.{MessageKind, Message, new_order_message}
use mostro_ts_client.Store.{UserRow, Store}
use mostro_ts_client.DmRouter.{Router, NostrEvent}
use mostro_ts_client.Fault.{Fault}
use mostro_ts_client.Verify.{verify_message_kind}
use mostro_ts_client.Flow.{build_trade_message}
use mostro_ts_client.Client.{Client, require_trade_secret}
use mostro_ts_client.Client.Exchange.{answers, roundtrip}
use mostro_ts_client.Client.Requests.{Keys, cancel_answers, cancel_order}
use mostro_ts_client.Client.Answers.{Skipped, Answered, await_reply_iff, started}

-- the request
abbrev pub cancellation : String → ℤ → Message
cancellation order_id request_id =
    new_order_message (some order_id) (some request_id) none Action.cancel none

cancellation_built :
    (order_id : String) (request_id : ℤ)
    → build_trade_message order_id request_id Action.cancel none none
      ≡ ok (cancellation order_id request_id)
unfolding build_trade_message verify_message_kind Action-discrete
cancellation_built order_id request_id = refl

-- the actions that end the wait
abbrev pub Ends : Action → Type 0
Ends a =
    (a ≡ Action.cant_do)
    ⊎ (a ≡ Action.cooperative_cancel_initiated_by_you)
    ⊎ (a ≡ Action.cooperative_cancel_accepted)
    ⊎ (a ≡ Action.canceled)

ends_of_answers : (m : Message) → answers cancel_answers m ≡ true → Ends m.value.action
ends_of_answers m h =
    let a = m.value.action in
    elim (Bool-cases (a == Action.cant_do)) [
      | inl e ↦ inl (eq_of_== a Action.cant_do e)
      | inr e ↦ elim (Bool-cases (Action.cooperative_cancel_initiated_by_you == a)) [
        | inl k ↦ inr (inl (sym (eq_of_== Action.cooperative_cancel_initiated_by_you a k)))
        | inr k ↦ elim (Bool-cases (Action.cooperative_cancel_accepted == a)) [
          | inl l ↦ inr (inr (inl (sym (eq_of_== Action.cooperative_cancel_accepted a l))))
          | inr l ↦ elim (Bool-cases (Action.canceled == a)) [
            | inl n ↦ inr (inr (inr (sym (eq_of_== Action.canceled a n))))
            | inr n ↦ let h' = rw (e, k, l, n) at h in cc
          ]
        ]
      ]
    ]

answers_of_ends : (m : Message) → Ends m.value.action → answers cancel_answers m ≡ true
unfolding Action-discrete
answers_of_ends m (inl e) = rw e
answers_of_ends m (inr (inl e)) = rw e
answers_of_ends m (inr (inr (inl e))) = rw e
answers_of_ends m (inr (inr (inr e))) = rw e

-- the first event that the trade's key opens with an action that ends the wait
pub record Ended (open_event : NostrEvent → Result Fault (Option Message))
    (events : List NostrEvent) : Type 0 where
  pub before : List NostrEvent
  pub event : NostrEvent
  pub after : List NostrEvent
  pub message : Message
  pub split : events ≡ before ++ event ∷ after
  pub skipped :
      All
        (λ e.
          (open_event e ≡ ok none)
          ⊎ ((m : Message) × (open_event e ≡ ok (some m)) × (Ends m.value.action → ⊥)))
        before
  pub opened : open_event event ≡ ok (some message)
  pub ends : Ends message.value.action

module _ (open_event : NostrEvent → Result Fault (Option Message)) where
  passes :
      (e : NostrEvent)
      → Skipped open_event cancel_answers e
      → (open_event e ≡ ok none)
        ⊎ ((m : Message) × (open_event e ≡ ok (some m)) × (Ends m.value.action → ⊥))
  passes e (inl u) = inl u
  passes e (inr (m, u, a)) = inr (m, u, λ k. cc (answers_of_ends m k))

  passed_over :
      (e : NostrEvent)
      → (open_event e ≡ ok none)
        ⊎ ((m : Message) × (open_event e ≡ ok (some m)) × (Ends m.value.action → ⊥))
      → Skipped open_event cancel_answers e
  passed_over e (inl u) = inl u
  passed_over e (inr (m, u, n)) = elim (Bool-cases (answers cancel_answers m)) [
    | inl a ↦ absurd (n (ends_of_answers m a))
    | inr a ↦ inr (m, u, a)
  ]

  Answered-ends :
      (events : List NostrEvent) (kind : MessageKind)
      → Answered open_event cancel_answers events kind
      → Ended open_event events
  Answered-ends events kind a = record {
    before = a.before;
    event = a.event;
    after = a.after;
    message = a.message;
    split = a.split;
    skipped = map-All passes a.before a.skipped;
    opened = a.opened;
    ends = ends_of_answers a.message a.expected_action;
  }

  ends-Answered :
      (events : List NostrEvent) (ended : Ended open_event events)
      → Answered open_event cancel_answers events ended.message.value
  ends-Answered events ended = record {
    before = ended.before;
    event = ended.event;
    after = ended.after;
    message = ended.message;
    split = ended.split;
    skipped = map-All passed_over ended.before ended.skipped;
    opened = ended.opened;
    expected_action = answers_of_ends ended.message ended.ends;
    reply = refl;
  }

module _ (store : Store) (pubkey_from_secret : String → String)
    (reserve : ℤ → store.S → (ℤ × Keys) × store.S) (upsert_user : UserRow → store.S → store.S)
    (unwrap : String → NostrEvent → Result Fault (Option Message))
    (network : Message → List NostrEvent) (now request_id : ℤ) (identity null_id : String) where
  -- A cancellation resolves exactly when the trade of the order is known, the client is started, and
  -- among the events that follow the request the first that the trade's key opens with one of four
  -- actions exists: cant-do, by which the daemon refuses, and the three by which it cancels or
  -- initiates the cancellation. So a refusal resolves it as well as an acceptance does.
  pub cancel_order_iff :
      (order_id : String) (c : Client store.S)
      → (cancel_order store pubkey_from_secret reserve upsert_user unwrap network now request_id
            identity null_id order_id c
          ≡ ok tt)
        ↔ ((secret : String) × (require_trade_secret order_id c ≡ ok secret)
            × ((r : Router) × (c.router ≡ some r))
            × Ended (unwrap secret) (network (cancellation order_id request_id)))
  unfolding cancel_order roundtrip
  cancel_order_iff order_id c = (
    λ h.
        let (secret, e, k) = bind_of_ok (require_trade_secret order_id c) _ tt h in
        let k' = rw (cancellation_built order_id request_id) at k in
        let (kind, x, done) =
          bind_of_ok
            (roundtrip c.router (unwrap secret) cancel_answers
              (network (cancellation order_id request_id)))
            _ tt k' in
        let (r, a) = started c.router (unwrap secret) cancel_answers _ kind x in
        (
          secret,
          e,
          r,
          Answered-ends (unwrap secret) _ kind
              ((await_reply_iff (unwrap secret) cancel_answers _ kind).0 a),
        ),
    λ (secret, e, (r, j), ended).
        let a = ends-Answered (unwrap secret) _ ended in
        rw (
          e,
          cancellation_built order_id request_id,
          j,
          (await_reply_iff (unwrap secret) cancel_answers _ ended.message.value).1 a,
        ),
  )
