-- ===== src/Client/Answers.antt =====
-- Which reply `roundtrip` of src/protocol/client.ts returns, and when a cancellation resolves.
use mostro_ts_client.Common.{
  true, false, ◌≡◌, refl, ◌⊎◌, inl, inr, ◌↔◌, Option, none, some, List, [], ◌∷◌, ◌++◌, Result, ok,
  err, ok_injective, Bool-cases, ap,
}
use mostro_ts_client.Common.Lists.{All}
use mostro_ts_client.Action.{Action}
use mostro_ts_client.Message.{MessageKind, Message}
use mostro_ts_client.DmRouter.{NostrEvent, Router}
use mostro_ts_client.Fault.{Fault}
use mostro_ts_client.Client.Exchange.{answers, settle, await_reply, roundtrip}

module _ (unwrap : NostrEvent → Result Fault (Option Message)) (expected : List Action) where
  -- an event that is not for this trade, or that has another action
  abbrev pub Skipped : NostrEvent → Type 0
  Skipped event =
      (unwrap event ≡ ok none)
      ⊎ ((m : Message) × (unwrap event ≡ ok (some m)) × (answers expected m ≡ false))

  -- the reply is the first event that is not skipped
  pub record Answered (events : List NostrEvent) (kind : MessageKind) : Type 0 where
    pub before : List NostrEvent
    pub event : NostrEvent
    pub after : List NostrEvent
    pub message : Message
    pub split : events ≡ before ++ event ∷ after
    pub skipped : All Skipped before
    pub opened : unwrap event ≡ ok (some message)
    pub expected_action : answers expected message ≡ true
    pub reply : message.value ≡ kind

  abbrev await : List NostrEvent → Result Fault MessageKind
  await = await_reply unwrap expected

  first_answers :
      (event : NostrEvent) (after : List NostrEvent) (m : Message) (kind : MessageKind)
      → unwrap event ≡ ok (some m)
      → answers expected m ≡ true
      → m.value ≡ kind
      → Answered (event ∷ after) kind
  first_answers event after m kind u a k = record {
    before = [];
    event = event;
    after = after;
    message = m;
    split = refl;
    skipped = tt;
    opened = u;
    expected_action = a;
    reply = k;
  }

  later_answers :
      (event : NostrEvent) (events : List NostrEvent) (kind : MessageKind)
      → Skipped event
      → Answered events kind
      → Answered (event ∷ events) kind
  later_answers event events kind s a = record {
    before = event ∷ a.before;
    event = a.event;
    after = a.after;
    message = a.message;
    split = ap (λ es. event ∷ es) a.split;
    skipped = (s, a.skipped);
    opened = a.opened;
    expected_action = a.expected_action;
    reply = a.reply;
  }

  reply_answers :
      (event : NostrEvent) (events : List NostrEvent) (kind : MessageKind)
      (o : Result Fault (Option Message))
      → unwrap event ≡ o
      → (await events ≡ ok kind → Answered events kind)
      → settle expected o (await events) ≡ ok kind
      → Answered (event ∷ events) kind
  reply_answers event events kind (err f) u ih h = cc
  reply_answers event events kind (ok none) u ih h = later_answers event events kind (inl u) (ih h)
  reply_answers event events kind (ok (some m)) u ih h = elim (Bool-cases (answers expected m)) [
    | inl a ↦
        let h' = rw a at h in first_answers event events m kind u a (ok_injective m.value kind h')
    | inr a ↦ let h' = rw a at h in later_answers event events kind (inr (m, u, a)) (ih h')
  ]

  answered :
      (events : List NostrEvent) (kind : MessageKind)
      → await events ≡ ok kind
      → Answered events kind
  unfolding await_reply
  answered [] kind h = cc
  answered (event ∷ events) kind h =
      reply_answers event events kind (unwrap event) refl (answered events kind) h

  skip :
      (event : NostrEvent) (events : List NostrEvent)
      → Skipped event
      → await (event ∷ events) ≡ await events
  unfolding await_reply
  skip event events (inl u) = rw u
  skip event events (inr (m, u, a)) = rw (u, a)

  replied :
      (before : List NostrEvent) (event : NostrEvent) (after : List NostrEvent) (m : Message)
      → All Skipped before
      → unwrap event ≡ ok (some m)
      → answers expected m ≡ true
      → await (before ++ event ∷ after) ≡ ok m.value
  unfolding await_reply
  replied [] event after m s u a = rw (u, a)
  replied (e ∷ before) event after m (s, ss) u a =
      rw (skip e (before ++ event ∷ after) s) (replied before event after m ss u a)

  -- Waiting for a reply gives a message exactly when it is that of the first event that this trade's
  -- key opens with an expected action or with cant-do, every event before it being foreign or of
  -- another action; nothing else is returned, and what comes later does not matter.
  pub await_reply_iff :
      (events : List NostrEvent) (kind : MessageKind)
      → (await_reply unwrap expected events ≡ ok kind) ↔ Answered events kind
  await_reply_iff events kind = (
    answered events kind,
    λ a.
        rw
          (a.split, replied a.before a.event a.after a.message a.skipped a.opened a.expected_action)
          (ap ok a.reply),
  )

-- a request that is answered was made by a client that is started
pub started :
    (router : Option Router) (unwrap : NostrEvent → Result Fault (Option Message))
    (expected : List Action) (events : List NostrEvent) (kind : MessageKind)
    → roundtrip router unwrap expected events ≡ ok kind
    → ((r : Router) × (router ≡ some r)) × (await_reply unwrap expected events ≡ ok kind)
unfolding roundtrip
started none unwrap expected events kind h = cc
started (some r) unwrap expected events kind h = ((r, refl), h)
