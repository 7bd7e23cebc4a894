-- ===== src/DmRouter/Delivery.antt =====
-- What an event that passes the gate makes the router do.
use mostro_ts_client.Common.{
  !=_of_eq, String, Bool, not, ◌≡◌, refl, inl, inr, Option, none, some, List, [], ◌∷◌, ◌++◌, map,
  string_eq, nat_eq, Option-cases, arith,
}
use mostro_ts_client.Common.Lists.{keep}
use mostro_ts_client.Message.{Message}
use mostro_ts_client.DmRouter.{
  Transport, transport_event_kind, NostrEvent, Router, Effect, resolved, order_message, any_message,
  Tracked, tracked_secrets, opens, consume, deliver, handle_event, route_tracked,
}
use mostro_ts_client.DmRouter.Gate.{Accepted}

keep-keep_none : {A : Type 0} (p : A → Bool) (xs : List A) → keep p (keep (λ x. not (p x)) xs) ≡ []
keep-keep_none p [] = refl
keep-keep_none p (x ∷ xs) = ground (arith, keep-keep_none p xs)

keep-keep_self :
    {A : Type 0} (p : A → Bool) (xs : List A)
    → keep (λ x. not (p x)) (keep (λ x. not (p x)) xs) ≡ keep (λ x. not (p x)) xs
keep-keep_self p [] = refl
keep-keep_self p (x ∷ xs) = ground (arith, keep-keep_self p xs)

module _ (transport : Transport) (mostro_pubkey : String) (verify : NostrEvent → Bool)
    (try_unwrap : NostrEvent → String → Option Message) (event : NostrEvent) where
  abbrev opened : String → Bool
  opened secret = opens transport mostro_pubkey verify try_unwrap event secret

  -- the calls for the tracked orders: both callbacks for the first order whose secret opens the event
  unfoldable pub routed : List Tracked → List Effect
  routed [] = []
  routed (t ∷ ts) = elim (try_unwrap event t.secret) [
    | some message ↦
        order_message t.order_id message event ∷ any_message t.order_id message event ∷ []
    | none ↦ routed ts
  ]

  calls_for : Option (String × Message) → List Effect
  calls_for none = []
  calls_for (some (order_id, message)) =
      order_message order_id message event ∷ any_message order_id message event ∷ []

  deliver-calls :
      (ts : List Tracked)
      → deliver transport mostro_pubkey verify try_unwrap event ts
        ≡ calls_for (route_tracked transport mostro_pubkey verify try_unwrap event ts)
  unfolding deliver calls_for
  deliver-calls ts =
      elim (Option-cases (route_tracked transport mostro_pubkey verify try_unwrap event ts)) [
        | inl e ↦ rw (e, deliver, e)
        | inr ((order_id, message), e) ↦ rw (e, deliver)
      ]

  calls-routed :
      (ts : List Tracked)
      → calls_for (route_tracked transport mostro_pubkey verify try_unwrap event ts) ≡ routed ts
  unfolding route_tracked routed calls_for
  calls-routed [] = refl
  calls-routed (t ∷ ts) = elim (Option-cases (try_unwrap event t.secret)) [
    | inl e ↦ rw (e, route_tracked, routed) (calls-routed ts)
    | inr (m, e) ↦ rw (e, route_tracked, routed)
  ]

  consumed :
      (ws : List String)
      → consume transport mostro_pubkey verify try_unwrap event ws
        ≡ (map (λ w. resolved w event) (keep opened ws), keep (λ w. not (opened w)) ws)
  unfolding consume
  consumed [] = refl
  consumed (w ∷ ws) = elim (Option-cases (try_unwrap event w)) [
    | inl e ↦ rw (e, consume, consumed ws)
    | inr (m, e) ↦ rw (e, consume, consumed ws)
  ]

  -- An event that passes the gate resolves exactly the waiters whose key opens it, in the order of their
  -- registration, leaves exactly the others waiting, and then calls both callbacks for the first tracked order
  -- whose key opens it, and none if there is no such order.
  pub Accepted-delivery :
      (r : Router)
      → Accepted transport mostro_pubkey verify event r
      → handle_event transport mostro_pubkey verify try_unwrap event r ≡ (
        record r { waiters = keep (λ w. not (opened w)) r.waiters },
        map (λ w. resolved w event) (keep opened r.waiters)
            ++ routed (tracked_secrets r.order_by_subscription),
      )
  unfolding handle_event
  Accepted-delivery r a = rw (
    !=_of_eq event.kind (transport_event_kind transport) a.kind,
    a.signed,
    !=_of_eq event.pubkey mostro_pubkey a.author,
    a.foreign,
    consumed r.waiters,
    deliver-calls (tracked_secrets r.order_by_subscription),
    calls-routed (tracked_secrets r.order_by_subscription),
  )

  Accepted-after :
      (r : Router)
      → Accepted transport mostro_pubkey verify event r
      → Accepted transport mostro_pubkey verify event
          (record r { waiters = keep (λ w. not (opened w)) r.waiters })
  Accepted-after r a = record {
    kind = a.kind;
    signed = a.signed;
    author = a.author;
    foreign = a.foreign;
  }

  -- A waiter is resolved at most once: an event that is handled a second time resolves nobody and leaves the state
  -- as the first time did; it only repeats the two callbacks.
  pub redelivery_resolves_none :
      (r : Router)
      → Accepted transport mostro_pubkey verify event r
      → let r' = (handle_event transport mostro_pubkey verify try_unwrap event r).0 in
        handle_event transport mostro_pubkey verify try_unwrap event r'
        ≡ (r', routed (tracked_secrets r.order_by_subscription))
  redelivery_resolves_none r a = rw (Accepted-delivery r a) (
      rw (
        Accepted-delivery (record r { waiters = keep (λ w. not (opened w)) r.waiters })
            (Accepted-after r a),
        keep-keep_none opened r.waiters,
        keep-keep_self opened r.waiters,
      ))
