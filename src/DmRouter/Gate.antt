-- ===== src/DmRouter/Gate.antt =====
-- Which events the router acts on (`handleEvent` up to its waiters).
use mostro_ts_client.Common.{
  !=_of_eq, !=_of_ne, String, Bool, true, false, ◌≡◌, refl, ◌⊎◌, inl, inr, Option, List, [], ◌∷◌,
  ◌++◌, string_eq, nat_eq, String-discrete, ℕ_discrete, Bool-cases, arith, ==_of_eq,
}
use mostro_ts_client.Common.Lists.{includes}
use mostro_ts_client.Message.{Message}
use mostro_ts_client.DmRouter.{
  Transport, transport_event_kind, NostrEvent, Router, handle_event, note_outbound,
}

-- the four conditions that an event must meet
pub record Accepted (transport : Transport) (mostro_pubkey : String)
    (verify_event_signature : NostrEvent → Bool) (event : NostrEvent) (r : Router) : Type 0 where
  pub kind : event.kind ≡ transport_event_kind transport
  pub signed : verify_event_signature event ≡ true
  pub author : event.pubkey ≡ mostro_pubkey
  pub foreign : includes r.own_outbound_ids event.id ≡ false

includes-append : (ids : List String) (id : String) → includes (ids ++ id ∷ []) id ≡ true
includes-append [] id = rw (==_of_eq id id refl)
includes-append (x ∷ ids) id = ground (arith, includes-append ids id)

module _ (transport : Transport) (mostro_pubkey : String) (verify : NostrEvent → Bool)
    (try_unwrap : NostrEvent → String → Option Message) where
  -- An event either meets all four conditions (the kind of the transport, a valid signature, the author, and an
  -- id that the client did not publish itself), or it changes nothing and calls nothing.
  pub handle_event_gated :
      (event : NostrEvent) (r : Router)
      → Accepted transport mostro_pubkey verify event r
        ⊎ (handle_event transport mostro_pubkey verify try_unwrap event r ≡ (r, []))
  unfolding handle_event
  handle_event_gated event r = elim (ℕ_discrete event.kind (transport_event_kind transport)) [
    | no n ↦ inr (rw (!=_of_ne event.kind (transport_event_kind transport) n))
    | yes k ↦ elim (Bool-cases (verify event)) [
      | inr v ↦ inr (rw (!=_of_eq event.kind (transport_event_kind transport) k, v))
      | inl v ↦ elim (String-discrete event.pubkey mostro_pubkey) [
        | no n ↦ inr (
            rw (
              !=_of_eq event.kind (transport_event_kind transport) k,
              v,
              !=_of_ne event.pubkey mostro_pubkey n,
            ))
        | yes a ↦ elim (Bool-cases (includes r.own_outbound_ids event.id)) [
          | inl own ↦ inr (
              rw (
                !=_of_eq event.kind (transport_event_kind transport) k,
                v,
                !=_of_eq event.pubkey mostro_pubkey a,
                own,
              ))
          | inr foreign ↦ inl (record { kind = k; signed = v; author = a; foreign = foreign })
        ]
      ]
    ]
  ]

  -- The relay's echo of an event that the client published calls nothing, whatever waits for it.
  pub own_echo_ignored :
      (event : NostrEvent) (r : Router)
      → handle_event transport mostro_pubkey verify try_unwrap event (note_outbound event.id r)
        ≡ (note_outbound event.id r, [])
  unfolding note_outbound
  own_echo_ignored event r = elim (handle_event_gated event (note_outbound event.id r)) [
    | inl a ↦ let own = includes-append r.own_outbound_ids event.id in let foreign = a.foreign in cc
    | inr ignored ↦ ignored
  ]
