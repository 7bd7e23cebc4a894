-- ===== src/DmRouter.antt =====
-- src/protocol/dmRouter.ts: the router of protocol messages, as a state and the effects of its
-- operations. `verify_event_signature` and `pubkey_from_secret` are the
-- cryptography, and `try_unwrap` is the decryption of an event with a trade key.
pub mod Gate
pub mod Delivery
pub mod Replay
pub mod Replayed
use mostro_ts_client.Common.{
  ℕ, String, Bool, true, false, ◌&&◌, ◌||◌, not, Option, none, some, List, [], ◌∷◌, ◌++◌, map,
  if◌then◌else◌, ◌==◌, ◌!=◌, string_eq, nat_eq, is_some,
}
use mathlib.Core.Option
use mostro_ts_client.Common.Int.{ℤ, ltb_ℤ}
use mostro_ts_client.Common.Lists.{keep, includes}
use mostro_ts_client.Common.Sort.{sort_by}
use mostro_ts_client.Common.Text.{take_chars, append}
use mostro_ts_client.Message.{Message}

pub data Transport : Type 0 where
  gift_wrap nip44_direct : Transport

abbrev pub transport_event_kind : Transport → ℕ
transport_event_kind gift_wrap = 1059
transport_event_kind nip44_direct = 14

pub record NostrEvent : Type 0 where
  pub id : String
  pub kind : ℕ
  pub pubkey : String
  pub created_at : ℤ
  pub content : String

-- an order and its trade secret
pub record Tracked : Type 0 where
  pub order_id : String
  pub secret : String

-- A waiter is its trade secret: the `closed` of the source is always false.
pub record Router : Type 0 where
  pub waiters : List String
  pub subscribed_secrets : List String
  pub order_by_subscription : List (String × Tracked)
  pub subscription_by_pubkey : List (String × String)
  pub own_outbound_ids : List String

-- what an event makes the router call: a waiter's `resolve`, `onOrderMessage` and `onMessage`
pub data Effect : Type 0 where
  resolved : String → NostrEvent → Effect
  order_message : String → Message → NostrEvent → Effect
  any_message : String → Message → NostrEvent → Effect

abbrev pub find_id : String → List (String × String) → Option String
find_id pubkey [] = none
find_id pubkey ((key, id) ∷ rest) =
    let found = find_id pubkey rest in if key == pubkey then some id else found

-- `map.set(id, tracked)`
abbrev pub set_tracked : String → Tracked → List (String × Tracked) → List (String × Tracked)
set_tracked id t [] = (id, t) ∷ []
set_tracked id t ((key, old) ∷ rest) =
    let set = set_tracked id t rest in if key == id then (key, t) ∷ rest else (key, old) ∷ set

abbrev pub tracked_secrets : List (String × Tracked) → List Tracked
tracked_secrets [] = []
tracked_secrets ((id, t) ∷ rest) = t ∷ tracked_secrets rest

unfoldable pub note_outbound : String → Router → Router
note_outbound id r = record r { own_outbound_ids = r.own_outbound_ids ++ id ∷ [] }

module _ (pubkey_from_secret : String → String) where
  unfoldable pub subscribe_pubkey : String → Router → Router × String
  unfolding take_chars append
  subscribe_pubkey secret r =
      let pubkey = pubkey_from_secret secret in
      elim (find_id pubkey r.subscription_by_pubkey) [
        | some id ↦ (r, id)
        | none ↦
            let synthetic_id = append "mostro-dm-" (take_chars 16 pubkey) in
            (
              record r {
                subscription_by_pubkey = r.subscription_by_pubkey ++ (pubkey, synthetic_id) ∷ [];
              },
              synthetic_id,
            )
      ]

  unfoldable pub ensure_subscription : String → String → Router → Router
  unfolding subscribe_pubkey
  ensure_subscription order_id secret r =
      if includes r.subscribed_secrets secret
      then r
      else (let (r', id) =
            subscribe_pubkey secret
              (record r { subscribed_secrets = r.subscribed_secrets ++ secret ∷ [] }) in
          record r' {
            order_by_subscription =
                set_tracked id (record { order_id = order_id; secret = secret })
                  r'.order_by_subscription;
          })

  unfoldable pub wait_for_dm : String → Router → Router
  unfolding subscribe_pubkey
  wait_for_dm secret r =
      (subscribe_pubkey secret (record r { waiters = r.waiters ++ secret ∷ [] })).0

module _ (transport : Transport) (mostro_pubkey : String)
    (verify_event_signature : NostrEvent → Bool)
    (try_unwrap : NostrEvent → String → Option Message) where
  abbrev pub opens : NostrEvent → String → Bool
  opens event secret = is_some (try_unwrap event secret)

  -- the first tracked order whose secret decrypts the event
  unfoldable pub route_tracked : NostrEvent → List Tracked → Option (String × Message)
  route_tracked event [] = none
  route_tracked event (t ∷ ts) =
      let rest = route_tracked event ts in
      elim (try_unwrap event t.secret) [ some message ↦ some (t.order_id, message) | none ↦ rest ]

  -- the waiters that the event resolves, and those that remain
  unfoldable pub consume : NostrEvent → List String → List Effect × List String
  consume event [] = ([], [])
  consume event (w ∷ ws) =
      let (effects, remaining) = consume event ws in
      elim (try_unwrap event w) [
        | some _ ↦ (resolved w event ∷ effects, remaining)
        | none ↦ (effects, w ∷ remaining)
      ]

  -- the callbacks, both given
  unfoldable pub deliver : NostrEvent → List Tracked → List Effect
  unfolding route_tracked
  deliver event tracked = elim (route_tracked event tracked) [
    | some (order_id, message) ↦
        order_message order_id message event ∷ any_message order_id message event ∷ []
    | none ↦ elim (route_tracked event tracked) [
      | some (order_id, message) ↦ any_message order_id message event ∷ []
      | none ↦ []
    ]
  ]

  unfoldable pub handle_event : NostrEvent → Router → Router × List Effect
  unfolding consume deliver
  handle_event event r =
      if event.kind != transport_event_kind transport
      then (r, [])
      else if not (verify_event_signature event)
      then (r, [])
      else if event.pubkey != mostro_pubkey
      then (r, [])
      else if includes r.own_outbound_ids event.id
      then (r, [])
      else (let (effects, remaining) = consume event r.waiters in
          (
            record r { waiters = remaining },
            effects ++ deliver event (tracked_secrets r.order_by_subscription),
          ))
