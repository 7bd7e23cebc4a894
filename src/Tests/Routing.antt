-- ===== src/Tests/Routing.antt =====
-- Examples for the message router.
use mathlib.Core.List.{Memᴰ}
use mostro_ts_client.Common.Lists.{All}
use mostro_ts_client.Common.Sort.{IsSorted}
use mostro_ts_client.Common.{
  List, String, Bool, true, ◌≡◌, refl, ◌⊎◌, not, Option, none, some, [], ◌∷◌, ◌++◌, map,
  if◌then◌else◌, ◌==◌, string_eq,
}
use mostro_ts_client.Common.Lists.{keep}
use mostro_ts_client.Common.Int.{pos}
use mostro_ts_client.Action.{Action}
use mostro_ts_client.Message.{Message}
use mostro_ts_client.DmRouter.{
  nip44_direct, NostrEvent, Router, resolved, opens, handle_event, tracked_secrets,
}
use mostro_ts_client.DmRouter.Gate.{Accepted, handle_event_gated}
use mostro_ts_client.DmRouter.Replay.{
  Filter, ReplayedDm, older, replayed, filter_protocol_dm_from_mostro, with_since, replay_trade_dms,
}
use mostro_ts_client.DmRouter.Replayed.{Genuine, FromTrade, replay_trade_dms-Genuine}
use mostro_ts_client.DmRouter.Delivery.{routed, Accepted-delivery}
use mostro_ts_client.Tests.{message_of}

abbrev pub notice : NostrEvent
notice = record { id = "e1"; kind = 14; pubkey = "mostro"; created_at = pos 9; content = "k1" }

abbrev signed : NostrEvent → Bool
signed event = true

-- the content of an example names the key that opens it
abbrev unwrap : NostrEvent → String → Option Message
unwrap event secret =
    if event.content == secret then some (message_of Action.canceled none) else none

abbrev pub waiting : Router
waiting = record {
  waiters = "k1" ∷ "k2" ∷ [];
  subscribed_secrets = "k2" ∷ [];
  order_by_subscription = ("s2", record { order_id = "o2"; secret = "k2" }) ∷ [];
  subscription_by_pubkey = [];
  own_outbound_ids = [];
}

notice-Accepted : Accepted nip44_direct "mostro" signed notice waiting
notice-Accepted = record { kind = refl; signed = refl; author = refl; foreign = refl }

abbrev opened : String → Bool
opened secret = opens nip44_direct "mostro" signed unwrap notice secret

handle_event_gated_example :
    Accepted nip44_direct "mostro" signed notice waiting
    ⊎ (handle_event nip44_direct "mostro" signed unwrap notice waiting ≡ (waiting, []))
handle_event_gated_example = handle_event_gated nip44_direct "mostro" signed unwrap notice waiting

Accepted-delivery_example : handle_event nip44_direct "mostro" signed unwrap notice waiting ≡ (
  record waiting { waiters = keep (λ w. not (opened w)) waiting.waiters },
  map (λ w. resolved w notice) (keep opened waiting.waiters)
      ++ routed nip44_direct "mostro" signed unwrap notice
          (tracked_secrets waiting.order_by_subscription),
)
Accepted-delivery_example =
    Accepted-delivery nip44_direct "mostro" signed unwrap notice waiting notice-Accepted

-- the relays return the notice and an event of somebody else
abbrev relays : Filter → List NostrEvent
relays filter = notice ∷ record notice { pubkey = "mallory" } ∷ []

abbrev stored : List (String × String)
stored = ("o1", "k1") ∷ ("o2", "k2") ∷ []

abbrev queried : String → List NostrEvent
queried secret =
    relays (with_since none (filter_protocol_dm_from_mostro nip44_direct "mostro" secret))

abbrev results : List ReplayedDm
results = replay_trade_dms nip44_direct "mostro" signed unwrap relays (λ secret. secret) none stored

replay_trade_dms-Genuine_example :
    IsSorted older results
    × All (FromTrade nip44_direct "mostro" signed unwrap queried stored) results
    × ((o s : String) (e : NostrEvent) (m : Message)
        → Memᴰ (o, s) stored
        → Memᴰ e (queried s)
        → Genuine nip44_direct "mostro" signed unwrap s e m
        → Memᴰ (replayed o s e m) results)
replay_trade_dms-Genuine_example =
    replay_trade_dms-Genuine nip44_direct "mostro" signed unwrap relays (λ secret. secret) none
      stored
