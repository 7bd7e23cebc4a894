-- ===== src/Client/Exchange.antt =====
-- `roundtrip` of src/protocol/client.ts, over the events that the router delivers once the request is
-- sent, in their order; where they end, the wait times out.
use mostro_ts_client.Common.{
  Bool, ◌||◌, Option, none, some, List, [], ◌∷◌, if◌then◌else◌, ◌==◌, Result, ok, err,
}
use mostro_ts_client.Common.Lists.{includes}
use mostro_ts_client.Action.{Action, action_eq}
use mostro_ts_client.Message.{MessageKind, Message}
use mostro_ts_client.DmRouter.{Router, NostrEvent}
use mostro_ts_client.Fault.{Fault, not_started, reply_timed_out}

-- `action === "cant-do" || expectedActions.includes(action)`
abbrev pub answers : List Action → Message → Bool
answers expected m = m.value.action == Action.cant_do || includes expected m.value.action

-- what one event does, before the rest
abbrev pub settle :
    List Action
    → Result Fault (Option Message)
    → Result Fault MessageKind
    → Result Fault MessageKind
settle expected (err f) rest = err f
settle expected (ok none) rest = rest
settle expected (ok (some m)) rest = if answers expected m then ok m.value else rest

-- `unwrap` is unwrapMessageNip44 with the trade secret
unfoldable pub await_reply :
    (NostrEvent → Result Fault (Option Message))
    → List Action
    → List NostrEvent
    → Result Fault MessageKind
await_reply unwrap expected [] = err reply_timed_out
await_reply unwrap expected (event ∷ events) =
    settle expected (unwrap event) (await_reply unwrap expected events)

unfoldable pub roundtrip :
    Option Router
    → (NostrEvent → Result Fault (Option Message))
    → List Action
    → List NostrEvent
    → Result Fault MessageKind
roundtrip none unwrap expected events = err not_started
roundtrip (some router) unwrap expected events = await_reply unwrap expected events
