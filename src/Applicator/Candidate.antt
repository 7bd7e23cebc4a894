-- ===== src/Applicator/Candidate.antt =====
-- The status that a message proposes, and the guard on it.
use mostro_ts_client.Common.{
  String, true, ◌≡◌, refl, ap, ◌≢◌, Option, none, some, if◌then◌else◌, String-discrete, or_else,
  Option-cases, Bool-cases, inl, inr, ==_of_ne, ==_of_eq, string_eq,
}
use mathlib.Core.Option
use mostro_ts_client.Common.Text.{to_lower}
use mostro_ts_client.Kind.{Kind}
use mostro_ts_client.Status.{Status, status_to_string, status_from_string}
use mostro_ts_client.Action.{Action, Action-discrete, action_eq}
use mostro_ts_client.Order.{SmallOrder}
use mostro_ts_client.Message.{Payload, MessageKind}
use mostro_ts_client.StateMachine.{
  should_apply_status_transition, inferred_status_from_trade_action, map_action_to_status,
  parse_status, parse_kind,
}
use mostro_ts_client.Vocabulary.Statuses.{status_round_trip}
use mostro_ts_client.Store.{OrderRow, kept}
use mostro_ts_client.Applicator.{
  small_order_from_payload, status_of_action, resolved_status_candidate, transition_ok,
  applied_status,
}

-- The status that a message proposes, as a status: of the order that it carries, else of its action.
unfoldable pub proposed : Action → Option Payload → Option Status
proposed action payload = elim (small_order_from_payload action payload) [
  | some order ↦ map_action_to_status action order
  | none ↦ inferred_status_from_trade_action action
]

status_of_action-inferred :
    (a : Action)
    → status_of_action a ≡ Option.map status_to_string (inferred_status_from_trade_action a)
unfolding status_of_action inferred_status_from_trade_action status_to_string
status_of_action-inferred Action.canceled = refl
status_of_action-inferred _ = refl

or_else-none : {A : Type 0} (o : Option A) → or_else o none ≡ o
or_else-none none = refl
or_else-none (some a) = refl

or_else_self :
    (a : Action) (o : SmallOrder)
    → or_else (map_action_to_status a o) o.status ≡ map_action_to_status a o
unfolding map_action_to_status
or_else_self a o = elim (Option-cases o.status) [
  | inl e ↦ rw e (or_else-none (inferred_status_from_trade_action a))
  | inr (st, e) ↦ rw e
]

-- The second table of statuses by action, in applicator.ts, agrees with the one of stateMachine.ts:
-- the candidate of every message is the text of the status that `mapActionToStatus` gives for its
-- order, or `inferredStatusFromTradeAction` for its action.
pub resolved_status_candidate-proposed :
    (a : Action) (p : Option Payload)
    → resolved_status_candidate a p ≡ Option.map status_to_string (proposed a p)
unfolding resolved_status_candidate proposed
resolved_status_candidate-proposed a p = elim (Option-cases (small_order_from_payload a p)) [
  | inl e ↦ rw (e, resolved_status_candidate, proposed) (status_of_action-inferred a)
  | inr (o, e) ↦
      rw (e, resolved_status_candidate, proposed)
        (ap (Option.map status_to_string) (or_else_self a o))
]

pub nonempty_text : (st : Status) → status_to_string st ≢ ""
unfolding status_from_string to_lower String-discrete
nonempty_text st e = let trip = status_round_trip st in let none_some = rw e at trip in cc

pub parse_status_text : (o : Option Status) → parse_status (Option.map status_to_string o) ≡ o
unfolding parse_status
parse_status_text none = refl
parse_status_text (some st) =
    rw (==_of_ne (status_to_string st) "" (nonempty_text st), status_round_trip st)

guarded_proposal :
    (current : Option Status) (kind : Option Kind) (a : Action) (p : Option Status) (text : String)
    → a ≢ Action.cant_do
    → (if transition_ok current p kind a then Option.map status_to_string p else none) ≡ some text
    → (d : Status) × (text ≡ status_to_string d)
      × (p ≡ some d)
      × (should_apply_status_transition current d kind (some a) ≡ true)
guarded_proposal current kind a none text n h = cc
guarded_proposal current kind a (some d) text n h =
    let not_cant_do = ==_of_ne a Action.cant_do n in
    elim (Bool-cases (should_apply_status_transition current d kind (some a))) [
      | inl e ↦ (d, (let reduced = rw (not_cant_do, e) at h in cc), refl, e)
      | inr e ↦ (let reduced = rw (not_cant_do, e) at h in cc)
    ]

-- The status that a message applies is the text of a status that it proposes and that the guard
-- accepts over the stored one; a cant-do applies none.
pub applied_status_guarded :
    (existing : Option OrderRow) (kind : MessageKind) (text : String)
    → applied_status existing kind ≡ some text
    → (kind.action ≢ Action.cant_do)
      × (d : Status) × (text ≡ status_to_string d)
      × (proposed kind.action kind.payload ≡ some d)
      × (should_apply_status_transition
            (parse_status (kept (λ r. r.status) existing))
            d
            (parse_kind (kept (λ r. r.kind) existing))
            (some kind.action)
          ≡ true)
unfolding applied_status
applied_status_guarded existing kind text h = elim (Action-discrete kind.action Action.cant_do) [
  | yes e ↦ (let reduced = rw (==_of_eq kind.action Action.cant_do e) at h in cc)
  | no n ↦
      let candidate = resolved_status_candidate-proposed kind.action kind.payload in
      let p = proposed kind.action kind.payload in
      let current = parse_status (kept (λ r. r.status) existing) in
      let kind_type = parse_kind (kept (λ r. r.kind) existing) in
      let reduced =
        rw (==_of_ne kind.action Action.cant_do n, candidate, parse_status_text p) at h in
      let (d, same, of_p, accepted) =
        guarded_proposal current kind_type kind.action p text n reduced in
      (n, d, same, of_p, accepted)
]
