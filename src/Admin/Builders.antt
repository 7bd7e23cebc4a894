-- ===== src/Admin/Builders.antt =====
-- The messages that src/protocol/admin.ts builds, and the replies that it takes.
use mostro_ts_client.Common.{
  !=_of_eq, String, Bool, true, false, ◌≡◌, refl, ap, ◌≢◌, ◌↔◌, Option, none, some, ok, err,
  if◌then◌else◌, ◌==◌, ◌!=◌, ==_of_ne, ==_of_eq, !=_of_eq, eq_of_!=, eq_of_==, ne_of_==,
}
use mostro_ts_client.Common.Int.{ℤ, int_eq}
use mostro_ts_client.Action.{Action, action_eq}
use mostro_ts_client.Message.{Payload, MessageKind, new_dispute_message}
use mostro_ts_client.Fault.{Fault}
use mostro_ts_client.Verify.{verify_message_kind}
use mostro_ts_client.Admin.{
  finalized, BondSlash, no_slash, bond_slash_to_payload, bond_payload, build_admin_settle_message,
  build_admin_cancel_message, Finalized, confirmed, already_cooperatively_canceled,
  handle_admin_finalize_response,
}

true_ne_false : ◌≡◌ {A = Bool} true false → ⊥
true_ne_false h = cc

-- the payload of a decision on the bonds: none exactly when no side is slashed
abbrev pub Decides : Option BondSlash → Option Payload → Type 0
Decides none payload = payload ≡ none
Decides (some b) payload =
    ((payload ≡ none) ↔ (b ≡ no_slash))
    × (b ≢ no_slash
        → payload
          ≡ some (
              Payload.bond_resolution
                (record { slash_seller = b.slash_seller; slash_buyer = b.slash_buyer })))

slash-Decides :
    (seller buyer : Bool)
    → let b : BondSlash = record { slash_seller = seller; slash_buyer = buyer } in
      Decides (some b) (bond_slash_to_payload b)
unfolding bond_slash_to_payload
slash-Decides true buyer =
    ((λ h. cc, λ h. absurd (true_ne_false (ap (λ (b : BondSlash). b.slash_seller) h))), λ n. refl)
slash-Decides false true =
    ((λ h. cc, λ h. absurd (true_ne_false (ap (λ (b : BondSlash). b.slash_buyer) h))), λ n. refl)
slash-Decides false false = ((λ h. refl, λ h. refl), λ n. absurd (n refl))

bond_payload-Decides : (bond : Option BondSlash) → Decides bond (bond_payload bond)
bond_payload-Decides none = refl
bond_payload-Decides (some b) = slash-Decides b.slash_seller b.slash_buyer

-- verification takes an admin decision with either of its payloads
finalize_verified :
    (id : String) (request_id : ℤ) (seller buyer : Bool)
    → let b : BondSlash = record { slash_seller = seller; slash_buyer = buyer } in
      let payload = bond_slash_to_payload b in
      (build_admin_settle_message id request_id (some b)
        ≡ ok (new_dispute_message (some id) (some request_id) none Action.admin_settle payload))
      × (build_admin_cancel_message id request_id (some b)
          ≡ ok (new_dispute_message (some id) (some request_id) none Action.admin_cancel payload))
unfolding build_admin_settle_message build_admin_cancel_message verify_message_kind
    bond_slash_to_payload
finalize_verified id request_id true buyer = (refl, refl)
finalize_verified id request_id false true = (refl, refl)
finalize_verified id request_id false false = (refl, refl)

-- For every order, request id and decision on the bonds, settling and cancelling both give a dispute
-- message that passes verification, with that order, that request id and one payload: none exactly
-- when there is no decision or neither side is slashed, and else a bond resolution with the same two
-- flags.
pub admin_decisions_total :
    (id : String) (request_id : ℤ) (bond : Option BondSlash)
    → (payload : Option Payload) × (build_admin_settle_message id request_id bond
        ≡ ok (new_dispute_message (some id) (some request_id) none Action.admin_settle payload))
      × (build_admin_cancel_message id request_id bond
          ≡ ok (new_dispute_message (some id) (some request_id) none Action.admin_cancel payload))
      × Decides bond payload
unfolding build_admin_settle_message build_admin_cancel_message verify_message_kind
admin_decisions_total id request_id none = (none, refl, refl, refl)
admin_decisions_total id request_id (some b) =
    let h = finalize_verified id request_id b.slash_seller b.slash_buyer in
    (bond_slash_to_payload b, h.0, h.1, bond_payload-Decides (some b))

-- when a reply to a decision is taken, and as what
abbrev pub Answers : MessageKind → ℤ → Action → Finalized → Type 0
Answers kind id expected confirmed = (kind.request_id ≡ some id) × (kind.action ≡ expected)
Answers kind id expected already_cooperatively_canceled =
    (kind.request_id ≡ some id)
    × (kind.action ≢ expected)
    × (kind.action ≡ Action.cooperative_cancel_accepted)

choice_confirmed :
    (b c d : Bool) (u v : Fault)
    → (if b
        then err u
        else if c
        then ok confirmed
        else if d
        then ok already_cooperatively_canceled
        else err v)
      ≡ ok confirmed
    → (b ≡ false) × (c ≡ true)
choice_confirmed true c d u v h = cc
choice_confirmed false true d u v h = (refl, refl)
choice_confirmed false false true u v h = cc
choice_confirmed false false false u v h = cc

choice_canceled :
    (b c d : Bool) (u v : Fault)
    → (if b
        then err u
        else if c
        then ok confirmed
        else if d
        then ok already_cooperatively_canceled
        else err v)
      ≡ ok already_cooperatively_canceled
    → (b ≡ false) × (c ≡ false) × (d ≡ true)
choice_canceled true c d u v h = cc
choice_canceled false true d u v h = cc
choice_canceled false false true u v h = (refl, refl, refl)
choice_canceled false false false u v h = cc

confirmed_of :
    (r id : ℤ) (a expected : Action)
    → finalized expected id a r ≡ ok confirmed
    → (some r ≡ some id) × (a ≡ expected)
unfolding finalized
confirmed_of r id a expected h =
    let p = choice_confirmed (r != id) (a == expected) _ _ _ h in
    (ap some (eq_of_!= r id p.0), eq_of_== a expected p.1)

canceled_of :
    (r id : ℤ) (a expected : Action)
    → finalized expected id a r ≡ ok already_cooperatively_canceled
    → (some r ≡ some id) × (a ≢ expected) × (a ≡ Action.cooperative_cancel_accepted)
unfolding finalized
canceled_of r id a expected h =
    let p =
      choice_canceled (r != id) (a == expected) (a == Action.cooperative_cancel_accepted) _ _ h in
    (
      ap some (eq_of_!= r id p.0),
      ne_of_== a expected p.1,
      eq_of_== a Action.cooperative_cancel_accepted p.2,
    )

finalized_confirmed :
    (r id : ℤ) (a expected : Action)
    → some r ≡ some id
    → a ≡ expected
    → finalized expected id a r ≡ ok confirmed
unfolding finalized
finalized_confirmed r id a expected e f = rw (!=_of_eq r id (cc), ==_of_eq a expected f)

finalized_canceled :
    (r id : ℤ) (a expected : Action)
    → some r ≡ some id
    → a ≢ expected
    → a ≡ Action.cooperative_cancel_accepted
    → finalized expected id a r ≡ ok already_cooperatively_canceled
unfolding finalized
finalized_canceled r id a expected e n f =
    rw (!=_of_eq r id (cc), ==_of_ne a expected n, ==_of_eq a Action.cooperative_cancel_accepted f)

finalized_iff :
    (kind : MessageKind) (request : Option ℤ) (id : ℤ) (expected : Action) (f : Finalized)
    → (handle_admin_finalize_response (record kind { request_id = request }) id expected ≡ ok f)
      ↔ Answers (record kind { request_id = request }) id expected f
unfolding handle_admin_finalize_response
finalized_iff kind none id expected confirmed = (λ h. cc, λ h. cc (h.0))
finalized_iff kind none id expected already_cooperatively_canceled = (λ h. cc, λ h. cc (h.0))
finalized_iff kind (some r) id expected confirmed = (
  confirmed_of r id kind.action expected,
  λ h. finalized_confirmed r id kind.action expected h.0 h.1,
)
finalized_iff kind (some r) id expected already_cooperatively_canceled = (
  canceled_of r id kind.action expected,
  λ h. finalized_canceled r id kind.action expected h.0 h.1 h.2,
)

-- The reply to a settle or cancel is taken exactly when it echoes the request id and its action is
-- the expected one (confirmed), or is another one that accepts a cooperative cancel (already
-- canceled).
pub finalize_response_iff :
    (kind : MessageKind) (id : ℤ) (expected : Action) (f : Finalized)
    → (handle_admin_finalize_response kind id expected ≡ ok f) ↔ Answers kind id expected f
finalize_response_iff kind id expected f = finalized_iff kind kind.request_id id expected f
