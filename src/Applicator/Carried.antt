-- ===== src/Applicator/Carried.antt =====
-- The order that a message carries, for the actions whose order is stored (src/protocol/applicator.ts).
use mostro_ts_client.Common.{
  String, true, ◌≡◌, refl, ◌≢◌, ◌⊎◌, inl, inr, Option, some, is_some, string_eq, String-discrete,
  ==_of_eq, ==_of_ne, ◌↔◌, Option-cases,
}
use mostro_ts_client.Common.Int.{ℤ}
use mostro_ts_client.Action.{Action}
use mostro_ts_client.Order.{SmallOrder}
use mostro_ts_client.Message.{Payload, BondPayoutRequest}
use mostro_ts_client.Applicator.{
  order_in, requested_in, payout_in, small_order_from_payload, identified,
}

-- the actions that bring an order, and those that bring it with an invoice to pay
abbrev pub BringsOrder : Action → Type 0
BringsOrder a =
    (a ≡ Action.add_invoice)
    ⊎ ((a ≡ Action.buyer_took_order)
        ⊎ ((a ≡ Action.hold_invoice_payment_accepted) ⊎ (a ≡ Action.new_order)))

abbrev pub RequestsPayment : Action → Type 0
RequestsPayment a = (a ≡ Action.pay_invoice) ⊎ (a ≡ Action.pay_bond_invoice)

-- a message of an action and a payload carries an order
abbrev pub Carries : Action → Option Payload → SmallOrder → Type 0
Carries a p o =
    (BringsOrder a × (p ≡ some (Payload.order o)))
    ⊎ ((RequestsPayment a
          × ((request : String) × (sats : Option ℤ) × (p
                ≡ some (Payload.payment_request (some o) request sats))))
        ⊎ ((a ≡ Action.add_bond_invoice)
            × ((b : BondPayoutRequest) × (p ≡ some (Payload.bond_payout_request b))
                × (b.order ≡ o))))

-- with an id that is not empty
pub record Brought (a : Action) (p : Option Payload) : Type 0 where
  pub order : SmallOrder
  pub id : String
  pub carried : Carries a p order
  pub named : order.id ≡ some id
  pub nonempty : id ≢ ""

order_in_sound :
    (p : Option Payload) (o : SmallOrder) → order_in p ≡ some o → p ≡ some (Payload.order o)
order_in_sound (some (Payload.order o')) o h = cc
order_in_sound _ o h = cc

requested_in_sound :
    (p : Option Payload) (o : SmallOrder)
    → requested_in p ≡ some o
    → (request : String) × (sats : Option ℤ) × (p
        ≡ some (Payload.payment_request (some o) request sats))
requested_in_sound (some (Payload.payment_request (some o') request sats)) o h = (request, sats, cc)
requested_in_sound _ o h = cc

payout_in_sound :
    (p : Option Payload) (o : SmallOrder)
    → payout_in p ≡ some o
    → (b : BondPayoutRequest) × (p ≡ some (Payload.bond_payout_request b)) × (b.order ≡ o)
payout_in_sound (some (Payload.bond_payout_request b)) o h = (b, refl, cc)
payout_in_sound _ o h = cc

Carries-small_order :
    (a : Action) (p : Option Payload) (o : SmallOrder)
    → small_order_from_payload a p ≡ some o
    → Carries a p o
unfolding small_order_from_payload
Carries-small_order Action.add_invoice p o h = inl (inl refl, order_in_sound p o h)
Carries-small_order Action.buyer_took_order p o h = inl (inr (inl refl), order_in_sound p o h)
Carries-small_order Action.hold_invoice_payment_accepted p o h =
    inl (inr (inr (inl refl)), order_in_sound p o h)
Carries-small_order Action.new_order p o h = inl (inr (inr (inr refl)), order_in_sound p o h)
Carries-small_order Action.pay_invoice p o h = inr (inl (inl refl, requested_in_sound p o h))
Carries-small_order Action.pay_bond_invoice p o h = inr (inl (inr refl, requested_in_sound p o h))
Carries-small_order Action.add_bond_invoice p o h = inr (inr (refl, payout_in_sound p o h))
Carries-small_order _ p o h = cc

small_order_carried :
    (a : Action) (p : Option Payload) (o : SmallOrder)
    → Carries a p o
    → small_order_from_payload a p ≡ some o
unfolding small_order_from_payload
small_order_carried a p o (inl (inl e, k)) = rw (e, k)
small_order_carried a p o (inl (inr (inl e), k)) = rw (e, k)
small_order_carried a p o (inl (inr (inr (inl e)), k)) = rw (e, k)
small_order_carried a p o (inl (inr (inr (inr e)), k)) = rw (e, k)
small_order_carried a p o (inr (inl (inl e, (request, sats, k)))) = rw (e, k)
small_order_carried a p o (inr (inl (inr e, (request, sats, k)))) = rw (e, k)
small_order_carried a p o (inr (inr (e, (b, k, l)))) = rw (e, k, l)

identified-some :
    (order : SmallOrder)
    → is_some (identified (some order)) ≡ true
    → (id : String) × (order.id ≡ some id) × (id ≢ "")
unfolding identified
identified-some order h = elim (Option-cases order.id) [
  | inl e ↦ let h' = rw e at h in cc
  | inr (id, e) ↦ elim (String-discrete id "") [
    | yes empty ↦ let h' = rw (e, ==_of_eq id "" empty) at h in cc
    | no n ↦ (id, e, n)
  ]
]

-- the order of a message is the one that is stored
pub identified-Brought :
    (a : Action) (p : Option Payload)
    → (is_some (identified (small_order_from_payload a p)) ≡ true) ↔ Brought a p
unfolding identified
identified-Brought a p = (
  λ h. elim (Option-cases (small_order_from_payload a p)) [
    | inl e ↦ let h' = rw e at h in cc
    | inr (o, e) ↦
        let h' : is_some (identified (some o)) ≡ true = rw e at h in
        let (id, named, nonempty) = identified-some o h' in
        record {
          order = o;
          id = id;
          carried = Carries-small_order a p o e;
          named = named;
          nonempty = nonempty;
        }
  ],
  λ b. rw (small_order_carried a p b.order b.carried, b.named, ==_of_ne b.id "" b.nonempty),
)
