-- ===== src/Invoice/Submit.antt =====
-- Submitting an invoice and reading the replies (src/protocol/invoice.ts).
use mostro_ts_client.Common.{
  String, Bool, true, false, ◌&&◌, ◌≡◌, refl, ap, ◌⊎◌, inl, inr, ◌↔◌, Option, none, some, ok, err,
  if◌then◌else◌, ◌!=◌, Bool-cases, eq_of_!=, !=_of_eq,
}
use mostro_ts_client.Common.Text.{trim}
use mostro_ts_client.Common.Int.{ℤ, int_eq}
use mostro_ts_client.Action.{Action, action_eq}
use mostro_ts_client.Message.{Payload, MessageKind, Message, new_order_message}
use mostro_ts_client.Fault.{Fault, invalid_invoice}
use mostro_ts_client.Verify.{verify_message_kind, get_payment_request}
use mostro_ts_client.Invoice.{
  InvoiceKind, bolt11, lnurl, ln_address, classify_invoice, is_probably_valid_bolt11,
  invoice_payload, Submission, add_invoice, add_bond_invoice, submission_action,
  build_invoice_message, handle_add_invoice_response, payload_of_kind,
}

-- the texts that are sent as invoices, once trimmed
abbrev pub Accepted : String → Type 0
Accepted t =
    (classify_invoice t ≡ some lnurl)
    ⊎ (classify_invoice t ≡ some ln_address)
    ⊎ ((classify_invoice t ≡ some bolt11) × (is_probably_valid_bolt11 t ≡ true))

-- the message that carries an invoice
abbrev pub submitted : String → ℤ → Submission → String → Message
submitted order_id request_id s t =
    new_order_message (some order_id) (some request_id) none (submission_action s)
      (some (Payload.payment_request none t none))

build_of_payload :
    (order_id : String) (request_id : ℤ) (s : Submission) (invoice t : String)
    → invoice_payload invoice ≡ some (Payload.payment_request none t none)
    → build_invoice_message order_id request_id s invoice ≡ ok (submitted order_id request_id s t)
unfolding build_invoice_message verify_message_kind
build_of_payload order_id request_id add_invoice invoice t h = rw h
build_of_payload order_id request_id add_bond_invoice invoice t h = rw h

submitted_verified :
    (order_id : String) (request_id : ℤ) (s : Submission) (t : String)
    → (verify_message_kind (submitted order_id request_id s t).value ≡ true)
      × (get_payment_request (submitted order_id request_id s t).value ≡ some t)
unfolding verify_message_kind get_payment_request
submitted_verified order_id request_id add_invoice t = (refl, refl)
submitted_verified order_id request_id add_bond_invoice t = (refl, refl)

build_of_none :
    (order_id : String) (request_id : ℤ) (s : Submission) (invoice : String)
    → invoice_payload invoice ≡ none
    → build_invoice_message order_id request_id s invoice ≡ err invalid_invoice
unfolding build_invoice_message
build_of_none order_id request_id s invoice h = rw h

none_refused : (t : String) → classify_invoice t ≡ none → Accepted t → ⊥
none_refused t e (inl a) = cc
none_refused t e (inr (inl a)) = cc
none_refused t e (inr (inr (a, v))) = cc

shape_refused :
    (t : String)
    → classify_invoice t ≡ some bolt11
    → is_probably_valid_bolt11 t ≡ false
    → Accepted t
    → ⊥
shape_refused t e n (inl a) = cc
shape_refused t e n (inr (inl a)) = cc
shape_refused t e n (inr (inr (a, v))) = cc

kind-Accepted :
    (k : Option InvoiceKind) (t : String)
    → classify_invoice t ≡ k
    → (Accepted t × (payload_of_kind k t ≡ some (Payload.payment_request none t none)))
      ⊎ ((Accepted t → ⊥) × (payload_of_kind k t ≡ none))
unfolding payload_of_kind
kind-Accepted none t e = inr (none_refused t e, refl)
kind-Accepted (some lnurl) t e = inl (inl e, refl)
kind-Accepted (some ln_address) t e = inl (inr (inl e), refl)
kind-Accepted (some bolt11) t e = elim (Bool-cases (is_probably_valid_bolt11 t)) [
  | inl v ↦ inl (inr (inr (e, v)), rw v)
  | inr v ↦ inr (shape_refused t e v, rw v)
]

-- Submitting a text as an invoice either gives an order message with the trimmed text as the invoice,
-- with the order's id and the request id, that passes verification and from which the invoice is read
-- back; or it throws. The first happens exactly when the trimmed text is classified as an LNURL or as
-- a Lightning address, or as a bolt11 invoice that has the shape of one.
pub build_invoice_total :
    (order_id : String) (request_id : ℤ) (s : Submission) (invoice : String)
    → let t = trim invoice in
      (Accepted t
        × (build_invoice_message order_id request_id s invoice
            ≡ ok (submitted order_id request_id s t))
        × (verify_message_kind (submitted order_id request_id s t).value ≡ true)
        × (get_payment_request (submitted order_id request_id s t).value ≡ some t))
      ⊎ ((Accepted t → ⊥)
          × (build_invoice_message order_id request_id s invoice ≡ err invalid_invoice))
unfolding invoice_payload
build_invoice_total order_id request_id s invoice =
    let t = trim invoice in
    elim (kind-Accepted (classify_invoice t) t refl) [
      | inl (a, e) ↦
          let v = submitted_verified order_id request_id s t in
          inl (a, build_of_payload order_id request_id s invoice t e, v.0, v.1)
      | inr (n, e) ↦ inr (n, build_of_none order_id request_id s invoice e)
    ]

-- what an accepted reply to a submission is
abbrev pub Acknowledges : MessageKind → ℤ → Type 0
Acknowledges kind id =
    (kind.request_id ≡ some id)
    × ((kind.action ≡ Action.waiting_seller_to_pay)
        ⊎ (kind.action ≡ Action.hold_invoice_payment_accepted))

choice :
    (b c : Bool) (u v : Fault)
    → (if b then err u else if c then err v else ok tt) ≡ ok tt
    → (b ≡ false) × (c ≡ false)
choice true c u v h = cc
choice false true u v h = cc
choice false false u v h = (refl, refl)

one_of : (a x y : Action) → (a != x && a != y) ≡ false → (a ≡ x) ⊎ (a ≡ y)
one_of a x y h = elim (Bool-cases (a != x)) [
  | inr e ↦ inl (eq_of_!= a x e)
  | inl e ↦ let h' = rw e at h in inr (eq_of_!= a y h')
]

neither : (a x y : Action) → (a ≡ x) ⊎ (a ≡ y) → (a != x && a != y) ≡ false
neither a x y (inl e) = rw (!=_of_eq a x e)
neither a x y (inr e) = rw (!=_of_eq a y e) (and_false (a != x))
  where
    and_false : (b : Bool) → (b && false) ≡ false
    and_false true = refl
    and_false false = refl

acknowledged :
    (kind : MessageKind) (request : Option ℤ) (id : ℤ)
    → (handle_add_invoice_response (record kind { request_id = request }) id ≡ ok tt)
      ↔ Acknowledges (record kind { request_id = request }) id
unfolding handle_add_invoice_response
acknowledged kind none id = (λ h. cc, λ h. cc (h.0))
acknowledged kind (some r) id = (
  λ h.
      let p = choice (r != id) _ _ _ h in (ap some (eq_of_!= r id p.0), one_of kind.action _ _ p.1),
  λ h. rw (!=_of_eq r id (cc (h.0)), neither kind.action _ _ h.1),
)

-- A submission counts as accepted exactly when the reply echoes the request id and its action is
-- waiting-seller-to-pay or hold-invoice-payment-accepted; every other reply throws.
pub add_invoice_response_iff :
    (kind : MessageKind) (id : ℤ)
    → (handle_add_invoice_response kind id ≡ ok tt) ↔ Acknowledges kind id
add_invoice_response_iff kind id = acknowledged kind kind.request_id id
