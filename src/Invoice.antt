-- ===== src/Invoice.antt =====
-- src/protocol/invoice.ts: telling invoices apart, what a bolt11 invoice says of itself, and the
-- messages that carry an invoice. Bolt11 has the readers of a bolt11 invoice.
pub mod Bolt11
pub mod Expiry
pub mod Amount
pub mod Submit
use mostro_ts_client.Common.{
  ℕ, ◌+◌, ◌≡◌, refl, String, Bool, true, false, not, ◌&&◌, ◌||◌, Option, none, some, List, [], ◌∷◌,
  if◌then◌else◌, ◌==◌, ◌!=◌, leb, ltb, nat_eq, ℕ_discrete, Result, ok, err,
}
use mostro_ts_client.Common.Text.{trim, starts_with, utf16, is_space}
use mostro_ts_client.Common.Lists.{length}
use mostro_ts_client.Common.Int.{ℤ, int_eq}
use mostro_ts_client.Action.{Action, action_eq}
use mostro_ts_client.Message.{Payload, MessageKind, Message, new_order_message}
use mostro_ts_client.Fault.{
  Fault, null_request_id, mismatched_request_id, unexpected_action, invalid_invoice,
}
use mostro_ts_client.Flow.{verified}

pub data InvoiceKind : Type 0 where
  bolt11 lnurl ln_address : InvoiceKind

-- `[^@\s]`, on a code unit
abbrev is_plain : ℕ → Bool
is_plain c = not (c == 64 || is_space c)

-- `[^@\s]+$`
abbrev all_plain : List ℕ → Bool
all_plain [] = false
all_plain (d ∷ []) = is_plain d
all_plain (d ∷ t) = is_plain d && all_plain t

-- `[^@\s]*\.[^@\s]+$` after at least one unit of the domain: some dot is followed by a unit
unfoldable dot_follows : List ℕ → Bool
unfolding ℕ_discrete
dot_follows [] = false
dot_follows (c ∷ s) = is_plain c && (dot_follows s || (c == 46 && all_plain s))

-- `[^@\s]+\.[^@\s]+$`
unfoldable is_domain : List ℕ → Bool
unfolding dot_follows ℕ_discrete
is_domain [] = false
is_domain (c ∷ s) = is_plain c && dot_follows s

-- `[^@\s]*@` and the domain
unfoldable after_local : List ℕ → Bool
unfolding is_domain ℕ_discrete
after_local [] = false
after_local (c ∷ s) = if c == 64 then is_domain s else is_plain c && after_local s

-- `/^[^@\s]+@[^@\s]+\.[^@\s]+$/`
unfoldable pub is_address : List ℕ → Bool
unfolding after_local ℕ_discrete
is_address [] = false
is_address (c ∷ s) = is_plain c && after_local s

unfoldable pub classify_invoice : String → Option InvoiceKind
unfolding trim starts_with utf16 is_address
classify_invoice input =
    let trimmed = trim input in
    if starts_with trimmed "lnbc" || starts_with trimmed "lnbcrt" || starts_with trimmed "lntb"
    then some bolt11
    else if starts_with trimmed "lnurl1"
    then some lnurl
    else if is_address (utf16 trimmed)
    then some ln_address
    else none

-- `[0-9a-z]` with the flag `i`, on a code unit
abbrev is_alphanumeric : ℕ → Bool
is_alphanumeric c = (leb 48 c && leb c 57) || (leb 97 c && leb c 122) || (leb 65 c && leb c 90)

abbrev all_alphanumeric : List ℕ → Bool
all_alphanumeric [] = true
all_alphanumeric (c ∷ s) = is_alphanumeric c && all_alphanumeric s

-- a letter of ASCII in either case
abbrev is_letter : ℕ → ℕ → Bool
is_letter lower c = c == lower || c + 32 == lower

-- `/^ln(bc|tb|bcrt|sb)[0-9a-z]+$/i`: what follows bc is alphanumeric, so bcrt adds nothing
has_bolt11_shape : List ℕ → Bool
has_bolt11_shape (l ∷ n ∷ c ∷ d ∷ e ∷ s) =
    is_letter 108 l
    && is_letter 110 n
    && ((is_letter 98 c && is_letter 99 d)
        || (is_letter 116 c && is_letter 98 d)
        || (is_letter 115 c && is_letter 98 d))
    && all_alphanumeric (e ∷ s)
has_bolt11_shape _ = false

unfoldable pub is_probably_valid_bolt11 : String → Bool
unfolding trim utf16 has_bolt11_shape ℕ_discrete
is_probably_valid_bolt11 payment_request =
    let trimmed = utf16 (trim payment_request) in
    has_bolt11_shape trimmed && ltb 20 (length trimmed)

-- the kind of a trimmed invoice decides, and a bolt11 invoice must have the shape
payload_of_kind : Option InvoiceKind → String → Option Payload
payload_of_kind none trimmed = none
payload_of_kind (some bolt11) trimmed =
    if not (is_probably_valid_bolt11 trimmed)
    then none
    else some (Payload.payment_request none trimmed none)
payload_of_kind (some _) trimmed = some (Payload.payment_request none trimmed none)

unfoldable pub invoice_payload : String → Option Payload
unfolding payload_of_kind trim
invoice_payload invoice =
    let trimmed = trim invoice in payload_of_kind (classify_invoice trimmed) trimmed

-- the action is one of the two that submit an invoice
pub data Submission : Type 0 where
  add_invoice add_bond_invoice : Submission

abbrev pub submission_action : Submission → Action
submission_action add_invoice = Action.add_invoice
submission_action add_bond_invoice = Action.add_bond_invoice

unfoldable pub build_invoice_message : String → ℤ → Submission → String → Result Fault Message
build_invoice_message order_id request_id submission invoice = submit (invoice_payload invoice)
  where
    submit : Option Payload → Result Fault Message
    submit none = err invalid_invoice
    submit (some payload) = verified (submission_action submission) (
        new_order_message (some order_id) (some request_id) none (submission_action submission)
          (some payload))

accepted_reply : Action → ℤ → ℤ → Result Fault (Unit {0})
accepted_reply action expected_id request_id =
    if request_id != expected_id
    then err mismatched_request_id
    else if action != Action.waiting_seller_to_pay && action != Action.hold_invoice_payment_accepted
    then err (unexpected_action action)
    else ok tt

-- "accepted" is the only result, so it is the unit here
unfoldable pub handle_add_invoice_response : MessageKind → ℤ → Result Fault (Unit {0})
unfolding accepted_reply
handle_add_invoice_response kind expected_id = reply kind.request_id
  where
    reply : Option ℤ → Result Fault (Unit {0})
    reply none = err null_request_id
    reply (some request_id) = accepted_reply kind.action expected_id request_id

pub data BondReply : Type 0 where
  ack hold_invoice open_invoice : BondReply

unfoldable pub bond_reply : Action → BondReply
bond_reply Action.pay_invoice = hold_invoice
bond_reply Action.pay_bond_invoice = hold_invoice
bond_reply Action.waiting_buyer_invoice = open_invoice
bond_reply Action.add_invoice = open_invoice
bond_reply Action.waiting_seller_to_pay = open_invoice
bond_reply Action.hold_invoice_payment_accepted = open_invoice
bond_reply Action.buyer_invoice_accepted = open_invoice
bond_reply _ = ack

-- a reply with no request id is not compared with the one expected
unfoldable pub handle_add_bond_invoice_response : MessageKind → ℤ → Result Fault BondReply
unfolding bond_reply
handle_add_bond_invoice_response kind expected_id = reply kind.request_id
  where
    reply : Option ℤ → Result Fault BondReply
    reply none = ok (bond_reply kind.action)
    reply (some request_id) =
        if request_id != expected_id then err mismatched_request_id else ok (bond_reply kind.action)

address_tests :
    (is_address (utf16 "bob@ln.example")
      && not (is_address (utf16 "bob@example"))
      && not (is_address (utf16 "b@o@ln.x"))
      && not (is_address (utf16 "bob@.x"))
      && not (is_address (utf16 "bob@ln."))
      && is_address (utf16 "a@b..c"))
    ≡ true
unfolding is_address utf16
address_tests = refl
