-- ===== src/Tests/Invoices.antt =====
-- Examples for invoices and admin decisions.
use mostro_ts_client.Common.{
  ℕ, String, ◌≡◌, ◌⊎◌, Option, none, some, ok, err, or_default, ltb, ◌+◌, true, false,
}
use mostro_ts_client.Common.Int.{pos}
use mostro_ts_client.Common.Text.{trim}
use mostro_ts_client.Action.{Action}
use mostro_ts_client.Message.{Payload, new_dispute_message}
use mostro_ts_client.Fault.{invalid_invoice}
use mostro_ts_client.Verify.{verify_message_kind, get_payment_request}
use mostro_ts_client.Invoice.{add_invoice, build_invoice_message}
use mostro_ts_client.Invoice.Bolt11.{bolt11_timestamp}
use mostro_ts_client.Invoice.Expiry.{bolt11_expiry_seconds, invoice_expired, invoice_expired_total}
use mostro_ts_client.Invoice.Submit.{Accepted, submitted, build_invoice_total}
use mostro_ts_client.Admin.{BondSlash, build_admin_settle_message, build_admin_cancel_message}
use mostro_ts_client.Admin.Builders.{Decides, admin_decisions_total}

abbrev invoice : String
invoice = "lnbc20m1pvjluezpp5qqqsyq"

invoice_expired_total_example :
    (r : Option ℕ) × (bolt11_expiry_seconds invoice ≡ some r)
    × (bolt11_timestamp invoice ≡ none → invoice_expired invoice 1700000000 ≡ some none)
    × ((ts : ℕ)
        → bolt11_timestamp invoice ≡ some ts
        → invoice_expired invoice 1700000000
          ≡ some (some (ltb (ts + or_default r 3600) 1700000000)))
invoice_expired_total_example = invoice_expired_total invoice 1700000000

build_invoice_total_example :
    let t = trim invoice in
    (Accepted t
      × (build_invoice_message "o1" (pos 7) add_invoice invoice
          ≡ ok (submitted "o1" (pos 7) add_invoice t))
      × (verify_message_kind (submitted "o1" (pos 7) add_invoice t).value ≡ true)
      × (get_payment_request (submitted "o1" (pos 7) add_invoice t).value ≡ some t))
    ⊎ ((Accepted t → ⊥)
        × (build_invoice_message "o1" (pos 7) add_invoice invoice ≡ err invalid_invoice))
build_invoice_total_example = build_invoice_total "o1" (pos 7) add_invoice invoice

abbrev seller_slashed : BondSlash
seller_slashed = record { slash_seller = true; slash_buyer = false }

admin_decisions_total_example :
    (payload : Option Payload) × (build_admin_settle_message "o1" (pos 7) (some seller_slashed)
      ≡ ok (new_dispute_message (some "o1") (some (pos 7)) none Action.admin_settle payload))
    × (build_admin_cancel_message "o1" (pos 7) (some seller_slashed)
        ≡ ok (new_dispute_message (some "o1") (some (pos 7)) none Action.admin_cancel payload))
    × Decides (some seller_slashed) payload
admin_decisions_total_example = admin_decisions_total "o1" (pos 7) (some seller_slashed)
