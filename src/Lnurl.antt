-- ===== src/Lnurl.antt =====
-- src/protocol/lnurlpay.ts: a Lightning address resolved to an invoice. `parse` is the platform's URL
-- parser, `decode` the bech32 decoder, `fetch` a request with the JSON value of an answer that is
-- ok, and `with_amount` sets the search parameter of a callback.
pub mod Resolved
use mostro_ts_client.Common.{
  ℕ, String, Bool, true, false, ◌&&◌, ◌||◌, not, ◌≡◌, refl, Option, none, some, if◌then◌else◌, ◌==◌,
  ◌!=◌, string_eq, Result, ok, err, ◌>>=◌, ◌>>◌, throw_if,
}
use mathlib.Core.Option
use mostro_ts_client.Common.Text.{trim, to_lower, starts_with, append}
use mostro_ts_client.Common.Int.{ℤ, pos, ltb_ℤ, leb_ℤ, int_eq}
use mostro_ts_client.Wire.{
  Number, integer, fraction, infinite, Value, string, number, get, fields_of,
}
use mostro_ts_client.Invoice.Bolt11.{bolt11_amount_msat}
use mostro_ts_client.Net.{UrlPolicy, Url, assert_safe_fetch_url}
use mostro_ts_client.Fault.{
  Fault, not_lightning_address, not_lnurl_service, below_minimum, above_maximum, foreign_callback,
  no_invoice, amountless_invoice, wrong_invoice_amount,
}

-- the text before the last `@` and the text after it
abbrev before_at :
    String → Option (String × String) → Option (String × String) → Option (String × String)
before_at c none here = here
before_at c (some (user, domain)) here = some (append c user, domain)

split_at : String → Option (String × String)
split_at String.[] = none
split_at (String.◌∷◌ c s) =
    let first = String.◌∷◌ c String.[] in
    before_at first (split_at s) (if first == "@" then some ("", s) else none)

abbrev address_url : Option (String × String) → Result Fault String
address_url none = err not_lightning_address
address_url (some (user, domain)) =
    if user == ""
    then err not_lightning_address
    else ok (append "https://" (append domain (append "/.well-known/lnurlp/" user)))

unfoldable pub lnurlp_metadata_url :
    (decode : String → Result Fault String) → String → Result Fault String
unfolding split_at append
lnurlp_metadata_url decode input =
    let trimmed = trim input in
    let lower = to_lower trimmed in
    if starts_with lower "lnurl1"
    then decode trimmed
    else if starts_with lower "http://" || starts_with lower "https://"
    then ok trimmed
    else address_url (split_at trimmed)

pub record LnurlpMetadata : Type 0 where
  pub callback : String
  pub min_sendable : Option Number
  pub max_sendable : Option Number
  pub metadata : Option String

abbrev number_in : Value → Option Number
number_in (number n) = some n
number_in _ = none

abbrev text_in : Value → Option String
text_in (string s) = some s
text_in _ = none

-- `json.tag === "payRequest" && typeof json.callback === "string"`
abbrev callback_in : Value → Value → Result Fault String
callback_in (string tag) (string callback) =
    if tag == "payRequest" then ok callback else err not_lnurl_service
callback_in _ _ = err not_lnurl_service

-- an amount against a limit; an infinite one is positive
abbrev pub below : ℤ → Option Number → Bool
below amount none = false
below amount (some (integer n)) = ltb_ℤ amount n
below amount (some (fraction n)) = leb_ℤ amount n
below amount (some infinite) = true

abbrev pub above : ℤ → Option Number → Bool
above amount none = false
above amount (some (integer n)) = ltb_ℤ n amount
above amount (some (fraction n)) = ltb_ℤ n amount
above amount (some infinite) = false

-- `typeof json.pr === "string" && json.pr.length > 0`
abbrev pub invoice_in : Value → Result Fault String
invoice_in (string pr) = if pr == "" then err no_invoice else ok pr
invoice_in _ = err no_invoice

abbrev pub check_limits : LnurlpMetadata → Option ℤ → Result Fault (Unit {0})
check_limits meta none = ok tt
check_limits meta (some amount) = do
  throw_if (below amount meta.min_sendable) below_minimum
  throw_if (above amount meta.max_sendable) above_maximum

-- the invoice must have the amount that was asked for
abbrev pub encoded : Option ℕ → ℤ → Result Fault (Unit {0})
encoded none amount = err amountless_invoice
encoded (some actual) amount = throw_if (pos actual != amount) wrong_invoice_amount

abbrev pub check_amount : String → Option ℤ → Result Fault (Unit {0})
check_amount pr none = ok tt
check_amount pr (some amount) = encoded (bolt11_amount_msat pr) amount

abbrev pub asked : (Url → ℤ → String) → Url → Option ℤ → String
asked with_amount callback none = callback.href
asked with_amount callback (some amount) = with_amount callback amount

module _ (parse : String → Option Url) (decode : String → Result Fault String)
    (fetch : String → Result Fault Value) (with_amount : Url → ℤ → String)
    (policy : UrlPolicy) where
  abbrev pub metadata_url : String → Result Fault Url
  metadata_url input = do
    raw ← lnurlp_metadata_url decode input
    assert_safe_fetch_url parse raw policy

  unfoldable pub fetch_lnurlp_metadata : String → Result Fault LnurlpMetadata
  fetch_lnurlp_metadata input = do
    url ← metadata_url input
    json ← fetch url.href
    o ← fields_of json
    callback ← callback_in (get "tag" o) (get "callback" o)
    ok (record {
      callback = callback;
      min_sendable = number_in (get "minSendable" o);
      max_sendable = number_in (get "maxSendable" o);
      metadata = text_in (get "metadata" o);
    })

  unfoldable pub lightning_address_reachable : String → Bool
  lightning_address_reachable input = elim (fetch_lnurlp_metadata input) [
    | ok meta ↦ true
    | err f ↦ false
  ]

  -- the answer of a callback
  abbrev pub request_invoice : Url → Option ℤ → Result Fault String
  request_invoice callback amount = do
    json ← fetch (asked with_amount callback amount)
    o ← fields_of json
    pr ← invoice_in (get "pr" o)
    check_amount pr amount
    ok pr

  unfoldable pub resolve_lightning_address : String → Option ℤ → Result Fault String
  resolve_lightning_address input amount = do
    meta_url ← metadata_url input
    meta ← fetch_lnurlp_metadata input
    check_limits meta amount
    callback ← assert_safe_fetch_url parse meta.callback policy
    throw_if (callback.hostname != meta_url.hostname) foreign_callback
    request_invoice callback amount
