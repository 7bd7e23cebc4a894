-- ===== src/Tests/Payments.antt =====
-- Examples for Lightning addresses.
use mostro_ts_client.Common.{
  ℕ, String, false, ◌≡◌, refl, Option, some, if◌then◌else◌, ◌==◌, string_eq, Result, ok, err,
  String-discrete,
}
use mostro_ts_client.Common.Int.{ℤ, pos, ℤ-discrete}
use mostro_ts_client.Common.Text.{append, starts_with, to_lower, trim}
use mostro_ts_client.Fault.{Fault, not_lightning_address}
use mostro_ts_client.Wire.{
  Value, string, number, integer, object, field, end, get, Fields, fields_of,
}
use mostro_ts_client.Invoice.Bolt11.{bolt11_amount_msat, bolt11_hrp}
use mostro_ts_client.Net.{UrlPolicy, Url, assert_safe_fetch_url, is_private_host}
use mostro_ts_client.Lnurl.{
  LnurlpMetadata, lnurlp_metadata_url, fetch_lnurlp_metadata, resolve_lightning_address,
}
use mostro_ts_client.Lnurl.Resolved.{Safe, Within, resolve_lightning_address_sound}

abbrev metadata_at : String
metadata_at = "https://pay.example/.well-known/lnurlp/ana"

-- two URLs of one host
abbrev parse : String → Option Url
parse raw = some (record { protocol = "https:"; hostname = "pay.example"; href = raw })

abbrev decode : String → Result Fault String
decode text = err not_lightning_address

abbrev fetch : String → Result Fault Value
fetch url =
    if url == metadata_at
    then ok (
        object (
          field "tag" (string "payRequest") (
            field "callback" (string "https://pay.example/cb")
              (field "minSendable" (number (integer (pos 1000))) end))))
    else ok (object (field "pr" (string "lnbc20u1pv") end))

abbrev with_amount : Url → ℤ → String
with_amount url amount = append url.href "?amount=2000000"

abbrev strict : UrlPolicy
strict = record { allow_http = false; allow_private = false }

resolve_lightning_address_sound_example :
    ((n : ℕ) × (bolt11_amount_msat "lnbc20u1pv" ≡ some n) × (pos n ≡ pos 2000000))
    × ((raw : String) × (meta : LnurlpMetadata) × (meta_url : Url) × (callback : Url)
        × (lnurlp_metadata_url decode "ana@pay.example" ≡ ok raw)
        × (parse raw ≡ some meta_url)
        × (fetch_lnurlp_metadata parse decode fetch with_amount strict "ana@pay.example" ≡ ok meta)
        × (parse meta.callback ≡ some callback)
        × ((json : Value) × (o : Fields) × (fetch (with_amount callback (pos 2000000)) ≡ ok json)
            × (fields_of json ≡ ok o)
            × (get "pr" o ≡ string "lnbc20u1pv"))
        × Within meta (pos 2000000)
        × (callback.hostname ≡ meta_url.hostname)
        × Safe strict meta_url
        × Safe strict callback)
unfolding resolve_lightning_address fetch_lnurlp_metadata bolt11_amount_msat String-discrete append
    lnurlp_metadata_url starts_with to_lower trim assert_safe_fetch_url is_private_host get
    bolt11_hrp ℤ-discrete
resolve_lightning_address_sound_example =
    resolve_lightning_address_sound parse decode fetch with_amount strict "ana@pay.example"
      "lnbc20u1pv" (pos 2000000) refl
