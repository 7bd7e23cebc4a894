-- ===== src/Lnurl/Resolved.antt =====
-- What a resolved Lightning address guarantees (src/protocol/lnurlpay.ts, net.ts).
use mostro_ts_client.Common.{
  ℕ, String, Bool, true, false, not, ◌&&◌, ◌≡◌, refl, ◌⊎◌, inl, inr, Option, none, some, ◌==◌, ◌!=◌,
  string_eq, ok, Result, bind_of_ok, ok_injective, Bool-cases, eq_of_!=, sym, ==_of_eq, passed,
  passed_last, ap, ◌∙◌,
}
use mostro_ts_client.Common.Int.{ℤ, pos, int_eq}
use mostro_ts_client.Fault.{Fault}
use mostro_ts_client.Wire.{
  Value, null, boolean, number, string, array, object, undefined, Fields, get, fields_of,
}
use mostro_ts_client.Invoice.Bolt11.{bolt11_amount_msat}
use mostro_ts_client.Net.{UrlPolicy, Url, is_private_host, parsed, assert_safe_fetch_url}
use mostro_ts_client.Lnurl.{
  LnurlpMetadata, below, above, check_limits, encoded, check_amount, asked, lnurlp_metadata_url,
  metadata_url, fetch_lnurlp_metadata, invoice_in, request_invoice, resolve_lightning_address,
}

-- a URL that may be fetched
pub record Safe (policy : UrlPolicy) (url : Url) : Type 0 where
  pub scheme :
      (url.protocol ≡ "https:")
      ⊎ ((url.protocol ≡ "http:")
          × ((policy.allow_http ≡ true) ⊎ (is_private_host url.hostname ≡ true)))
  pub public : (policy.allow_private ≡ true) ⊎ (is_private_host url.hostname ≡ false)

one_scheme : (p : String) → (p != "http:" && p != "https:") ≡ false → (p ≡ "http:") ⊎ (p ≡ "https:")
one_scheme p h = elim (Bool-cases (p != "http:")) [
  | inr e ↦ inl (eq_of_!= p "http:" e)
  | inl e ↦ let h' = rw e at h in inr (eq_of_!= p "https:" h')
]

permitted : (a b : Bool) → (not a && not b) ≡ false → (a ≡ true) ⊎ (b ≡ true)
permitted true b h = inl refl
permitted false true h = inr refl
permitted false false h = cc

not_both : (a b : Bool) → (not a && b) ≡ false → (a ≡ true) ⊎ (b ≡ false)
not_both true b h = inl refl
not_both false true h = cc
not_both false false h = inr refl

http_permitted :
    (p : String) (a b : Bool)
    → (p == "http:" && not a && not b) ≡ false
    → p ≡ "http:"
    → (a ≡ true) ⊎ (b ≡ true)
http_permitted p a b h e = let h' = rw (==_of_eq p "http:" e) at h in permitted a b h'

some_of_parsed : (o : Option Url) (url : Url) → parsed o ≡ ok url → o ≡ some url
some_of_parsed none url h = cc
some_of_parsed (some u) url h = ap some (ok_injective u url h)

asserted :
    (parse : String → Option Url) (raw : String) (policy : UrlPolicy) (url : Url)
    → assert_safe_fetch_url parse raw policy ≡ ok url
    → (parse raw ≡ some url) × Safe policy url
unfolding assert_safe_fetch_url
asserted parse raw policy url h =
    let (u, p, h1) = bind_of_ok (parsed (parse raw)) _ url h in
    let (http, h2) = passed _ _ _ url h1 in
    let (scheme, h3) = passed _ _ _ url h2 in
    let (private, h4) = passed _ _ _ url h3 in
    let e : u ≡ url = ok_injective u url h4 in
    let safe : Safe policy u = record {
      scheme = elim (one_scheme u.protocol scheme) [
        | inl e ↦ inr (e, http_permitted u.protocol _ _ http e)
        | inr e ↦ inl e
      ];
      public = not_both _ _ private;
    } in
    (some_of_parsed (parse raw) url (p ∙ ap ok e), rw (sym e) safe)

-- an amount within the limits of a service
abbrev pub Within : LnurlpMetadata → ℤ → Type 0
Within meta amount =
    (below amount meta.min_sendable ≡ false) × (above amount meta.max_sendable ≡ false)

limits_sound :
    (meta : LnurlpMetadata) (amount : ℤ)
    → check_limits meta (some amount) ≡ ok tt
    → Within meta amount
limits_sound meta amount h = let (low, h1) = passed _ _ _ tt h in (low, passed_last _ _ h1)

encoded_sound :
    (o : Option ℕ) (amount : ℤ)
    → encoded o amount ≡ ok tt
    → (n : ℕ) × (o ≡ some n) × (pos n ≡ amount)
encoded_sound none amount h = cc
encoded_sound (some n) amount h = (n, refl, eq_of_!= (pos n) amount (passed_last _ _ h))

invoice_sound : (v : Value) (pr : String) → invoice_in v ≡ ok pr → v ≡ string pr
invoice_sound null pr h = cc
invoice_sound (boolean b) pr h = cc
invoice_sound (number n) pr h = cc
invoice_sound (array vs) pr h = cc
invoice_sound (object o) pr h = cc
invoice_sound undefined pr h = cc
invoice_sound (string s) pr h = elim (Bool-cases (s == "")) [
  | inl e ↦ let h' = rw e at h in cc
  | inr e ↦ let h' = rw e at h in ap string (ok_injective s pr h')
]

module _ (parse : String → Option Url) (decode : String → Result Fault String)
    (fetch : String → Result Fault Value) (with_amount : Url → ℤ → String)
    (policy : UrlPolicy) where
  amount_sound :
      (callback : Url) (amount : ℤ) (pr : String)
      → request_invoice parse decode fetch with_amount policy callback (some amount) ≡ ok pr
      → ((n : ℕ) × (bolt11_amount_msat pr ≡ some n) × (pos n ≡ amount))
        × ((json : Value) × (o : Fields) × (fetch (with_amount callback amount) ≡ ok json)
            × (fields_of json ≡ ok o)
            × (get "pr" o ≡ string pr))
  amount_sound callback amount pr h =
      let (json, e, h1) = bind_of_ok (fetch (asked with_amount callback (some amount))) _ pr h in
      let (o, e2, h2) = bind_of_ok (fields_of json) _ pr h1 in
      let (pr', e3, h3) = bind_of_ok (invoice_in (get "pr" o)) _ pr h2 in
      let (u, e4, h4) = bind_of_ok (check_amount pr' (some amount)) _ pr h3 in
      let (n, k, l) = encoded_sound (bolt11_amount_msat pr') amount e4 in
      let answer : get "pr" o ≡ string pr' = invoice_sound (get "pr" o) pr' e3 in
      rw (sym (ok_injective pr' pr h4)) ((n, k, l), (json, o, e, e2, answer))

  -- An invoice that an address is resolved to for an amount encodes exactly that amount, and it is the
  -- `pr` of what the service's callback answers for it. The metadata were fetched from the address's own
  -- URL, and the callback is the URL that they name. The amount is within the limits of the service, and
  -- the two URLs have the same host, use https unless the policy or a private host allows http, and are
  -- not private unless the policy allows it.
  pub resolve_lightning_address_sound :
      (input pr : String) (amount : ℤ)
      → resolve_lightning_address parse decode fetch with_amount policy input (some amount) ≡ ok pr
      → ((n : ℕ) × (bolt11_amount_msat pr ≡ some n) × (pos n ≡ amount))
        × ((raw : String) × (meta : LnurlpMetadata) × (meta_url : Url) × (callback : Url)
            × (lnurlp_metadata_url decode input ≡ ok raw)
            × (parse raw ≡ some meta_url)
            × (fetch_lnurlp_metadata parse decode fetch with_amount policy input ≡ ok meta)
            × (parse meta.callback ≡ some callback)
            × ((json : Value) × (o : Fields) × (fetch (with_amount callback amount) ≡ ok json)
                × (fields_of json ≡ ok o)
                × (get "pr" o ≡ string pr))
            × Within meta amount
            × (callback.hostname ≡ meta_url.hostname)
            × Safe policy meta_url
            × Safe policy callback)
  unfolding resolve_lightning_address
  resolve_lightning_address_sound input pr amount h =
      let (meta_url, e1, h1) =
        bind_of_ok (metadata_url parse decode fetch with_amount policy input) _ pr h in
      let (raw, r, s) =
        bind_of_ok (lnurlp_metadata_url decode input) (λ x. assert_safe_fetch_url parse x policy)
          meta_url e1 in
      let (meta, e2, h2) = bind_of_ok _ _ pr h1 in
      let (u, e3, h3) = bind_of_ok (check_limits meta (some amount)) _ pr h2 in
      let (callback, e4, h4) = bind_of_ok _ _ pr h3 in
      let (same, h5) = passed _ _ _ pr h4 in
      let (amounted, answered) = amount_sound callback amount pr h5 in
      (
        amounted,
        (
          raw,
          meta,
          meta_url,
          callback,
          r,
          (asserted parse raw policy meta_url s).0,
          e2,
          (asserted parse meta.callback policy callback e4).0,
          answered,
          limits_sound meta amount e3,
          eq_of_!= _ _ same,
          (asserted parse raw policy meta_url s).1,
          (asserted parse meta.callback policy callback e4).1,
        ),
      )
