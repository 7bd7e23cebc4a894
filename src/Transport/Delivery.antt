-- ===== src/Transport/Delivery.antt =====
-- A wrapped message and its receiver (src/protocol/transport.ts).
use mostro_ts_client.Common.{
  String, Bool, true, false, ◌≡◌, refl, sym, ap, Option, none, some, if◌then◌else◌, ◌!=◌, string_eq,
  nat_eq, String-discrete, ℕ_discrete, ok, !=_of_eq, !=_of_ne,
}
use mostro_ts_client.Common.Int.{pos}
use mostro_ts_client.Message.{Message}
use mostro_ts_client.Wire.{Value, null}
use mostro_ts_client.Wire.Write.{message_to_json}
use mostro_ts_client.Wire.Typed.{decoded_message}
use mostro_ts_client.Wire.Fits.{FitsMessage}
use mostro_ts_client.Wire.Json.{IsJson, message-IsJson}
use mostro_ts_client.Wire.RoundTrip.{message_read_back}
use mostro_ts_client.Transport.{
  Crypto, DirectEvent, sign_message, verify_message_signature, tuple_of, trade_signature,
  proof_of_identity, wrap_message_nip44, checked_signature, checked_identity, open_tuple,
  open_plaintext, unwrap_message_nip44,
}

-- what the code relies on: JSON texts are read back, the conversation key is the same on both sides and
-- opens what it encrypted, and a signature verifies with the key of its signer
pub record IsCrypto {Text Key Cipher : Type 0} (c : Crypto Text Key Cipher) : Type 0 where
  pub parse-stringify : (v : Value) → IsJson v → c.parse (c.stringify v) ≡ ok v
  pub decrypt-encrypt :
      (t : Text) (a b : String)
      → c.decrypt
          (c.encrypt t (c.conversation_key a (c.pubkey_from_secret b)))
          (c.conversation_key b (c.pubkey_from_secret a))
        ≡ some t
  pub verify-sign :
      (d secret : String) → c.verify (c.sign d secret) d (c.pubkey_from_secret secret) ≡ true

module _ {Text Key Cipher : Type 0} (crypto : Crypto Text Key Cipher) (laws : IsCrypto crypto) where
  open crypto use {stringify, pubkey_from_secret}

  -- the signature that the receiver reports
  abbrev pub reported : Bool → Text → String → Option String
  reported signed json secret = if signed then some (sign_message crypto json secret) else none

  signature_accepted :
      (signed required : Bool) (json : Text) (secret : String)
      → (required ≡ true → signed ≡ true)
      → checked_signature crypto required json
          (pubkey_from_secret secret)
          (trade_signature crypto signed json secret)
        ≡ ok (reported signed json secret)
  unfolding checked_signature sign_message verify_message_signature
  signature_accepted true required json secret h = rw (laws.verify-sign (crypto.digest json) secret)
  signature_accepted false true json secret h = cc (h refl)
  signature_accepted false false json secret h = refl

  identity_accepted :
      (identity_secret trade_secret : String) (json : Text)
      → checked_identity crypto json
          (pubkey_from_secret trade_secret)
          (proof_of_identity crypto identity_secret trade_secret json)
        ≡ ok (pubkey_from_secret identity_secret)
  unfolding checked_identity sign_message verify_message_signature
  identity_accepted identity_secret trade_secret json =
      elim (String-discrete (pubkey_from_secret identity_secret)
        (pubkey_from_secret trade_secret)) [
          | yes e ↦ rw (!=_of_eq _ _ e) (ap ok (sym e))
          | no n ↦ rw (!=_of_ne _ _ n, laws.verify-sign _ identity_secret)
        ]

  signature-IsJson :
      (signed : Bool) (json : Text) (secret : String)
      → IsJson (trade_signature crypto signed json secret)
  unfolding IsJson
  signature-IsJson true json secret = tt
  signature-IsJson false json secret = tt

  if-IsJson : (b : Bool) (v w : Value) → IsJson v → IsJson w → IsJson (if b then v else w)
  if-IsJson true v w h k = h
  if-IsJson false v w h k = k

  tuple-IsJson :
      (m : Message) (signed : Bool) (json : Text) (identity_secret trade_secret : String)
      → IsJson (
          tuple_of crypto m
            (trade_signature crypto signed json trade_secret)
            (proof_of_identity crypto identity_secret trade_secret json))
  unfolding IsJson
  tuple-IsJson m signed json identity_secret trade_secret = (
    message-IsJson m,
    (
      signature-IsJson signed json trade_secret,
      (
        if-IsJson (pubkey_from_secret identity_secret != pubkey_from_secret trade_secret) _ null
            (tt, (tt, tt)) tt,
        tt,
      ),
    ),
  )

  -- A message that the readers accept, wrapped for a receiver and signed or not, is opened by that
  -- receiver with the same message, with the trade key as the sender, with the key of the identity
  -- secret as the identity (which is the trade key itself in full privacy) and with the trade
  -- signature where one was made, also when the receiver requires it.
  pub unwrap-wrap :
      (m : Message) (identity_secret trade_secret receiver_secret : String) (signed required : Bool)
      → FitsMessage m
      → (required ≡ true → signed ≡ true)
      → let wrapped =
          wrap_message_nip44 crypto m identity_secret trade_secret
            (pubkey_from_secret receiver_secret)
            signed in
        let sender = pubkey_from_secret trade_secret in
        let event : DirectEvent Cipher = record {
          kind = 14;
          pubkey = sender;
          content = wrapped.content;
        } in
        unwrap_message_nip44 crypto event receiver_secret required
        ≡ ok (
            some (record {
              message = decoded_message m;
              signature = reported signed wrapped.message_json trade_secret;
              sender = sender;
              identity = pubkey_from_secret identity_secret;
              created_at = pos 0;
            }))
  unfolding unwrap_message_nip44 wrap_message_nip44 open_plaintext open_tuple ℕ_discrete
  unwrap-wrap m identity_secret trade_secret receiver_secret signed required fits h =
      let json = stringify (message_to_json m) in
      rw (
        laws.decrypt-encrypt
            (stringify (
              tuple_of crypto m (trade_signature crypto signed json trade_secret)
                (proof_of_identity crypto identity_secret trade_secret json)))
            trade_secret receiver_secret,
        laws.parse-stringify _ (tuple-IsJson m signed json identity_secret trade_secret),
        signature_accepted signed required json trade_secret h,
        identity_accepted identity_secret trade_secret json,
        message_read_back m fits,
      )
