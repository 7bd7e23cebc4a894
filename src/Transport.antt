-- ===== src/Transport.antt =====
-- src/protocol/transport.ts and proof.ts: wrapping a message into an encrypted direct message, and
-- opening one. The ciphers, the signatures and the JSON texts are a `Crypto`: Text stands for the
-- texts that JSON.stringify returns, Key for the conversation keys of NIP-44 and Cipher for its
-- payloads.
pub mod Delivery
pub mod Proofs
use mostro_ts_client.Common.{
  ℕ, String, Bool, true, false, not, ◌&&◌, Option, none, some, if◌then◌else◌, ◌==◌, ◌!=◌, string_eq,
  nat_eq, Result, ok, err, ◌>>=◌, ◌>>◌, throw_if,
}
use mostro_ts_client.Common.Text.{append}
use mostro_ts_client.Common.Int.{ℤ, pos}
use mostro_ts_client.Message.{Message}
use mostro_ts_client.Fault.{
  Fault, not_direct_message, malformed_tuple, missing_signature, bad_trade_signature,
  bad_identity_signature,
}
use mostro_ts_client.Wire.{Value, undefined, null, string, array, Items, nil, cons}
use mostro_ts_client.Wire.Write.{message_to_json}
use mostro_ts_client.Wire.Read.{message_from_json}
use mostro_ts_client.Wire.Decoded.{DecodedMessage}
use mostro_ts_client.DmRouter.{Transport, gift_wrap, nip44_direct}

unfoldable pub transport_from_string : String → Option Transport
transport_from_string s =
    if s == "gift-wrap" then some gift_wrap else if s == "nip44" then some nip44_direct else none

unfoldable pub transport_to_string : Transport → String
transport_to_string gift_wrap = "gift-wrap"
transport_to_string nip44_direct = "nip44"

unfoldable pub transport_protocol_version : Transport → ℕ
transport_protocol_version gift_wrap = 1
transport_protocol_version nip44_direct = 2

-- `concat` puts a text before a JSON text, `digest` is SHA-256, `verify` is false where the library
-- throws, and `encrypt` includes the nonce that is drawn
pub record Crypto (Text Key Cipher : Type 0) : Type 0 where
  pub stringify : Value → Text
  pub parse : Text → Result Fault Value
  pub concat : String → Text → Text
  pub digest : Text → String
  pub sign : String → String → String
  pub verify : String → String → String → Bool
  pub pubkey_from_secret : String → String
  pub conversation_key : String → String → Key
  pub encrypt : Text → Key → Cipher
  pub decrypt : Cipher → Key → Option Text

pub record WrapResult (Text Cipher : Type 0) : Type 0 where
  pub content : Cipher
  pub message_json : Text

pub record DirectEvent (Cipher : Type 0) : Type 0 where
  pub kind : ℕ
  pub pubkey : String
  pub content : Cipher

pub record UnwrappedMessage : Type 0 where
  pub message : DecodedMessage
  pub signature : Option String
  pub sender : String
  pub identity : String
  pub created_at : ℤ

module _ {Text Key Cipher : Type 0} (crypto : Crypto Text Key Cipher) where
  open crypto use {
    stringify, parse, concat, digest, sign, verify, pubkey_from_secret, conversation_key, encrypt,
    decrypt,
  }

  unfoldable pub sign_message : Text → String → String
  sign_message json secret = sign (digest json) secret

  unfoldable pub verify_message_signature : Text → String → String → Bool
  verify_message_signature json pubkey sig = verify sig (digest json) pubkey

  -- proof.ts: `mostro-transport-v2-identity:<trade pubkey>:<message>`
  unfoldable pub identity_proof_payload : String → Text → Text
  identity_proof_payload trade_pubkey json =
      concat (append "mostro-transport-v2-identity:" (append trade_pubkey ":")) json

  -- the three elements of the plaintext
  abbrev pub tuple_of : Message → Value → Value → Value
  tuple_of message trade_sig identity_proof =
      array (cons (message_to_json message) (cons trade_sig (cons identity_proof nil)))

  -- `opts.signed === false ? null : …`
  abbrev pub trade_signature : Bool → Text → String → Value
  trade_signature signed json secret = if signed then string (sign_message json secret) else null

  abbrev pub proof_of_identity : String → String → Text → Value
  proof_of_identity identity_secret trade_secret json =
      let trade_pubkey = pubkey_from_secret trade_secret in
      let identity_pubkey = pubkey_from_secret identity_secret in
      if identity_pubkey != trade_pubkey
      then array (
          cons (string identity_pubkey) (
            cons (string (sign_message (identity_proof_payload trade_pubkey json) identity_secret))
              nil))
      else null

  unfoldable pub wrap_message_nip44 :
      Message → String → String → String → Bool → WrapResult Text Cipher
  unfolding sign_message identity_proof_payload
  wrap_message_nip44 message identity_secret trade_secret receiver_pubkey signed =
      let json = stringify (message_to_json message) in
      let trade_sig = trade_signature signed json trade_secret in
      let identity_proof = proof_of_identity identity_secret trade_secret json in
      let content = stringify (tuple_of message trade_sig identity_proof) in
      record {
        content = encrypt content (conversation_key trade_secret receiver_pubkey);
        message_json = json;
      }

  -- the signature, if the second element is a text
  unfoldable pub checked_signature : Bool → Text → String → Value → Result Fault (Option String)
  unfolding verify_message_signature
  checked_signature required json sender (string sig) =
      if verify_message_signature json sender sig then ok (some sig) else err bad_trade_signature
  checked_signature required json sender _ = if required then err missing_signature else ok none

  -- `const [identityPubkey, identitySig] = identityProof`, checked; what is not a text fails the check
  unfoldable pub proven_identity : Text → Items → Result Fault String
  proven_identity payload (cons (string pubkey) (cons (string sig) rest)) =
      if verify_message_signature payload pubkey sig then ok pubkey else err bad_identity_signature
  proven_identity payload _ = err bad_identity_signature

  unfoldable pub checked_identity : Text → String → Value → Result Fault String
  unfolding proven_identity verify_message_signature identity_proof_payload
  checked_identity json sender (array proof) =
      proven_identity (identity_proof_payload sender json) proof
  checked_identity json sender _ = ok sender

  -- the checks on the three elements, and the message
  unfoldable pub open_tuple :
      Bool → DirectEvent Cipher → Value → Value → Value → Result Fault UnwrappedMessage
  unfolding checked_signature checked_identity
  open_tuple required event message_obj trade_sig identity_proof = do
    let json = stringify message_obj
    signature ← checked_signature required json event.pubkey trade_sig
    identity ← checked_identity json event.pubkey identity_proof
    message ← message_from_json message_obj
    ok (record {
      message = message;
      signature = signature;
      sender = event.pubkey;
      identity = identity;
      created_at = pos 0;
    })

  unfoldable pub open_plaintext : Bool → DirectEvent Cipher → Value → Result Fault UnwrappedMessage
  unfolding open_tuple
  open_plaintext required event (array (cons message (cons trade_sig (cons identity_proof nil)))) =
      open_tuple required event message trade_sig identity_proof
  open_plaintext required event _ = err malformed_tuple

  -- null where the content cannot be decrypted
  abbrev pub opened :
      Bool → DirectEvent Cipher → Option Text → Result Fault (Option UnwrappedMessage)
  opened required event none = ok none
  opened required event (some plaintext) = do
    tuple ← parse plaintext
    unwrapped ← open_plaintext required event tuple
    ok (some unwrapped)

  unfoldable pub unwrap_message_nip44 :
      DirectEvent Cipher → String → Bool → Result Fault (Option UnwrappedMessage)
  unfolding open_plaintext
  unwrap_message_nip44 event receiver_secret required =
      if event.kind != 14
      then err not_direct_message
      else opened required event
          (decrypt event.content (conversation_key receiver_secret event.pubkey))

  -- tryUnwrap of dmRouter.ts: what throws is null
  unfoldable pub try_unwrap : DirectEvent Cipher → String → Option UnwrappedMessage
  unfolding unwrap_message_nip44
  try_unwrap event trade_secret = elim (unwrap_message_nip44 event trade_secret false) [
    | ok unwrapped ↦ unwrapped
    | err fault ↦ none
  ]

-- the outer signature of an event: one without an id or a signature is refused, and `verify_event` of
-- the library decides on the others, where what throws is false
unfoldable pub verify_event_signature : Option String → Option String → Bool → Bool
verify_event_signature (some id) (some sig) verified = id != "" && sig != "" && verified
verify_event_signature _ _ verified = false
