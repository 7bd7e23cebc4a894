-- ===== src/Tests/Channel.antt =====
-- Examples for the encrypted channel: a toy cipher and signature that keep the laws.
use mostro_ts_client.Common.{
  ℕ, String, Bool, true, false, ◌≡◌, refl, none, some, ◌&&◌, ◌||◌, if◌then◌else◌, ◌==◌, string_eq,
  ok, ==_of_eq,
}
use mostro_ts_client.Common.Text.{append}
use mostro_ts_client.Common.Int.{pos}
use mostro_ts_client.Wire.{Value, array, string, nil, cons}
use mostro_ts_client.Wire.Typed.{decoded_message}
use mostro_ts_client.Wire.Write.{message_to_json}
use mostro_ts_client.Transport.{
  Crypto, DirectEvent, UnwrappedMessage, wrap_message_nip44, unwrap_message_nip44,
}
use mostro_ts_client.Transport.Delivery.{IsCrypto, reported, unwrap-wrap}
use mostro_ts_client.Transport.Proofs.{Proven, unwrap_sound}
use mostro_ts_client.Tests.Wiring.{restore_message, restore_message-Fits}

abbrev Key : Type 0
Key = String × String

abbrev same_key : Key → Key → Bool
same_key (a, b) (c, d) = (a == c && b == d) || (a == d && b == c)

-- a text is its JSON value, and a ciphertext keeps the text with the pair of keys that opens it
abbrev toy : Crypto Value Key (Value × Key)
toy = record {
  stringify = λ v. v;
  parse = ok;
  concat = λ prefix v. array (cons (string prefix) (cons v nil));
  digest = λ v. "digest";
  sign = λ digest secret. append secret digest;
  verify = λ sig digest pubkey. sig == append pubkey digest;
  pubkey_from_secret = λ secret. secret;
  conversation_key = λ secret pubkey. (secret, pubkey);
  encrypt = λ text key. (text, key);
  decrypt = λ cipher key. if same_key cipher.1 key then some cipher.0 else none;
}

opened_by_pair : (swapped : Bool) (t : Value) → (if swapped || true then some t else none) ≡ some t
opened_by_pair true t = refl
opened_by_pair false t = refl

toy-IsCrypto : IsCrypto toy
toy-IsCrypto = record {
  parse-stringify = λ v h. refl;
  decrypt-encrypt =
      λ t a b. rw (==_of_eq a a refl, ==_of_eq b b refl) (opened_by_pair (a == b && b == a) t);
  verify-sign = λ d secret. ==_of_eq (append secret d) (append secret d) refl;
}

abbrev restore_event : DirectEvent (Value × Key)
restore_event = record {
  kind = 14;
  pubkey = "trade";
  content = (wrap_message_nip44 toy restore_message "me" "trade" "mostro" true).content;
}

abbrev restore_opened : UnwrappedMessage
restore_opened = record {
  message = decoded_message restore_message;
  signature = reported toy toy-IsCrypto true (message_to_json restore_message) "trade";
  sender = "trade";
  identity = "me";
  created_at = pos 0;
}

unwrap-wrap_example :
    unwrap_message_nip44 toy restore_event "mostro" true ≡ ok (some restore_opened)
unfolding wrap_message_nip44
unwrap-wrap_example =
    unwrap-wrap toy toy-IsCrypto restore_message "me" "trade" "mostro" true true
      restore_message-Fits (λ h. refl)

unwrap_sound_example :
    (◌≡◌ {A = ℕ} 14 14) × ((j : Value) × Proven toy true restore_event restore_opened j)
unwrap_sound_example =
    unwrap_sound toy restore_event "mostro" true restore_opened unwrap-wrap_example
