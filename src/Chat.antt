-- ===== src/Chat.antt =====
-- src/protocol/chat.ts: a chat message in two signed events, the inner one encrypted in the outer one.
-- The ciphers, the signatures and the JSON texts are a `ChatCrypto`: Text stands for JSON texts, Key
-- for the conversation keys of NIP-44 and Cipher for its payloads.
pub mod Checks
pub mod Delivery
use mostro_ts_client.Common.{
  ℕ, ◌*◌, String, Bool, true, false, not, ◌&&◌, ◌||◌, Option, none, some, List, [], ◌∷◌, ◌==◌, ◌!=◌,
  string_eq, nat_eq, ltb, or_default, is_some, Result, ok, err, ◌>>=◌, ◌>>◌, throw_if,
  if◌then◌else◌,
}
use mostro_ts_client.Common.Lists.{includes, keep}
use mostro_ts_client.Common.Int.{ℤ, pos, ◌+ℤ◌, ◌-ℤ◌, ltb_ℤ, leb_ℤ, int_eq}
use mostro_ts_client.Flow.{nonempty}
use mostro_ts_client.Wire.{
  Number, integer, fraction, infinite, Value, undefined, null, boolean, number, string, array,
  object, Fields, end, field, cons, nil, int, items, optional, get, fields_of,
}
use mostro_ts_client.Fault.{
  Fault, foreign_conversation, not_direct_message, wrong_p_tag, dated_in_future, oversized,
  unsigned_event, bad_outer_signature, not_decrypted, not_a_party, not_text_note, stale_rewrap,
  bad_inner_signature,
}

-- a Nostr event with a content of type C
pub record Event (C : Type 0) : Type 0 where
  pub id : Option String
  pub kind : ℕ
  pub pubkey : String
  pub content : C
  pub tags : List (List String)
  pub created_at : ℤ
  pub sig : Option String

-- what `finalizeEvent` completes
pub record Template (C : Type 0) : Type 0 where
  pub kind : ℕ
  pub created_at : ℤ
  pub content : C
  pub tags : List (List String)

-- `finalize` signs with a secret; `verify_event` checks the id and the signature; `outer_id` is the hash of
-- the outer event; `digest` hashes the JSON text of a value; `print` and `parse` are JSON.stringify and
-- JSON.parse; `coerce` is what Number(…) makes of a text, an array or an object, with none for NaN;
-- `size` counts the bytes of a payload
pub record ChatCrypto (Text Key Cipher : Type 0) : Type 0 where
  pub finalize_inner : Template String → String → Event String
  pub finalize_outer : Template Cipher → String → Event Cipher
  pub verify_event : Event Cipher → Bool
  pub digest : Value → String
  pub outer_id : Event Cipher → String
  pub verify : String → String → String → Bool
  pub print : Value → Text
  pub parse : Text → Option Value
  pub coerce : Value → Result Fault (Option Number)
  pub size : Cipher → ℕ
  pub conversation_key : String → String → Key
  pub encrypt : Text → Key → Cipher
  pub decrypt : Cipher → Key → Option Text

abbrev pub chat_max_clock_skew_secs : ℤ
chat_max_clock_skew_secs = pos 60

abbrev pub chat_max_content_bytes : ℕ
chat_max_content_bytes = 64 * 1024

-- `t[0] === "p"`
abbrev pub is_p : List String → Bool
is_p [] = false
is_p (name ∷ rest) = name == "p"

-- exactly one `p` tag, with this value
abbrev pub names_only : String → List (List String) → Bool
names_only pubkey ((name ∷ value ∷ rest) ∷ []) = value == pubkey
names_only pubkey _ = false

-- the absolute difference of two times is above the bound
abbrev pub apart : ℤ → ℤ → Bool
apart a b = ltb_ℤ chat_max_clock_skew_secs (a -ℤ b) || ltb_ℤ chat_max_clock_skew_secs (b -ℤ a)

-- the same for a number that the inner event gives, where NaN is not above anything
abbrev pub skewed : Option Number → ℤ → Bool
skewed none c = false
skewed (some (integer n)) c = apart n c
skewed (some (fraction n)) c =
    leb_ℤ chat_max_clock_skew_secs (n -ℤ c) || ltb_ℤ chat_max_clock_skew_secs (c -ℤ n)
skewed (some infinite) c = true

-- what an arithmetic operator makes of a value
abbrev pub to_number : (Value → Result Fault (Option Number)) → Value → Result Fault (Option Number)
to_number coerce undefined = ok none
to_number coerce null = ok (some (integer (pos 0)))
to_number coerce (boolean b) = ok (some (integer (if b then pos 1 else pos 0)))
to_number coerce (number n) = ok (some n)
to_number coerce v = coerce v

-- `allowedSigners.includes(inner.pubkey)`
abbrev pub signer_in : List String → Value → Option String
signer_in allowed (string pubkey) = if includes allowed pubkey then some pubkey else none
signer_in allowed _ = none

-- `inner.kind === 1`
abbrev pub is_note : Value → Bool
is_note (number (integer kind)) = kind == pos 1
is_note _ = false

-- `inner.sig ?? ""`, of which only a text is decoded
abbrev pub signature_in : Value → Option String
signature_in undefined = some ""
signature_in null = some ""
signature_in (string sig) = some sig
signature_in _ = none

-- `inner.id ?? ""`
abbrev pub id_or_empty : Value → Value
id_or_empty undefined = string ""
id_or_empty null = string ""
id_or_empty v = v

-- the object of a finalized event, and what its id is the hash of
abbrev pub event_fields : Event String → Fields
event_fields e = field "kind" (int (pos e.kind)) (
    field "created_at" (int e.created_at) (
      field "content" (string e.content) (
        field "tags" (array (items (λ t. array (items string t)) e.tags))
          (field "pubkey" (string e.pubkey) (optional "id" e.id (optional "sig" e.sig end))))))

abbrev pub serialized : Fields → Value
serialized o = array (
    cons (int (pos 0)) (
      cons (get "pubkey" o) (
        cons (get "created_at" o)
          (cons (get "kind" o) (cons (get "tags" o) (cons (get "content" o) nil))))))

-- what unwrapChatMessage returns; only the sender is known to be a text
pub record Unwrapped : Type 0 where
  pub content : Value
  pub sender : String
  pub created_at : Value
  pub inner_event_id : Value
  pub outer_event_id : String

abbrev pub given : {A : Type 0} → Option A → Fault → Result Fault A
given none f = err f
given (some a) f = ok a

module _ {Text Key Cipher : Type 0} (crypto : ChatCrypto Text Key Cipher) where
  open crypto use {
    finalize_inner, finalize_outer, verify_event, digest, outer_id, verify, print, parse, coerce,
    size, conversation_key, encrypt, decrypt,
  }

  unfoldable pub wrap_chat_message :
      (now : ℤ) (trade_secret conv_secret conv_pubkey sign_secret message : String) → Event Cipher
  wrap_chat_message now trade_secret conv_secret conv_pubkey sign_secret message =
      let inner =
        finalize_inner (record { kind = 1; created_at = now; content = message; tags = [] })
          trade_secret in
      let content =
        encrypt (print (object (event_fields inner))) (conversation_key conv_secret conv_pubkey) in
      finalize_outer
        (record {
          kind = 14;
          created_at = now;
          content = content;
          tags = ("p" ∷ conv_pubkey ∷ []) ∷ [];
        })
        sign_secret

  -- the checks on the outer event, before anything is decrypted
  unfoldable pub check_outer :
      (conv_pubkey sign_pubkey : String) → Event Cipher → ℤ → Result Fault (Unit {0})
  check_outer conv_pubkey sign_pubkey outer now = do
    throw_if (outer.pubkey != sign_pubkey) foreign_conversation
    throw_if (outer.kind != 14) not_direct_message
    throw_if (not (names_only conv_pubkey (keep is_p outer.tags))) wrong_p_tag
    throw_if (ltb_ℤ (now +ℤ chat_max_clock_skew_secs) outer.created_at) dated_in_future
    throw_if (ltb chat_max_content_bytes (size outer.content)) oversized
    throw_if (not (is_some (nonempty outer.sig) && is_some (nonempty outer.id))) unsigned_event
    throw_if (not (verify_event outer)) bad_outer_signature

  -- the inner event's checks, with its signer
  unfoldable pub check_inner : List String → Event Cipher → Fields → Result Fault String
  check_inner allowed outer inner = do
    pubkey ← given (signer_in allowed (get "pubkey" inner)) not_a_party
    throw_if (not (is_note (get "kind" inner))) not_text_note
    time ← to_number coerce (get "created_at" inner)
    throw_if (skewed time outer.created_at) stale_rewrap
    sig ← given (signature_in (get "sig" inner)) bad_inner_signature
    throw_if (not (verify sig (digest (serialized inner)) pubkey)) bad_inner_signature
    ok pubkey

  abbrev pub chat_message : Event Cipher → Fields → String → Unwrapped
  chat_message outer inner pubkey = record {
    content = get "content" inner;
    sender = pubkey;
    created_at = get "created_at" inner;
    inner_event_id = id_or_empty (get "id" inner);
    outer_event_id = outer_id outer;
  }

  unfoldable pub unwrap_chat_message :
      (conv_secret conv_pubkey sign_pubkey : String)
      → List String
      → Event Cipher
      → ℤ
      → Result Fault Unwrapped
  unwrap_chat_message conv_secret conv_pubkey sign_pubkey allowed outer now = do
    check_outer conv_pubkey sign_pubkey outer now
    text ← given (decrypt outer.content (conversation_key conv_secret conv_pubkey)) not_decrypted
    json ← given (parse text) not_decrypted
    inner ← fields_of json
    pubkey ← check_inner allowed outer inner
    ok (chat_message outer inner pubkey)
