-- ===== src/Tests/Chatting.antt =====
-- Examples for chat messages: a toy cipher and signature that keep the laws.
use mostro_ts_client.Common.{
  String, Bool, ◌&&◌, ◌≡◌, refl, ◌↔◌, none, some, [], ◌∷◌, if◌then◌else◌, ◌==◌, string_eq, ok,
  or_default, ==_of_eq, String-discrete, arith,
}
use mostro_ts_client.Common.Int.{pos, ◌+ℤ◌}
use mostro_ts_client.Wire.{Value, string, array, Fields, cons, int, fields_of, get}
use mostro_ts_client.Chat.{
  Event, Template, ChatCrypto, Unwrapped, wrap_chat_message, unwrap_chat_message, chat_message,
}
use mostro_ts_client.Chat.Checks.{Genuine, FromParty, unwrap_chat_message_iff}
use mostro_ts_client.Chat.Delivery.{IsChatCrypto, unwrap_chat-wrap_chat}

abbrev Key : Type 0
Key = String × String

abbrev Cipher : Type 0
Cipher = Value × Key

abbrev finalized : {C : Type 0} → Template C → String → Event C
finalized t secret = record {
  id = some "id";
  kind = t.kind;
  pubkey = secret;
  content = t.content;
  tags = t.tags;
  created_at = t.created_at;
  sig = some "signed";
}

abbrev same_key : Key → Key → Bool
same_key (a, b) (c, d) = a == c && b == d

-- a hash that keeps the author
abbrev second : Value → String
second (array (cons version (cons (string pubkey) rest))) = pubkey
second _ = ""

abbrev toy : ChatCrypto Value Key Cipher
toy = record {
  finalize_inner = finalized;
  finalize_outer = finalized;
  verify_event = λ e. or_default e.sig "" == "signed";
  digest = second;
  outer_id = λ e. or_default e.id "";
  verify = λ sig digest pubkey. sig == "signed" && digest == pubkey;
  print = λ e. e;
  parse = some;
  coerce = λ v. ok none;
  size = λ c. 100;
  conversation_key = λ secret pubkey. (secret, pubkey);
  encrypt = λ text key. (text, key);
  decrypt = λ cipher key. if same_key cipher.1 key then some cipher.0 else none;
}

toy-IsChatCrypto : IsChatCrypto (λ secret. secret) toy
unfolding String-discrete get
toy-IsChatCrypto = record {
  inner_final = λ t s. record {
    kind = refl;
    created_at = refl;
    content = refl;
    tags = refl;
    pubkey_kept = refl;
    complete = refl;
  };
  outer_final = λ t s. record {
    kind = refl;
    created_at = refl;
    content = refl;
    tags = refl;
    pubkey_kept = refl;
    complete = refl;
  };
  inner_verifies = λ t s. ==_of_eq s s refl;
  outer_verifies = λ t s. refl;
  parse-print = λ t s. refl;
  decrypt-encrypt = λ t k. rw (==_of_eq k.0 k.0 refl, ==_of_eq k.1 k.1 refl);
}

abbrev hello : Event Cipher
hello = wrap_chat_message toy (pos 50) "peer" "conv" "conv key" "sign" "hello"

unwrap_chat-wrap_chat_example :
    (m : Unwrapped) × (unwrap_chat_message toy "conv" "conv key" "sign"
        ("me" ∷ "peer" ∷ [])
        hello
        (pos 10)
      ≡ ok m)
    × (m.content ≡ string "hello")
    × (m.sender ≡ "peer")
    × (m.created_at ≡ int (pos 50))
    × (m.outer_event_id ≡ toy.outer_id hello)
unfolding String-discrete ◌+ℤ◌
unwrap_chat-wrap_chat_example =
    unwrap_chat-wrap_chat (λ secret. secret) toy toy-IsChatCrypto (pos 50) (pos 10) "peer" "conv"
      "conv key" "sign" "hello" ("me" ∷ "peer" ∷ []) refl (omega arith) refl

abbrev said_hello : Unwrapped
said_hello = record {
  content = string "hello";
  sender = "peer";
  created_at = int (pos 50);
  inner_event_id = string "id";
  outer_event_id = "id";
}

unwrap_chat_message_iff_example :
    (unwrap_chat_message toy "conv" "conv key" "sign" ("me" ∷ "peer" ∷ []) hello (pos 10)
      ≡ ok said_hello)
    ↔ (Genuine toy "conv key" "sign" hello (pos 10)
        × ((text : Value) × (json : Value) × (inner : Fields) × (toy.decrypt hello.content
                (toy.conversation_key "conv" "conv key")
              ≡ some text)
            × (some text ≡ some json)
            × (fields_of json ≡ ok inner)
            × ((f : FromParty toy ("me" ∷ "peer" ∷ []) hello inner) × (chat_message toy hello inner
                    f.pubkey
                  ≡ said_hello))))
unwrap_chat_message_iff_example =
    unwrap_chat_message_iff toy "conv" "conv key" "sign" ("me" ∷ "peer" ∷ []) hello (pos 10)
      said_hello
