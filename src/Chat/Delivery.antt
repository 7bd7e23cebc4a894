-- ===== src/Chat/Delivery.antt =====
-- A chat message and the other party (src/protocol/chat.ts).
use mostro_ts_client.Common.{
  String-discrete, ◌≤◌, String, Bool, true, false, ◌&&◌, ◌||◌, ◌≡◌, refl, ap, ◌∙◌, Option, none,
  some, List, [], ◌∷◌, string_eq, or_default, is_some, ok, ==_of_eq, arith,
}
use mostro_ts_client.Common.Lists.{includes, keep}
use mostro_ts_client.Common.Int.{ℤ, pos, ltb_ℤ, ◌+ℤ◌, ◌-ℤ◌, -ℤ_parts}
use mostro_ts_client.Wire.{integer, string, object, end, int, optional, get}
use mostro_ts_client.Flow.{nonempty}
use mostro_ts_client.Chat.{
  Event, Template, ChatCrypto, chat_max_clock_skew_secs, is_p, names_only, apart, chat_message,
  wrap_chat_message, unwrap_chat_message, Unwrapped, event_fields, serialized, signature_in,
}
use mostro_ts_client.Chat.Checks.{Genuine, FromParty, unwrap_chat_message_iff}

-- an event that `finalizeEvent` made of a template, for the key of its secret
pub record IsFinal {C : Type 0} (pubkey : String) (t : Template C) (e : Event C) : Type 0 where
  pub kind : e.kind ≡ t.kind
  pub created_at : e.created_at ≡ t.created_at
  pub content : e.content ≡ t.content
  pub tags : e.tags ≡ t.tags
  pub pubkey_kept : e.pubkey ≡ pubkey
  pub complete : (is_some (nonempty e.sig) && is_some (nonempty e.id)) ≡ true

-- what the code relies on: a finalized event is complete and verifies, JSON texts of events are read
-- back, and a conversation key opens what it encrypted
pub record IsChatCrypto {Text Key Cipher : Type 0} (pubkey_from_secret : String → String)
    (c : ChatCrypto Text Key Cipher) : Type 0 where
  pub inner_final :
      (t : Template String) (s : String) → IsFinal (pubkey_from_secret s) t (c.finalize_inner t s)
  pub outer_final :
      (t : Template Cipher) (s : String) → IsFinal (pubkey_from_secret s) t (c.finalize_outer t s)
  pub inner_verifies :
      (t : Template String) (s : String)
      → let e = c.finalize_inner t s in
        c.verify (or_default e.sig "") (c.digest (serialized (event_fields e))) e.pubkey ≡ true
  pub outer_verifies :
      (t : Template Cipher) (s : String) → c.verify_event (c.finalize_outer t s) ≡ true
  pub parse-print :
      (t : Template String) (s : String)
      → let e = c.finalize_inner t s in
        c.parse (c.print (object (event_fields e))) ≡ some (object (event_fields e))
  pub decrypt-encrypt : (t : Text) (k : Key) → c.decrypt (c.encrypt t k) k ≡ some t

-- the signature of an event, read from its object
signature_read :
    (id sig : Option String)
    → signature_in (get "sig" (optional "id" id (optional "sig" sig end)))
      ≡ some (or_default sig "")
unfolding get optional String-discrete
signature_read none none = refl
signature_read none (some s) = refl
signature_read (some i) none = refl
signature_read (some i) (some s) = refl

or_self : (b : Bool) → b ≡ false → (b || b) ≡ false
or_self true h = cc
or_self false h = refl

at_once : (now : ℤ) → ltb_ℤ (pos 60) (now -ℤ now) ≡ false
at_once now = ground (arith, -ℤ_parts now now)

-- a time is not a minute from itself
not_apart : (a b now : ℤ) → a ≡ now → b ≡ now → apart a b ≡ false
not_apart a b now e k = rw (e, k) (or_self (ltb_ℤ (pos 60) (now -ℤ now)) (at_once now))

one_tag :
    (conv : String) (tags : List (List String))
    → tags ≡ (("p" ∷ conv ∷ []) ∷ [])
    → names_only conv (keep is_p tags) ≡ true
one_tag conv tags e = let p : String = "p" in rw (e, ==_of_eq p p refl, ==_of_eq conv conv refl)

module _ {Text Key Cipher : Type 0} (pubkey_from_secret : String → String)
    (crypto : ChatCrypto Text Key Cipher) (laws : IsChatCrypto pubkey_from_secret crypto) where
  open crypto use {
    finalize_inner, finalize_outer, print, size, conversation_key, encrypt, decrypt, outer_id,
  }

  -- the two events of a wrapped message
  abbrev inner_of : ℤ → String → String → Event String
  inner_of now trade_secret message =
      finalize_inner (record { kind = 1; created_at = now; content = message; tags = [] })
        trade_secret

  abbrev outer_template : ℤ → Cipher → String → Template Cipher
  outer_template now content conv_pubkey = record {
    kind = 14;
    created_at = now;
    content = content;
    tags = ("p" ∷ conv_pubkey ∷ []) ∷ [];
  }

  -- A message that one party wraps is unwrapped by whoever has the conversation's keys and counts the
  -- sender's trade key as a party, with its text, its sender, its time and the outer event's id:
  -- provided that the payload is not above 64 KiB, and that the clock of the reader is at most a
  -- minute behind that of the sender.
  pub unwrap_chat-wrap_chat :
      (now now' : ℤ) (trade_secret conv_secret conv_pubkey sign_secret message : String)
      (allowed : List String)
      → let outer =
          wrap_chat_message crypto now trade_secret conv_secret conv_pubkey sign_secret message in
        includes allowed (pubkey_from_secret trade_secret) ≡ true
        → size outer.content ≤ 65536
        → ltb_ℤ (now' +ℤ chat_max_clock_skew_secs) now ≡ false
        → (m : Unwrapped) × (unwrap_chat_message crypto conv_secret conv_pubkey
              (pubkey_from_secret sign_secret)
              allowed
              outer
              now'
            ≡ ok m)
          × (m.content ≡ string message)
          × (m.sender ≡ pubkey_from_secret trade_secret)
          × (m.created_at ≡ int now)
          × (m.outer_event_id ≡ outer_id outer)
  unfolding wrap_chat_message get String-discrete
  unwrap_chat-wrap_chat now now' trade_secret conv_secret conv_pubkey sign_secret message allowed
        party small clock =
      let inner = inner_of now trade_secret message in
      let key = conversation_key conv_secret conv_pubkey in
      let template =
        outer_template now (encrypt (print (object (event_fields inner))) key) conv_pubkey in
      let outer = finalize_outer template sign_secret in
      let i =
        laws.inner_final (record { kind = 1; created_at = now; content = message; tags = [] })
          trade_secret in
      let o = laws.outer_final template sign_secret in
      let genuine : Genuine crypto conv_pubkey (pubkey_from_secret sign_secret) outer now' =
        record {
          author = o.pubkey_kept;
          kind = o.kind;
          tag = one_tag conv_pubkey outer.tags o.tags;
          dated = rw o.created_at clock;
          small = small;
          signed = o.complete;
          verified = laws.outer_verifies template sign_secret;
        } in
      let from_party : FromParty crypto allowed outer (event_fields inner) = record {
        pubkey = inner.pubkey;
        signer = refl;
        party = rw i.pubkey_kept party;
        note = ap (λ n. int (pos n)) i.kind;
        time = some (integer inner.created_at);
        timed = refl;
        fresh = not_apart inner.created_at outer.created_at now i.created_at o.created_at;
        sig = or_default inner.sig "";
        signed = signature_read inner.id inner.sig;
        proven = laws.inner_verifies _ trade_secret;
      } in
      (
        chat_message crypto outer (event_fields inner) inner.pubkey,
        (unwrap_chat_message_iff crypto conv_secret conv_pubkey (pubkey_from_secret sign_secret)
              allowed outer now' _).1
            (
              genuine,
              (
                print (object (event_fields inner)),
                object (event_fields inner),
                event_fields inner,
                ap (λ x. decrypt x key) o.content ∙ laws.decrypt-encrypt _ key,
                laws.parse-print _ trade_secret,
                refl,
                (from_party, refl),
              ),
            ),
        ap string i.content,
        i.pubkey_kept,
        ap int i.created_at,
        refl,
      )
