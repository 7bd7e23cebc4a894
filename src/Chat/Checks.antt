-- ===== src/Chat/Checks.antt =====
-- Which events are taken as chat messages (src/protocol/chat.ts).
use mostro_ts_client.Common.{
  ℕ_discrete, ℕ, ◌≤◌, String, Bool, true, false, not, ◌≡◌, refl, ◌↔◌, ap, Option, none, some, List,
  string_eq, nat_eq, ltb, is_some, ok, bind_of_ok, ok_injective, passed, passed_last, ◌&&◌,
  eq_of_!=, !=_of_eq, eq_of_==, Bool-cases, inl, inr, ◌∙◌, arith,
}
use mostro_ts_client.Common.Lists.{includes, keep}
use mostro_ts_client.Common.Int.{ℤ, pos, ltb_ℤ, ◌+ℤ◌, ℤ-discrete, int_eq}
use mostro_ts_client.Wire.{
  Number, integer, fraction, infinite, Value, undefined, null, boolean, number, string, array,
  object, Fields, int, get, fields_of,
}
use mostro_ts_client.Flow.{nonempty}
use mostro_ts_client.Fault.{Fault}
use mostro_ts_client.Chat.{
  Event, ChatCrypto, chat_max_clock_skew_secs, is_p, names_only, given, check_outer, check_inner,
  chat_message, unwrap_chat_message, Unwrapped, skewed, to_number, signer_in, is_note, signature_in,
  serialized,
}

true_of_not : (b : Bool) → not b ≡ false → b ≡ true
true_of_not true h = refl
true_of_not false h = cc

ltb_of_le : (a b : ℕ) → ltb a b ≡ false → b ≤ a
ltb_of_le a b h = ground arith

le_of_ltb : (a b : ℕ) → b ≤ a → ltb a b ≡ false
le_of_ltb a b h = ground arith

given_ok : {A : Type 0} (o : Option A) (f : Fault) (a : A) → given o f ≡ ok a → o ≡ some a
given_ok none f a h = cc
given_ok (some x) f a h = ap some (ok_injective x a h)

signer_sound :
    (allowed : List String) (v : Value) (pubkey : String)
    → signer_in allowed v ≡ some pubkey
    → (v ≡ string pubkey) × (includes allowed pubkey ≡ true)
signer_sound allowed undefined pubkey h = cc
signer_sound allowed null pubkey h = cc
signer_sound allowed (boolean b) pubkey h = cc
signer_sound allowed (number n) pubkey h = cc
signer_sound allowed (array vs) pubkey h = cc
signer_sound allowed (object o) pubkey h = cc
signer_sound allowed (string s) pubkey h = elim (Bool-cases (includes allowed s)) [
  | inl e ↦
      let h' : some s ≡ some pubkey = rw e at h in
      let same : s ≡ pubkey = cc in (ap string same, rw same at e)
  | inr e ↦ let h' = rw e at h in cc
]

note_sound : (v : Value) → is_note v ≡ true → v ≡ int (pos 1)
note_sound undefined h = cc
note_sound null h = cc
note_sound (boolean b) h = cc
note_sound (string s) h = cc
note_sound (array vs) h = cc
note_sound (object o) h = cc
note_sound (number (fraction n)) h = cc
note_sound (number infinite) h = cc
note_sound (number (integer n)) h = ap int (eq_of_== n (pos 1) h)

module _ {Text Key Cipher : Type 0} (crypto : ChatCrypto Text Key Cipher) where
  open crypto use {verify_event, digest, verify, parse, coerce, size, conversation_key, decrypt}

  -- an outer event of the conversation
  pub record Genuine (conv_pubkey sign_pubkey : String) (outer : Event Cipher) (now : ℤ)
      : Type 0 where
    pub author : outer.pubkey ≡ sign_pubkey
    pub kind : outer.kind ≡ 14
    pub tag : names_only conv_pubkey (keep is_p outer.tags) ≡ true
    pub dated : ltb_ℤ (now +ℤ chat_max_clock_skew_secs) outer.created_at ≡ false
    pub small : size outer.content ≤ 65536
    pub signed : (is_some (nonempty outer.sig) && is_some (nonempty outer.id)) ≡ true
    pub verified : verify_event outer ≡ true

  -- an inner event that one of the parties signed, at about the same time if its time is a number
  pub record FromParty (allowed : List String) (outer : Event Cipher) (inner : Fields)
      : Type 0 where
    pub pubkey : String
    pub signer : get "pubkey" inner ≡ string pubkey
    pub party : includes allowed pubkey ≡ true
    pub note : get "kind" inner ≡ int (pos 1)
    pub time : Option Number
    pub timed : to_number coerce (get "created_at" inner) ≡ ok time
    pub fresh : skewed time outer.created_at ≡ false
    pub sig : String
    pub signed : signature_in (get "sig" inner) ≡ some sig
    pub proven : verify sig (digest (serialized inner)) pubkey ≡ true

  outer_sound :
      (conv_pubkey sign_pubkey : String) (outer : Event Cipher) (now : ℤ)
      → check_outer crypto conv_pubkey sign_pubkey outer now ≡ ok tt
      → Genuine conv_pubkey sign_pubkey outer now
  unfolding check_outer
  outer_sound conv_pubkey sign_pubkey outer now h =
      let (author, h1) = passed _ _ _ tt h in
      let (kind, h2) = passed _ _ _ tt h1 in
      let (tag, h3) = passed _ _ _ tt h2 in
      let (dated, h4) = passed _ _ _ tt h3 in
      let (small, h5) = passed _ _ _ tt h4 in
      let (signed, h6) = passed _ _ _ tt h5 in
      record {
        author = eq_of_!= outer.pubkey sign_pubkey author;
        kind = eq_of_!= outer.kind 14 kind;
        tag = true_of_not _ tag;
        dated = dated;
        small = ltb_of_le _ _ small;
        signed = true_of_not _ signed;
        verified = true_of_not _ (passed_last _ _ h6);
      }

  outer_complete :
      (conv_pubkey sign_pubkey : String) (outer : Event Cipher) (now : ℤ)
      → Genuine conv_pubkey sign_pubkey outer now
      → check_outer crypto conv_pubkey sign_pubkey outer now ≡ ok tt
  unfolding check_outer
  outer_complete conv_pubkey sign_pubkey outer now g = rw (
    !=_of_eq outer.pubkey sign_pubkey g.author,
    !=_of_eq outer.kind 14 g.kind,
    g.tag,
    g.dated,
    le_of_ltb 65536 (size outer.content) g.small,
    g.signed,
    g.verified,
  )

  inner_sound :
      (allowed : List String) (outer : Event Cipher) (inner : Fields) (pubkey : String)
      → check_inner crypto allowed outer inner ≡ ok pubkey
      → (f : FromParty allowed outer inner) × (f.pubkey ≡ pubkey)
  unfolding check_inner
  inner_sound allowed outer inner pubkey h =
      let (signer, party, h1) =
        bind_of_ok (given (signer_in allowed (get "pubkey" inner)) _) _ pubkey h in
      let (note, h2) = passed _ _ _ pubkey h1 in
      let (time, timed, h3) = bind_of_ok (to_number coerce (get "created_at" inner)) _ pubkey h2 in
      let (fresh, h4) = passed _ _ _ pubkey h3 in
      let (sig, signed, h5) = bind_of_ok (given (signature_in (get "sig" inner)) _) _ pubkey h4 in
      let (proven, h6) = passed _ _ _ pubkey h5 in
      let (named, included) =
        signer_sound allowed (get "pubkey" inner) signer (given_ok _ _ signer party) in
      (
        record {
          pubkey = signer;
          signer = named;
          party = included;
          note = note_sound (get "kind" inner) (true_of_not _ note);
          time = time;
          timed = timed;
          fresh = fresh;
          sig = sig;
          signed = given_ok _ _ sig signed;
          proven = true_of_not _ proven;
        },
        ok_injective signer pubkey h6,
      )

  inner_complete :
      (allowed : List String) (outer : Event Cipher) (inner : Fields)
      (f : FromParty allowed outer inner)
      → check_inner crypto allowed outer inner ≡ ok f.pubkey
  unfolding check_inner ℤ-discrete ℕ_discrete
  inner_complete allowed outer inner f =
      let proven = rw (f.signer, f.note) at f.proven in
      rw (f.signer, f.party, f.note, f.timed, f.fresh, f.signed, proven)

  -- An event gives a chat message exactly when it passes every check: it is a direct message of the
  -- conversation's signing key with one p tag, which names the conversation, a valid signature, a
  -- payload of 64 KiB at most and a time at most a minute ahead; and it opens as a text note that a
  -- party to the conversation signed, with a time that is within a minute of it or that is not a
  -- number. The message is then that note's content, time and id, as they were parsed.
  pub unwrap_chat_message_iff :
      (conv_secret conv_pubkey sign_pubkey : String) (allowed : List String) (outer : Event Cipher)
      (now : ℤ) (m : Unwrapped)
      → (unwrap_chat_message crypto conv_secret conv_pubkey sign_pubkey allowed outer now ≡ ok m)
        ↔ (Genuine conv_pubkey sign_pubkey outer now
            × ((text : Text) × (json : Value) × (inner : Fields) × (decrypt outer.content
                    (conversation_key conv_secret conv_pubkey)
                  ≡ some text)
                × (parse text ≡ some json)
                × (fields_of json ≡ ok inner)
                × ((f : FromParty allowed outer inner) × (chat_message crypto outer inner f.pubkey
                      ≡ m))))
  unfolding unwrap_chat_message
  unwrap_chat_message_iff conv_secret conv_pubkey sign_pubkey allowed outer now m = (
    λ h.
        let (u, g, h1) = bind_of_ok (check_outer crypto conv_pubkey sign_pubkey outer now) _ m h in
        let (text, d, h2) = bind_of_ok (given (decrypt outer.content _) _) _ m h1 in
        let (json, p, h3) = bind_of_ok (given (parse text) _) _ m h2 in
        let (inner, o, h4) = bind_of_ok (fields_of json) _ m h3 in
        let (pubkey, c, h5) = bind_of_ok (check_inner crypto allowed outer inner) _ m h4 in
        let (f, same) = inner_sound allowed outer inner pubkey c in
        (
          outer_sound conv_pubkey sign_pubkey outer now g,
          (
            text,
            json,
            inner,
            given_ok _ _ text d,
            given_ok _ _ json p,
            o,
            (f, ap (chat_message crypto outer inner) same ∙ ok_injective _ m h5),
          ),
        ),
    λ (g, (text, json, inner, d, p, o, (f, e))).
        rw
          (
            outer_complete conv_pubkey sign_pubkey outer now g,
            d,
            p,
            o,
            inner_complete allowed outer inner f,
          )
          (ap ok e),
  )
