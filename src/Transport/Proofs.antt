-- ===== src/Transport/Proofs.antt =====
-- What an opened message proves about its sender (src/protocol/transport.ts).
use mostro_ts_client.Common.{
  String, Bool, true, false, ◌≡◌, refl, sym, ap, ◌⊎◌, inl, inr, Option, none, some, ◌!=◌, string_eq,
  nat_eq, ok, bind_of_ok, Bool-cases, eq_of_!=, ok_injective, ◌∙◌,
}
use mathlib.Core.Path.{subst}
use mostro_ts_client.Wire.{Value, undefined, string, array, Items, nil, cons}
use mostro_ts_client.Wire.Read.{message_from_json}
use mostro_ts_client.Transport.{
  Crypto, DirectEvent, UnwrappedMessage, verify_message_signature, identity_proof_payload,
  proven_identity, checked_signature, checked_identity, open_tuple, open_plaintext, opened,
  unwrap_message_nip44,
}

some_injective : {A : Type 0} (a b : A) → some a ≡ some b → a ≡ b
some_injective a b h = cc

module _ {Text Key Cipher : Type 0} (crypto : Crypto Text Key Cipher) where
  open crypto use {stringify}

  -- a text that the key has signed
  abbrev pub Signed : Text → String → Type 0
  Signed json pubkey = (sig : String) × (verify_message_signature crypto json pubkey sig ≡ true)

  -- what an opened message proves, where j is the JSON value of the message
  pub record Proven (required : Bool) (event : DirectEvent Cipher) (u : UnwrappedMessage)
      (j : Value) : Type 0 where
    pub message : message_from_json j ≡ ok u.message
    pub sender : u.sender ≡ event.pubkey
    pub identity :
        (u.identity ≡ event.pubkey)
        ⊎ Signed (identity_proof_payload crypto event.pubkey (stringify j)) u.identity
    pub signature :
        ((u.signature ≡ none) × (required ≡ false))
        ⊎ ((sig : String) × (u.signature ≡ some sig)
            × (verify_message_signature crypto (stringify j) event.pubkey sig ≡ true))

  signature_checked :
      (required : Bool) (json : Text) (sender : String) (v : Value) (o : Option String)
      → checked_signature crypto required json sender v ≡ ok o
      → ((o ≡ none) × (required ≡ false))
        ⊎ ((sig : String) × (o ≡ some sig)
            × (verify_message_signature crypto json sender sig ≡ true))
  unfolding checked_signature
  signature_checked required json sender (string sig) o h =
      elim (Bool-cases (verify_message_signature crypto json sender sig)) [
        | inl e ↦ let h' = rw e at h in inr (sig, sym (ok_injective (some sig) o h'), e)
        | inr e ↦ let h' = rw e at h in cc
      ]
  signature_checked true json sender undefined o h = cc
  signature_checked false json sender undefined o h = inl (sym (ok_injective none o h), refl)
  signature_checked true json sender _ o h = cc
  signature_checked false json sender _ o h = inl (sym (ok_injective none o h), refl)

  proof_checked :
      (payload : Text) (proof : Items) (identity : String)
      → proven_identity crypto payload proof ≡ ok identity
      → Signed payload identity
  unfolding proven_identity
  proof_checked payload (cons (string pubkey) (cons (string sig) rest)) identity h =
      elim (Bool-cases (verify_message_signature crypto payload pubkey sig)) [
        | inl e ↦ let h' = rw e at h in (sig, rw (← (ok_injective pubkey identity h')) e)
        | inr e ↦ let h' = rw e at h in cc
      ]
  proof_checked payload nil identity h = cc
  proof_checked payload _ identity h = cc

  identity_checked :
      (json : Text) (sender : String) (v : Value) (identity : String)
      → checked_identity crypto json sender v ≡ ok identity
      → (identity ≡ sender) ⊎ Signed (identity_proof_payload crypto sender json) identity
  unfolding checked_identity
  identity_checked json sender (array proof) identity h = inr (proof_checked _ proof identity h)
  identity_checked json sender undefined identity h = inl (sym (ok_injective sender identity h))
  identity_checked json sender _ identity h = inl (sym (ok_injective sender identity h))

  tuple_checked :
      (required : Bool) (event : DirectEvent Cipher) (j sig proof : Value) (u : UnwrappedMessage)
      → open_tuple crypto required event j sig proof ≡ ok u
      → Proven required event u j
  unfolding open_tuple
  tuple_checked required event j sig proof u h =
      let json = stringify j in
      let (s, es, k) = bind_of_ok (checked_signature crypto required json event.pubkey sig) _ u h in
      let (i, ei, l) = bind_of_ok (checked_identity crypto json event.pubkey proof) _ u k in
      let (m, em, e) = bind_of_ok (message_from_json j) _ u l in
      subst (λ (x : UnwrappedMessage). Proven required event x j) (ok_injective _ u e)
        (record {
          message = em;
          sender = refl;
          identity = identity_checked json event.pubkey proof i ei;
          signature = signature_checked required json event.pubkey sig s es;
        })

  plaintext_checked :
      (required : Bool) (event : DirectEvent Cipher) (v : Value) (u : UnwrappedMessage)
      → open_plaintext crypto required event v ≡ ok u
      → (j : Value) × Proven required event u j
  unfolding open_plaintext
  plaintext_checked required event (array (cons j (cons sig (cons proof nil)))) u h =
      (j, tuple_checked required event j sig proof u h)
  plaintext_checked required event undefined u h = cc
  plaintext_checked required event _ u h = cc

  opened_checked :
      (required : Bool) (event : DirectEvent Cipher) (o : Option Text) (u : UnwrappedMessage)
      → opened crypto required event o ≡ ok (some u)
      → (j : Value) × Proven required event u j
  opened_checked required event none u h = cc
  opened_checked required event (some t) u h =
      let (v, ev, k) = bind_of_ok (crypto.parse t) _ (some u) h in
      let (x, ex, e) = bind_of_ok (open_plaintext crypto required event v) _ (some u) k in
      plaintext_checked required event v u (ex ∙ ap ok (some_injective x u (ok_injective _ _ e)))

  -- Whatever an event contains, a message that is opened from it was read from a JSON value whose text
  -- is signed as reported: the event is a direct message, the sender is its author, the identity is
  -- the author or a key that signed this message together with the author's key, and the signature is
  -- one of the author on the message, or is missing and was not required.
  pub unwrap_sound :
      (event : DirectEvent Cipher) (receiver_secret : String) (required : Bool)
      (u : UnwrappedMessage)
      → unwrap_message_nip44 crypto event receiver_secret required ≡ ok (some u)
      → (event.kind ≡ 14) × ((j : Value) × Proven required event u j)
  unfolding unwrap_message_nip44
  unwrap_sound event receiver_secret required u h = elim (Bool-cases (event.kind != 14)) [
    | inl e ↦ let h' = rw e at h in cc
    | inr e ↦ let h' = rw e at h in (eq_of_!= event.kind 14 e, opened_checked required event _ u h')
  ]
