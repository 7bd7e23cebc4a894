-- ===== src/Encryption.antt =====
-- src/protocol/encryption.ts: the wrappers of the two sensitive columns. The ciphers are parameters.
use mostro_ts_client.Common.{
  String, Bool, true, false, ◌||◌, ◌≡◌, refl, Option, none, some, if◌then◌else◌, ◌==◌, string_eq,
  arith, ◌≢◌, ==_of_eq, ==_of_ne, String-discrete,
}
use text.Mathlib.Text.{starts_with}

-- the sentinel prefix of an encrypted value
unfoldable pub is_encrypted_format : String → Bool
is_encrypted_format value = starts_with value "v1x" || starts_with value "b1x"

-- An encryptor, at any choice of its nonces: what it encrypts carries the prefix, and it decrypts it.
pub record FieldEncryptor : Type 0 where
  pub encrypt_utf8 : String → String
  pub decrypt_to_utf8 : String → String
  pub marks : (v : String) → is_encrypted_format (encrypt_utf8 v) ≡ true
  pub decrypts : (v : String) → decrypt_to_utf8 (encrypt_utf8 v) ≡ v

unfoldable pub encrypt_string : Option FieldEncryptor → String → String
encrypt_string none value = value
encrypt_string (some enc) value = enc.encrypt_utf8 value

unfoldable pub decrypt_string : Option FieldEncryptor → String → String
decrypt_string none value = value
decrypt_string (some enc) value =
    if is_encrypted_format value then enc.decrypt_to_utf8 value else value

unfoldable pub encrypt_string_or_null : Option FieldEncryptor → Option String → Option String
unfolding encrypt_string
encrypt_string_or_null enc none = none
encrypt_string_or_null enc (some value) =
    if value == "" then some value else some (encrypt_string enc value)

unfoldable pub decrypt_string_or_null : Option FieldEncryptor → Option String → Option String
unfolding decrypt_string
decrypt_string_or_null enc none = none
decrypt_string_or_null enc (some value) =
    if value == "" then some value else some (decrypt_string enc value)

-- What is encrypted is read back, with an encryptor or without one.
pub decrypt-encrypt :
    (enc : Option FieldEncryptor) (v : String) → decrypt_string enc (encrypt_string enc v) ≡ v
unfolding encrypt_string decrypt_string
decrypt-encrypt none v = refl
decrypt-encrypt (some enc) v = rw (enc.marks v, enc.decrypts v)

not_marked : is_encrypted_format "" ≡ false
unfolding is_encrypted_format
not_marked = refl

nonempty_cipher : (enc : FieldEncryptor) (v : String) → enc.encrypt_utf8 v ≢ ""
nonempty_cipher enc v e = let m = enc.marks v in cc (rw e at m, not_marked)

-- So it is through the wrapper for a nullable column, which lets the empty text through.
pub decrypt_or_null-encrypt :
    (enc : Option FieldEncryptor) (v : String)
    → decrypt_string_or_null enc (some (encrypt_string enc v)) ≡ some v
unfolding encrypt_string decrypt_string_or_null
decrypt_or_null-encrypt none v = ground arith
decrypt_or_null-encrypt (some enc) v =
    rw (==_of_ne (enc.encrypt_utf8 v) "" (nonempty_cipher enc v), enc.marks v, enc.decrypts v)

empty_kept : (enc : Option FieldEncryptor) → decrypt_string_or_null enc (some "") ≡ some ""
unfolding decrypt_string_or_null String-discrete
empty_kept enc = refl

pub decrypt_or_null-encrypt_or_null :
    (enc : Option FieldEncryptor) (v : String)
    → decrypt_string_or_null enc (encrypt_string_or_null enc (some v)) ≡ some v
unfolding encrypt_string_or_null
decrypt_or_null-encrypt_or_null enc v = elim (String-discrete v "") [
  | yes e ↦ rw (==_of_eq v "" e) (rw e (empty_kept enc))
  | no n ↦ rw (==_of_ne v "" n) (decrypt_or_null-encrypt enc v)
]
