-- ===== src/Net.antt =====
-- The guards on URLs of src/protocol/net.ts. Parsing a URL is the platform's, a parameter.
use mostro_ts_client.Common.{
  ℕ, String, Bool, true, false, not, ◌&&◌, ◌||◌, ◌≡◌, refl, Option, none, some, List, [], ◌∷◌,
  if◌then◌else◌, ◌==◌, ◌!=◌, string_eq, nat_eq, ℕ_discrete, leb, Result, ok, err, ◌>>=◌, ◌>>◌,
  throw_if,
}
use mostro_ts_client.Common.Lists.{length}
use mostro_ts_client.Common.Text.{utf16, to_lower}
use mostro_ts_client.Invoice.Bolt11.{is_digit, digits_value}
use mostro_ts_client.Fault.{Fault, invalid_url, insecure_http, unsupported_scheme, private_host}

pub record UrlPolicy : Type 0 where
  pub allow_http : Bool
  pub allow_private : Bool

pub record Url : Type 0 where
  pub protocol : String
  pub hostname : String
  pub href : String

abbrev same_units : List ℕ → List ℕ → Bool
same_units [] [] = true
same_units (a ∷ s) (b ∷ t) = a == b && same_units s t
same_units _ _ = false

-- `s.endsWith(suffix)`
unfoldable ends_with : List ℕ → List ℕ → Bool
unfolding ℕ_discrete
ends_with suffix [] = same_units suffix []
ends_with suffix (c ∷ s) = same_units suffix (c ∷ s) || ends_with suffix s

-- `[0-9a-f]`
abbrev is_hex : ℕ → Bool
is_hex c = is_digit c || (leb 97 c && leb c 102)

-- `/^f[cd][0-9a-f]{2}:/` and `/^fe[89ab][0-9a-f]:/`
abbrev is_local_v6 : List ℕ → Bool
is_local_v6 (f ∷ a ∷ b ∷ c ∷ colon ∷ rest) =
    f == 102
    && is_hex c
    && colon == 58
    && (((a == 99 || a == 100) && is_hex b)
        || (a == 101 && (b == 56 || b == 57 || b == 97 || b == 98)))
is_local_v6 _ = false

-- the digits before the next dot and what follows it, or the last digits
abbrev digit_before : ℕ → List (List ℕ) → List (List ℕ)
digit_before c [] = (c ∷ []) ∷ []
digit_before c (part ∷ parts) = (c ∷ part) ∷ parts

unfoldable dotted : List ℕ → List (List ℕ)
dotted [] = [] ∷ []
dotted (c ∷ s) = let rest = dotted s in if c == 46 then [] ∷ rest else digit_before c rest

abbrev all_digits : List ℕ → Bool
all_digits [] = true
all_digits (c ∷ s) = is_digit c && all_digits s

-- `\d{1,3}`
abbrev is_octet : List ℕ → Bool
is_octet s = all_digits s && leb 1 (length s) && leb (length s) 3

-- the first two numbers of `/^(\d{1,3})\.(\d{1,3})\.(\d{1,3})\.(\d{1,3})$/`
abbrev ipv4 : List (List ℕ) → Option (ℕ × ℕ)
ipv4 (a ∷ b ∷ c ∷ d ∷ []) =
    if is_octet a && is_octet b && is_octet c && is_octet d
    then some (digits_value 0 a, digits_value 0 b)
    else none
ipv4 _ = none

abbrev is_private_v4 : Option (ℕ × ℕ) → Bool
is_private_v4 none = false
is_private_v4 (some (a, b)) =
    a == 0
    || a == 10
    || a == 127
    || (a == 169 && b == 254)
    || (a == 172 && leb 16 b && leb b 31)
    || (a == 192 && b == 168)
    || (a == 100 && leb 64 b && leb b 127)

-- `stripBrackets`
abbrev without_last : List ℕ → List ℕ
without_last [] = []
without_last (c ∷ []) = []
without_last (c ∷ s) = c ∷ without_last s

abbrev strip_brackets : List ℕ → List ℕ
strip_brackets [] = []
strip_brackets (c ∷ s) = if c == 91 && ends_with (93 ∷ []) s then without_last s else c ∷ s

abbrev is_private_text : List ℕ → Bool
is_private_text host =
    same_units host (utf16 "localhost")
    || ends_with (utf16 ".localhost") host
    || ends_with (utf16 ".local") host
    || same_units host (utf16 "::1")
    || same_units host (utf16 "0:0:0:0:0:0:0:1")
    || is_local_v6 host
    || is_private_v4 (ipv4 (dotted host))

unfoldable pub is_private_host : String → Bool
unfolding to_lower utf16 ends_with dotted ℕ_discrete
is_private_host hostname = is_private_text (strip_brackets (utf16 (to_lower hostname)))

private_test :
    (is_private_host "172.16.0.1"
      && is_private_host "[::1]"
      && is_private_host "fd00::1"
      && is_private_host "nas.LOCAL"
      && not (is_private_host "172.32.0.1")
      && not (is_private_host "10.0.0.1.example"))
    ≡ true
unfolding is_private_host digits_value
private_test = refl

abbrev pub parsed : Option Url → Result Fault Url
parsed none = err invalid_url
parsed (some url) = ok url

-- `parse` is `new URL`
unfoldable pub assert_safe_fetch_url :
    (parse : String → Option Url) → String → UrlPolicy → Result Fault Url
assert_safe_fetch_url parse raw policy = do
  url ← parsed (parse raw)
  let private = is_private_host url.hostname
  throw_if (url.protocol == "http:" && not policy.allow_http && not private) insecure_http
  throw_if (url.protocol != "http:" && url.protocol != "https:") unsupported_scheme
  throw_if (not policy.allow_private && private) private_host
  ok url
