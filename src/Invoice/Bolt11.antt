-- ===== src/Invoice/Bolt11.antt =====
-- The readers of a bolt11 invoice in src/protocol/invoice.ts, on the code units of its text.
use mostro_ts_client.Common.{
  ℕ, ◌^◌, ◌-◌, zero, suc, ◌+◌, ◌-◌, ◌*◌, ◌/◌, String, Bool, ◌&&◌, ◌||◌, ◌≡◌, refl, Option, none,
  some, List, [], ◌∷◌, if◌then◌else◌, ◌==◌, leb, ltb, or_else, nat_eq, ℕ_discrete,
}
use mostro_ts_client.Common.Text.{trim, to_lower, utf16}
use mostro_ts_client.Common.Lists.{length, is_nil}

-- a value that is null where the one before is
abbrev pub and_then : {A B : Type 0} → Option A → (A → Option B) → Option B
and_then none f = none
and_then (some a) f = f a

-- `\d`
abbrev pub is_digit : ℕ → Bool
is_digit c = leb 48 c && leb c 57

-- what the human-readable part says: the digits, the letter of the multiplier, and the text after
-- the separator
pub record Hrp : Type 0 where
  pub digits : List ℕ
  pub unit : Option ℕ
  pub rest : List ℕ

-- `[munp]`
abbrev pub is_unit : ℕ → Bool
is_unit c = c == 109 || c == 117 || c == 110 || c == 112

-- `1` with no letter before it
separator : List ℕ → Option Hrp
separator [] = none
separator (c ∷ s) = if c == 49 then some (record { digits = []; unit = none; rest = s }) else none

-- `([munp]?)1`: the letter is taken if it can be
unfoldable pub unit_and_separator : List ℕ → Option Hrp
unfolding separator ℕ_discrete
unit_and_separator (c ∷ d ∷ s) =
    if is_unit c && d == 49
    then some (record { digits = []; unit = some c; rest = s })
    else separator (c ∷ d ∷ s)
unit_and_separator s = separator s

abbrev pub with_digit : ℕ → Option Hrp → List ℕ → Option Hrp
with_digit c (some h) s = some (record h { digits = c ∷ h.digits })
with_digit c none s = unit_and_separator (c ∷ s)

-- `(\d*)([munp]?)1`: as many digits as leave a match
unfoldable pub amount_part : List ℕ → Option Hrp
unfolding unit_and_separator ℕ_discrete
amount_part [] = none
amount_part (c ∷ s) =
    let more = with_digit c (amount_part s) s in
    if is_digit c then more else unit_and_separator (c ∷ s)

-- the text after a literal
after : List ℕ → List ℕ → Option (List ℕ)
after [] s = some s
after (p ∷ ps) [] = none
after (p ∷ ps) (c ∷ s) = let rest = after ps s in if p == c then rest else none

attempt : Option (List ℕ) → Option Hrp → Option Hrp
attempt none others = others
attempt (some rest) others = or_else (amount_part rest) others

-- one alternative of the prefix, before the others
alternative : String → List ℕ → Option Hrp → Option Hrp
alternative prefix s others = attempt (after (utf16 prefix) s) others

-- BOLT11_HRP: `/^ln(?:bc|tb|bcrt|sb)(\d*)([munp]?)1/`, on a text in lower case
unfoldable pub bolt11_hrp : List ℕ → Option Hrp
unfolding alternative attempt after utf16 amount_part ℕ_discrete
bolt11_hrp s =
    alternative "lnbc" s (alternative "lntb" s (alternative "lnbcrt" s (alternative "lnsb" s none)))

-- `paymentRequest.trim().toLowerCase()`
abbrev pub normal_text : String → List ℕ
normal_text payment_request = utf16 (to_lower (trim payment_request))

-- `Number(digits)`
unfoldable pub digits_value : ℕ → List ℕ → ℕ
digits_value acc [] = acc
digits_value acc (c ∷ s) = digits_value (acc * 10 + (c - 48)) s

-- millisatoshis of an amount with a multiplier; a pico-bitcoin is a tenth of one
unfoldable pub scaled : ℕ → Option ℕ → Option ℕ
scaled amount none = some (amount * 100000000000)
scaled amount (some c) =
    if c == 109
    then some (amount * 100000000)
    else if c == 117
    then some (amount * 100000)
    else if c == 110
    then some (amount * 100)
    else if c == 112
    then some ((amount + 5) / 10)
    else none

-- the least integer that `Number(…)` rounds to Infinity
abbrev pub infinite_from : ℕ
infinite_from = 2 ^ 1024 - 2 ^ 970

-- `!Number.isFinite(amount) || amount <= 0`
abbrev pub is_refused : ℕ → Bool
is_refused amount = leb infinite_from amount || leb amount 0

amount_of : Hrp → Option ℕ
amount_of h =
    let amount = digits_value 0 h.digits in
    if is_nil h.digits || is_refused amount then none else scaled amount h.unit

unfoldable pub bolt11_amount_msat : String → Option ℕ
unfolding amount_of scaled digits_value ℕ_discrete
bolt11_amount_msat payment_request = and_then (bolt11_hrp (normal_text payment_request)) amount_of

-- BECH32_CHARSET.indexOf, where none is -1
unfoldable pub index_from : ℕ → List ℕ → ℕ → Option ℕ
index_from i [] c = none
index_from i (d ∷ ds) c = let rest = index_from (i + 1) ds c in if d == c then some i else rest

unfoldable pub bech32_index : ℕ → Option ℕ
unfolding index_from utf16 ℕ_discrete
bech32_index c = index_from 0 (utf16 "qpzry9x8gf2tvdw0s3jn54khce6mua7l") c

-- `acc = acc * 32 + v` over the first n units of a text, or null at a unit out of the charset or at
-- the end of the text
unfoldable pub read_base32 : ℕ → List ℕ → ℕ → Option ℕ
read_base32 zero s acc = some acc
read_base32 (suc n) [] acc = none
read_base32 (suc n) (c ∷ s) acc = and_then (bech32_index c) (λ v. read_base32 n s (acc * 32 + v))

-- a text of fewer than seven units has no timestamp, which `read_base32` finds too
unfoldable pub bolt11_timestamp : String → Option ℕ
unfolding bolt11_hrp read_base32 bech32_index
bolt11_timestamp payment_request =
    and_then (bolt11_hrp (normal_text payment_request))
      (λ h. if ltb (length h.rest) 7 then none else read_base32 7 h.rest 0)

amount_tests :
    (bolt11_amount_msat " LNBC2500u1pvjluez " ≡ some 250000000)
    × (bolt11_amount_msat "lnbcrt20m1pvjluez" ≡ some 2000000000)
    × (bolt11_amount_msat "lnbc1pvjluez" ≡ none)
    × (bolt11_timestamp "lnbc1pvjluez" ≡ some 1496314658)
unfolding bolt11_amount_msat bolt11_timestamp trim to_lower utf16 ℕ_discrete bolt11_hrp
amount_tests = (refl, refl, refl, refl)
