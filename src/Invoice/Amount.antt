-- ===== src/Invoice/Amount.antt =====
-- The amount of a bolt11 invoice (src/protocol/invoice.ts).
use mostro_ts_client.Common.{
  ℕ, ◌+◌, ◌*◌, ◌^◌, ◌<◌, ◌≤◌, true, ◌≡◌, ◌≢◌, Option, none, some, List, [], ◌∷◌, nat_eq,
}
use mostro_ts_client.Common.Lists.{All}
use mostro_ts_client.Invoice.Bolt11.{is_unit}

-- no separator, which no character of the data part is
abbrev pub NoSeparator : List ℕ → Type 0
NoSeparator = All (λ c. c ≢ 49)

abbrev pub IsDigit : ℕ → Type 0
IsDigit c = (48 ≤ c) × (c ≤ 57)

-- the letter of a multiplier, or none
abbrev pub IsUnit : Option ℕ → Type 0
IsUnit none = Unit
IsUnit (some c) = is_unit c ≡ true

abbrev pub unit_text : Option ℕ → List ℕ
unit_text none = []
unit_text (some c) = c ∷ []

-- the multipliers, their letters, and what an amount in each is worth in millisatoshis
pub data Multiplier : Type 0 where
  bitcoin milli micro nano pico : Multiplier

abbrev pub letter : Multiplier → Option ℕ
letter bitcoin = none
letter milli = some 109
letter micro = some 117
letter nano = some 110
letter pico = some 112

abbrev pub Worth : Multiplier → ℕ → ℕ → Type 0
Worth bitcoin v r = r ≡ v * 10 ^ 11
Worth milli v r = r ≡ v * 10 ^ 8
Worth micro v r = r ≡ v * 10 ^ 5
Worth nano v r = r ≡ v * 10 ^ 2
Worth pico v r = (10 * r ≤ v + 5) × (v + 5 < 10 * r + 10)

-- the millisatoshis of a unit, where a pico-bitcoin is a tenth of one
abbrev pub factor : Multiplier → ℕ
factor bitcoin = 10 ^ 11
factor milli = 10 ^ 8
factor micro = 10 ^ 5
factor nano = 10 ^ 2
factor pico = 1
