-- ===== src/Flow/Range.antt =====
-- The continuation of a range order (`computeNextTradePayload`).
use mostro_ts_client.Common.{String, ◌≡◌, refl, Option, none, some, Bool-cases, inl, inr}
use mostro_ts_client.Common.Int.{ℤ, pos, ◌≤ℤ◌, ◌-ℤ◌, ltb_ℤ, ltb_false_of_le, le_of_ltb_false}
use mostro_ts_client.Order.{SmallOrder}
use mostro_ts_client.Message.{Payload}
use mostro_ts_client.Flow.{compute_next_trade_payload, next_trade_payload}

-- What is left of a range order still covers its minimum.
pub record Continues (o : SmallOrder) (min max : ℤ) : Type 0 where
  pub min_given : o.min_amount ≡ some min
  pub max_given : o.max_amount ≡ some max
  pub enough : min ≤ℤ max -ℤ o.fiat_amount

module _ {S : Type 0} (reserve : ℤ → S → (ℤ × String) × S) (o : SmallOrder) (s : S) where
  continued :
      (min max : ℤ)
      → Continues o min max
      → let ((index, pubkey), s') = reserve (pos 0) s in
        compute_next_trade_payload reserve o s ≡ (some (Payload.next_trade pubkey index), s')
  unfolding compute_next_trade_payload
  continued min max c =
      rw (c.min_given, c.max_given) (rw (ltb_false_of_le min (max -ℤ o.fiat_amount) c.enough))

  stopped :
      (min max : Option ℤ)
      → o.min_amount ≡ min
      → o.max_amount ≡ max
      → ((lo hi : ℤ) → ¬ Continues o lo hi)
      → next_trade_payload reserve min max o.fiat_amount s ≡ (none, s)
  unfolding next_trade_payload
  stopped none max p q h = refl
  stopped (some lo) none p q h = refl
  stopped (some lo) (some hi) p q h = elim (Bool-cases (ltb_ℤ (hi -ℤ o.fiat_amount) lo)) [
    | inl short ↦ rw short
    | inr covers ↦ absurd (
        h lo hi (record {
          min_given = p;
          max_given = q;
          enough = le_of_ltb_false lo (hi -ℤ o.fiat_amount) covers;
        }))
  ]

  -- Where the rest of a range order covers its minimum, exactly one trade key is reserved, from base
  -- 0, and its pubkey and index are announced. In every other case nothing is announced and the
  -- store is left alone.
  pub next_trade_payload_total :
      ((min max : ℤ)
        → Continues o min max
        → let ((index, pubkey), s') = reserve (pos 0) s in
          compute_next_trade_payload reserve o s ≡ (some (Payload.next_trade pubkey index), s'))
      × (((min max : ℤ) → ¬ Continues o min max)
          → compute_next_trade_payload reserve o s ≡ (none, s))
  unfolding compute_next_trade_payload
  next_trade_payload_total = (continued, stopped o.min_amount o.max_amount refl refl)
