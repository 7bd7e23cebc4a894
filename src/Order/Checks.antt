-- ===== src/Order/Checks.antt =====
-- What the checks of an order's amounts accept (order.ts).
use mostro_ts_client.Common.{◌≡◌, refl, ◌↔◌, Option, none, some, ok, arith}
use mostro_ts_client.Common.Int.{ℤ, pos, ◌≤ℤ◌, ◌<ℤ◌, int_eq}
use mostro_ts_client.Order.{
  SmallOrder, check_range_order_limits, check_zero_amount_with_premium, check_amount, range_limits,
  check_limits,
}

-- The bounds of a range order that may be placed.
pub record IsRange (o : SmallOrder) (lo hi : ℤ) : Type 0 where
  pub min_given : o.min_amount ≡ some lo
  pub max_given : o.max_amount ≡ some hi
  pub nonneg : pos 0 ≤ℤ lo
  pub ordered : lo <ℤ hi
  pub market_priced : o.amount ≡ pos 0

limits_of_ok :
    (amount min max lo hi : ℤ)
    → check_limits amount min max ≡ ok (some (lo, hi))
    → (min ≡ lo) × (max ≡ hi) × (pos 0 ≤ℤ lo) × (lo <ℤ hi) × (amount ≡ pos 0)
unfolding check_limits
limits_of_ok amount min max lo hi h = ground arith

ok_of_limits :
    (amount lo hi : ℤ)
    → pos 0 ≤ℤ lo
    → lo <ℤ hi
    → amount ≡ pos 0
    → check_limits amount lo hi ≡ ok (some (lo, hi))
unfolding check_limits
ok_of_limits amount lo hi p q r = ground arith

IsRange-of_ok :
    (o : SmallOrder) (lo hi : ℤ) (min max : Option ℤ)
    → o.min_amount ≡ min
    → o.max_amount ≡ max
    → range_limits o.amount min max ≡ ok (some (lo, hi))
    → IsRange o lo hi
unfolding range_limits
IsRange-of_ok o lo hi (some min) (some max) a b h =
    let (p, q, nonneg, ordered, priced) = limits_of_ok o.amount min max lo hi h in
    record {
      min_given = rw (← p) a;
      max_given = rw (← q) b;
      nonneg = nonneg;
      ordered = ordered;
      market_priced = priced;
    }
IsRange-of_ok o lo hi none max a b h = cc
IsRange-of_ok o lo hi (some min) none a b h = cc

ok_of_range :
    (o : SmallOrder) (lo hi : ℤ) → IsRange o lo hi → check_range_order_limits o ≡ ok (some (lo, hi))
unfolding check_range_order_limits
ok_of_range o lo hi r =
    rw (r.min_given, r.max_given) (ok_of_limits o.amount lo hi r.nonneg r.ordered r.market_priced)

-- `checkRangeOrderLimits` returns a pair exactly for the orders that give both bounds, with
-- 0 ≤ min < max and amount 0, and the pair is then the two bounds.
pub check_range_order_limits_iff :
    (o : SmallOrder) (lo hi : ℤ)
    → (check_range_order_limits o ≡ ok (some (lo, hi))) ↔ IsRange o lo hi
unfolding check_range_order_limits
check_range_order_limits_iff o lo hi =
    (IsRange-of_ok o lo hi o.min_amount o.max_amount refl refl, ok_of_range o lo hi)

-- An order in which the range check finds a range passes the amount check and the premium check too.
pub checked_range_market_priced :
    (o : SmallOrder) (lo hi : ℤ)
    → check_range_order_limits o ≡ ok (some (lo, hi))
    → (check_amount o ≡ none) × (check_zero_amount_with_premium o ≡ none)
unfolding check_amount check_zero_amount_with_premium
checked_range_market_priced o lo hi h =
    let r = (check_range_order_limits_iff o lo hi).0 h in ground (arith, r.market_priced)
