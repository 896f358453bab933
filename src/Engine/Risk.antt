-- ===== src/Engine/Risk.antt =====
-- include/engine/risk.hpp: `RiskLimits`, `RiskState`, `RiskChecker`.
pub mod Limits
use low_latency_project.Prelude.{
  ℕ, ◌+◌, ◌-◌, ◌*◌, ◌%◌, ◌^◌, ◌≡◌, ◌≢◌, refl, Bool, true, false, not, ◌||◌, arith, ltb,
  if◌then◌else◌, ◌≤◌, ◌<◌,
}
use low_latency_project.Prelude.Int.{
  ℤ, pos, negsuc, pos_part, neg_part, neg_ℤ, ◌+ℤ◌, ◌≤ℤ◌, ltb_ℤ, to_u64, of_u64, IsInt64,
}
use low_latency_project.Core.Types.{Price, Quantity, Side, buy, sell, is_buy}

pub record RiskLimits : Type 0 where
  pub max_order_qty : Quantity
  pub max_notional : ℕ
  pub max_long_position : ℤ
  pub max_short_position : ℤ

-- `active_client_ids_` is never used, and left out.
pub record RiskState : Type 0 where
  pub net_position : ℤ
  pub orders_sent : ℕ
  pub orders_rejected : ℕ

-- `std::int64_t` addition. An overflow is undefined in C++; it is taken to wrap around, as the
-- machine's addition does.
abbrev pub add_i64 : ℤ → ℤ → ℤ
add_i64 a b = of_u64 (to_u64 a + to_u64 b)

-- `(int64_t)qty` for a buyer, `-(int64_t)qty` for a seller.
abbrev pub signed_qty : Side → Quantity → ℤ
signed_qty side qty = if is_buy side then of_u64 qty else of_u64 (2 ^ 64 - qty % 2 ^ 64)

-- `(uint64_t)price.value * (uint64_t)qty.value`
abbrev pub notional : Price → Quantity → ℕ
notional price qty = to_u64 price * qty % 2 ^ 64

-- The order passes all risk checks, and the state after it.
unfoldable pub check : RiskLimits → Side → Price → Quantity → RiskState → Bool × RiskState
check limits side price qty s =
    let qty_violation = ltb limits.max_order_qty qty in
    let notional_violation = ltb limits.max_notional (notional price qty) in
    let projected = add_i64 s.net_position (signed_qty side qty) in
    let long_violation = ltb_ℤ limits.max_long_position projected in
    let short_violation = ltb_ℤ projected limits.max_short_position in
    let rejected = qty_violation || notional_violation || long_violation || short_violation in
    (
      not rejected,
      record s { orders_rejected = (s.orders_rejected + (if rejected then 1 else 0)) % 2 ^ 64 },
    )

unfoldable pub on_fill : Side → Quantity → RiskState → RiskState
on_fill side qty s = record s { net_position = add_i64 s.net_position (signed_qty side qty) }
