-- ===== src/Engine/Risk/Limits.antt =====
-- What an accepted order keeps: `RiskChecker::check` and `RiskChecker::on_fill`.
use low_latency_project.Prelude.{
  ℕ, ◌*◌, ◌^◌, ◌≡◌, refl, ap, ◌∙◌, Bool, true, false, not, ◌||◌, arith, ltb, if◌then◌else◌, ◌≤◌,
  ◌<◌, Bool-cases, inl, inr, ◌↔◌,
}
use low_latency_project.Prelude.Int.{ℤ, pos, negsuc, neg_ℤ, ◌+ℤ◌, ◌≤ℤ◌, ltb_ℤ, to_u64, IsInt64}
use low_latency_project.Core.Types.{Price, Quantity, Side, is_buy}
use low_latency_project.Engine.Risk.{
  RiskLimits, RiskState, add_i64, signed_qty, notional, check, on_fill,
}

-- The change of the position without machine widths.
abbrev pub exact_qty : Side → Quantity → ℤ
exact_qty side qty = if is_buy side then pos qty else neg_ℤ (pos qty)

not_above : (a b : ℤ) → ltb_ℤ b a ≡ false → a ≤ℤ b
not_above a b h = ground (arith, h)

not_below : (a b : ℤ) → a ≤ℤ b → ltb_ℤ b a ≡ false
not_below a b h = ground (arith, h)

-- No violation among the four, which are all false then.
pub none_of :
    (a b c d : Bool)
    → not (a || b || c || d) ≡ true
    → (a ≡ false) × (b ≡ false) × (c ≡ false) × (d ≡ false)
none_of a b c d h = ground arith

pub signed_exact :
    (side : Side) (qty : Quantity) → qty < 2 ^ 63 → signed_qty side qty ≡ exact_qty side qty
signed_exact side qty h = elim (Bool-cases (is_buy side)) [
  | inl buys ↦ rw buys (ground arith)
  | inr sells ↦ rw sells (ground arith)
]

pub add_exact : (a c : ℤ) → IsInt64 a → IsInt64 c → IsInt64 (a +ℤ c) → add_i64 a c ≡ a +ℤ c
unfolding ◌+ℤ◌
add_exact (pos a) (pos c) ha hc hs = ground arith
add_exact (pos a) (negsuc c) ha hc hs = ground arith
add_exact (negsuc a) (pos c) ha hc hs = ground arith
add_exact (negsuc a) (negsuc c) ha hc hs = ground arith

-- If `check` accepts an order, then `on_fill` of its whole quantity leaves the net position within the
-- limits, whatever wraps.
pub accepted_fill :
    (limits : RiskLimits) (side : Side) (price : Price) (qty : Quantity) (s : RiskState)
    → (check limits side price qty s).0 ≡ true
    → let after = on_fill side qty (check limits side price qty s).1 in
      (limits.max_short_position ≤ℤ after.net_position)
      × (after.net_position ≤ℤ limits.max_long_position)
unfolding check on_fill
accepted_fill limits side price qty s ok =
    let projected = add_i64 s.net_position (signed_qty side qty) in
    let (no_qty, no_notional, no_long, no_short) =
      none_of (ltb limits.max_order_qty qty) (ltb limits.max_notional (notional price qty))
        (ltb_ℤ limits.max_long_position projected) (ltb_ℤ projected limits.max_short_position) ok in
    (
      not_above limits.max_short_position projected no_short,
      not_above projected limits.max_long_position no_long,
    )

-- The order breaks none of the limits, in numbers without machine widths.
pub record Fits (limits : RiskLimits) (side : Side) (price : ℕ) (qty : Quantity) (s : RiskState)
    : Type 0 where
  pub qty_fits : qty ≤ limits.max_order_qty
  pub notional_fits : price * qty ≤ limits.max_notional
  pub long_fits : s.net_position +ℤ exact_qty side qty ≤ℤ limits.max_long_position
  pub short_fits : limits.max_short_position ≤ℤ s.net_position +ℤ exact_qty side qty

module _ (limits : RiskLimits) (side : Side) (price : ℕ) (qty : Quantity) (s : RiskState)
    (priced : price < 2 ^ 63) (small : qty < 2 ^ 63) (in_notional : price * qty < 2 ^ 64)
    (net : IsInt64 s.net_position)
    (in_position : IsInt64 (s.net_position +ℤ exact_qty side qty)) where
  notional_exact : notional (pos price) qty ≡ price * qty
  notional_exact =
      let same : to_u64 (pos price) ≡ price = omega (arith, priced) in
      rw same (omega (arith, in_notional))

  exact_fits : IsInt64 (exact_qty side qty)
  exact_fits = elim (Bool-cases (is_buy side)) [
    | inl buys ↦ rw buys (small, omega arith)
    | inr sells ↦ rw sells (ground arith)
  ]

  projected_exact :
      add_i64 s.net_position (signed_qty side qty) ≡ s.net_position +ℤ exact_qty side qty
  projected_exact =
      ap (add_i64 s.net_position) (signed_exact side qty small)
      ∙ add_exact s.net_position (exact_qty side qty) net exact_fits in_position

  accepts : Fits limits side price qty s → (check limits side (pos price) qty s).0 ≡ true
  unfolding check
  accepts f =
      let a : ltb limits.max_order_qty qty ≡ false = ground (arith, f.qty_fits) in
      let b : ltb limits.max_notional (price * qty) ≡ false = ground (arith, f.notional_fits) in
      rw
        (
          projected_exact,
          notional_exact,
          a,
          b,
          not_below _ _ f.long_fits,
          not_below _ _ f.short_fits,
        )
        refl

  sound : (check limits side (pos price) qty s).0 ≡ true → Fits limits side price qty s
  unfolding check
  sound ok =
      let (no_qty, no_notional, no_long, no_short) =
        none_of (ltb limits.max_order_qty qty) (ltb limits.max_notional (price * qty))
          (ltb_ℤ limits.max_long_position (s.net_position +ℤ exact_qty side qty))
          (ltb_ℤ (s.net_position +ℤ exact_qty side qty) limits.max_short_position)
          (rw (projected_exact, notional_exact) at ok) in
      record {
        qty_fits = ground (arith, no_qty);
        notional_fits = ground (arith, no_notional);
        long_fits =
            not_above (s.net_position +ℤ exact_qty side qty) limits.max_long_position no_long;
        short_fits =
            not_above limits.max_short_position (s.net_position +ℤ exact_qty side qty) no_short;
      }

  -- For a price from 0 up to below 2 ^ 63, a quantity below 2 ^ 63, a notional value below 2 ^ 64 and a position that fits
  -- `int64_t` before and after, `check` accepts exactly the orders within all four limits.
  pub check_iff : (check limits side (pos price) qty s).0 ≡ true ↔ Fits limits side price qty s
  check_iff = (sound, accepts)
