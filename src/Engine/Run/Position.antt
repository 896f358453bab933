-- ===== src/Engine/Run/Position.antt =====
-- The position of the engine: what a round does to it, and that it stays within the limits.
use low_latency_project.Prelude.{
  ℕ, suc, ◌+◌, ◌-◌, ◌^◌, ◌≡◌, ◌≤◌, ◌<◌, refl, ap, ◌∙◌, true, Option, some, List, [], ◌∷◌, arith,
  Bool-cases, inl, inr, ltb,
}
use low_latency_project.Prelude.Int.{
  ltb_ℤ, ℤ, pos, neg_ℤ, ◌+ℤ◌, ◌≤ℤ◌, IsInt64, pos_part, neg_part, eq_of_parts,
}
use low_latency_project.Core.Types.{Timestamp, OrderId, Side, Price, Quantity, is_buy}
use low_latency_project.Order.Record.{Order, TradeEvent}
use low_latency_project.Engine.Risk.{
  RiskLimits, RiskState, check, on_fill, signed_qty, add_i64, notional,
}
use low_latency_project.Engine.Risk.Limits.{
  none_of, accepted_fill, exact_qty, signed_exact, add_exact,
}
use low_latency_project.Engine.Matching.Priority.{Fill}
use low_latency_project.Engine.Matching.Priority.Laws.{total_filled}
use low_latency_project.Engine.Matching.Loop.{stamp}
use low_latency_project.Engine.Run.{fills_of}

abbrev pub trade_total : List TradeEvent → ℕ
trade_total [] = 0
trade_total (t ∷ trades) = t.trade_qty + trade_total trades

pub trade_total-stamp :
    (clock : ℕ → Timestamp) (n : ℕ) (id : OrderId) (fills : List Fill)
    → trade_total (stamp clock n id fills) ≡ total_filled fills
trade_total-stamp clock n id [] = refl
trade_total-stamp clock n id (f ∷ fills) =
    ap (λ k. f.qty + k) (trade_total-stamp clock (suc n) id fills)

-- Limits for which no sum of a position and a quantity overflows.
pub record AreModest (limits : RiskLimits) : Type 0 where
  pub qty : limits.max_order_qty < 2 ^ 62
  pub long : pos_part limits.max_long_position < 2 ^ 62
  pub short : neg_part limits.max_short_position < 2 ^ 62

abbrev pub Within : RiskLimits → ℤ → Type 0
Within limits position =
    (limits.max_short_position ≤ℤ position) × (position ≤ℤ limits.max_long_position)

-- What a round did to the position: nothing, or it filled trades of a popped order that passed the
-- checks, of no more than its remaining quantity.
pub data Moved (limits : RiskLimits) (popped : Option Order) (before after : ℤ) : Type 0 where
  stayed : after ≡ before → Moved limits popped before after
  filled :
      (o : Order) (s : RiskState) (trades : List TradeEvent)
      → popped ≡ some o
      → s.net_position ≡ before
      → (check limits o.side o.price o.qty s).0 ≡ true
      → trade_total trades ≤ o.remaining_qty
      → after ≡ (fills_of o.side trades (check limits o.side o.price o.qty s).1).net_position
      → Moved limits popped before after

sum_parts :
    (a b : ℤ)
    → pos_part (a +ℤ b) + (neg_part a + neg_part b) ≡ pos_part a + pos_part b + neg_part (a +ℤ b)
unfolding ◌+ℤ◌
sum_parts a b = ground arith

add-add :
    (p c d e : ℤ)
    → pos_part c + pos_part d + neg_part e ≡ pos_part e + neg_part c + neg_part d
    → p +ℤ c +ℤ d ≡ p +ℤ e
add-add p c d e h =
    eq_of_parts (p +ℤ c +ℤ d) (p +ℤ e)
      (omega (arith, h, sum_parts p c, sum_parts (p +ℤ c) d, sum_parts p e))

module _ (limits : RiskLimits) (modest : AreModest limits) (side : Side) where
  Within-IsInt64 : (p : ℤ) → Within limits p → IsInt64 p
  Within-IsInt64 p w = ground (arith, modest.long, modest.short)

  exact_qty-IsInt64 : (n : Quantity) → n ≤ 2 ^ 62 → IsInt64 (exact_qty side n)
  exact_qty-IsInt64 n small = elim (Bool-cases (is_buy side)) [
    | inl buys ↦ rw buys (omega arith, omega arith)
    | inr sells ↦ rw sells (ground arith)
  ]

  -- A part of an amount leads to between the two positions, and the rest from there to the second.
  between :
      (p : ℤ) (t n : Quantity)
      → t ≤ n
      → Within limits p
      → Within limits (p +ℤ exact_qty side n)
      → Within limits (p +ℤ exact_qty side t)
        × (p +ℤ exact_qty side t +ℤ exact_qty side (n - t) ≡ p +ℤ exact_qty side n)
  between p t n le w v = elim (Bool-cases (is_buy side)) [
    | inl buys ↦ rw buys (
      omega (arith, w, rw buys at v, sum_parts p (pos n), sum_parts p (pos t)),
      add-add p (pos t) (pos (n - t)) (pos n) (omega (arith, le)),
    )
    | inr sells ↦ rw sells (
      ground (arith, w, rw sells at v, sum_parts p (neg_ℤ (pos n)), sum_parts p (neg_ℤ (pos t))),
      add-add p (neg_ℤ (pos t)) (neg_ℤ (pos (n - t))) (neg_ℤ (pos n)) (ground (arith, le)),
    )
  ]

  sum-IsInt64 :
      (p : ℤ) (n : Quantity) → Within limits p → n < 2 ^ 62 → IsInt64 (p +ℤ exact_qty side n)
  unfolding ◌+ℤ◌
  sum-IsInt64 p n w small = elim (Bool-cases (is_buy side)) [
    | inl buys ↦ rw buys (ground (arith, w, modest.long, modest.short))
    | inr sells ↦ rw sells (ground (arith, w, modest.long, modest.short))
  ]

  projected_exact :
      (n : Quantity) (p : ℤ)
      → Within limits p
      → n < 2 ^ 62
      → add_i64 p (signed_qty side n) ≡ p +ℤ exact_qty side n
  projected_exact n p w small =
      ap (add_i64 p) (signed_exact side n (omega arith))
      ∙ add_exact p (exact_qty side n) (Within-IsInt64 p w) (exact_qty-IsInt64 n (omega arith))
          (sum-IsInt64 p n w small)

  -- Trades of no more than an amount that keeps the limits keep them.
  fills_of-Within :
      (trades : List TradeEvent) (n : Quantity) (s : RiskState)
      → n < 2 ^ 62
      → trade_total trades ≤ n
      → Within limits s.net_position
      → Within limits (s.net_position +ℤ exact_qty side n)
      → Within limits (fills_of side trades s).net_position
  unfolding fills_of on_fill
  fills_of-Within [] n s small le w v = w
  fills_of-Within (t ∷ trades) n s small le w v =
      let (mid, on) = between s.net_position t.trade_qty n (omega arith) w v in
      let e = projected_exact t.trade_qty s.net_position w (omega arith) in
      fills_of-Within trades (n - t.trade_qty) (on_fill side t.trade_qty s) (omega arith)
        (omega arith) (rw e mid) (rw (e, on) v)

  -- What `check` accepts is within the limits without machine widths.
  accepted_qty :
      (price : Price) (qty : Quantity) (s : RiskState)
      → (check limits side price qty s).0 ≡ true
      → qty ≤ limits.max_order_qty
  unfolding check
  accepted_qty price qty s ok =
      let projected = add_i64 s.net_position (signed_qty side qty) in
      let (no_qty, _, _, _) =
        none_of (ltb limits.max_order_qty qty) (ltb limits.max_notional (notional price qty))
          (ltb_ℤ limits.max_long_position projected) (ltb_ℤ projected limits.max_short_position)
          ok in
      ground (arith, no_qty)

  accepted-Within :
      (price : Price) (qty : Quantity) (s : RiskState)
      → (check limits side price qty s).0 ≡ true
      → Within limits s.net_position
      → Within limits (s.net_position +ℤ exact_qty side qty)
  unfolding check on_fill
  accepted-Within price qty s ok w =
      let small : qty < 2 ^ 62 = omega (arith, accepted_qty price qty s ok, modest.qty) in
      rw (projected_exact qty s.net_position w small) at (accepted_fill limits side price qty s ok)

pub Moved-Within :
    (limits : RiskLimits) (popped : Option Order) (before after : ℤ)
    → AreModest limits
    → ((o : Order) → popped ≡ some o → o.remaining_qty ≤ o.qty)
    → Moved limits popped before after
    → Within limits before
    → Within limits after
unfolding check
Moved-Within limits popped before after modest whole (stayed e) w = rw e w
Moved-Within limits popped before after modest whole (filled o s trades is same ok le e) w = rw e (
    fills_of-Within limits modest o.side trades o.qty (check limits o.side o.price o.qty s).1
      (omega (arith, accepted_qty limits modest o.side o.price o.qty s ok, modest.qty))
      (omega (arith, whole o is, le)) (rw same w)
      (accepted-Within limits modest o.side o.price o.qty s ok (rw same w)))
