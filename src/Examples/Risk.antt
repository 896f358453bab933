-- ===== src/Examples/Risk.antt =====
-- An order of 10 at 100 within the limits.
use low_latency_project.Prelude.{◌≡◌, refl, true, arith, ◌↔◌}
use low_latency_project.Prelude.Int.{pos, negsuc, ◌≤ℤ◌, ◌+ℤ◌}
use low_latency_project.Core.Types.{buy}
use low_latency_project.Engine.Risk.{RiskLimits, RiskState, check, on_fill}
use low_latency_project.Engine.Risk.Limits.{Fits, accepted_fill, check_iff}

abbrev limits : RiskLimits
limits = record {
  max_order_qty = 1000;
  max_notional = 1000000;
  max_long_position = pos 50;
  max_short_position = negsuc 49;
}

abbrev state : RiskState
state = record { net_position = pos 30; orders_sent = 3; orders_rejected = 0 }

accepted_fill_example :
    (negsuc 49 ≤ℤ (on_fill buy 10 (check limits buy (pos 100) 10 state).1).net_position)
    × ((on_fill buy 10 (check limits buy (pos 100) 10 state).1).net_position ≤ℤ pos 50)
unfolding check
accepted_fill_example = accepted_fill limits buy (pos 100) 10 state refl

check_iff_example : (check limits buy (pos 100) 10 state).0 ≡ true ↔ Fits limits buy 100 10 state
unfolding ◌+ℤ◌
check_iff_example =
    check_iff limits buy 100 10 state (omega arith) (omega arith) (omega arith)
      (omega arith, omega arith) (omega arith, omega arith)
