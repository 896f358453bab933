-- ===== src/Order/Record.antt =====
-- include/order/order.hpp and the `TradeEvent` of include/order/price_level.hpp.
use low_latency_project.Prelude.{ℕ, Option, none, update}
use low_latency_project.Prelude.Int.{pos}
use low_latency_project.Core.Types.{
  OrderId, Price, Quantity, Timestamp, Side, buy, OrderType, limit,
}

pub data OrderState : Type 0 where
  new_order part_fill filled cancelled : OrderState

-- `Order*` is the index of a pool slot, `nullptr` is `none`. The padding is left out.
abbrev pub Pointer : Type 0
Pointer = Option ℕ

pub record Order : Type 0 where
  pub id : OrderId
  pub price : Price
  pub qty : Quantity
  pub remaining_qty : Quantity
  pub side : Side
  pub type : OrderType
  pub state : OrderState
  pub timestamp_ns : Timestamp
  pub prev : Pointer
  pub next : Pointer

-- `Order{}`: every field zero.
abbrev pub zero_order : Order
zero_order = record {
  id = 0;
  price = pos 0;
  qty = 0;
  remaining_qty = 0;
  side = buy;
  type = limit;
  state = new_order;
  timestamp_ns = 0;
  prev = none;
  next = none;
}

pub record TradeEvent : Type 0 where
  pub aggressive_id : OrderId
  pub passive_id : OrderId
  pub trade_price : Price
  pub trade_qty : Quantity
  pub timestamp_ns : Timestamp

-- The slots of the pool, read through an `Order*`.
abbrev pub Heap : Type 0
Heap = ℕ → Order

-- Assignments through an `Order*`.
abbrev pub set_prev : Heap → ℕ → Pointer → Heap
set_prev h o p = update h o (record (h o) { prev = p })

abbrev pub set_next : Heap → ℕ → Pointer → Heap
set_next h o p = update h o (record (h o) { next = p })

abbrev pub set_remaining : Heap → ℕ → Quantity → Heap
set_remaining h o q = update h o (record (h o) { remaining_qty = q })

abbrev pub set_state : Heap → ℕ → OrderState → Heap
set_state h o s = update h o (record (h o) { state = s })
